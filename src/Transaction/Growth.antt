-- ===== src/Transaction/Growth.antt =====
-- transaction.go: what any code of a service may do to the transactions that are open around it:
-- their event buffers and their errors only grow.
use mathlib.Core.List.{append-nil, append_assoc}
use springo.Base.{
  inl, inr, codes, ℕ, ◌≤◌, ◌<◌, ◌≡◌, refl, sym, ap, ◌∙◌, List, [], ◌∷◌, ◌++◌, Option, none, some,
  Text, arith, length, take, nat_eqb, Bool-cases, Option-cases, if◌then◌else◌, subst,
}
use springo.Transaction.{
  Result, succeeds, fails, panics, Context, World, Environment, Handle, Call, Answer, done, refused,
  marked, Body, set_handle, add_error, subject, add_event_to_transaction, execute_in_active_tx,
  trim, buffered, issue,
}

abbrev pub IsPrefix {ℓ} : {A : Type ℓ} → List A → List A → Type ℓ
IsPrefix xs ys = (rest : _) × (xs ++ rest ≡ ys)

module _ {ℓ} {A : Type ℓ} where
  IsPrefix-refl : (xs : List A) → IsPrefix xs xs
  IsPrefix-refl xs = ([], append-nil xs)

  IsPrefix-trans : (xs ys zs : List A) → IsPrefix xs ys → IsPrefix ys zs → IsPrefix xs zs
  IsPrefix-trans xs ys zs (p, e) (q, e') =
      (p ++ q, sym (append_assoc xs p q) ∙ ap (λ t. t ++ q) e ∙ e')

  IsPrefix-append : (xs ys : List A) → IsPrefix xs (xs ++ ys)
  IsPrefix-append xs ys = (ys, refl)

  take-append : (xs ys : List A) → take (length xs) (xs ++ ys) ≡ xs
  take-append [] ys = ground arith
  take-append (x ∷ xs) ys = ground (arith, take-append xs ys)

  pub take-IsPrefix : (xs ys : List A) → IsPrefix xs ys → take (length xs) ys ≡ xs
  take-IsPrefix xs ys (rest, e) = ap (take (length xs)) (sym e) ∙ take-append xs rest

-- A handle that has only grown.
abbrev pub Grown : Handle → Handle → Type 0
Grown h h' = IsPrefix h.buffer h'.buffer × IsPrefix h.errors h'.errors

pub Grown-refl : (h : Handle) → Grown h h
Grown-refl h = (IsPrefix-refl _, IsPrefix-refl _)

Grown-trans : (g h k : Handle) → Grown g h → Grown h k → Grown g k
Grown-trans g h k p q = (IsPrefix-trans _ _ _ p.0 q.0, IsPrefix-trans _ _ _ p.1 q.1)

-- Later in a run: the handles that there were have grown, and there may be more of them.
pub record Later (w w' : World) : Type 0 where
  pub more : w.next ≤ w'.next
  pub grown : (id : ℕ) → id < w.next → Grown (w.handles id) (w'.handles id)

pub Later-refl : (w : World) → Later w w
Later-refl w = record { more = ground arith; grown = λ id _. Grown-refl _ }

pub Later-trans : (u v w : World) → Later u v → Later v w → Later u w
Later-trans u v w p q = record {
  more = let a = p.more in let b = q.more in ground arith;
  grown = λ id l. Grown-trans _ _ _ (p.grown id l) (q.grown id (let a = p.more in ground arith));
}

-- One handle changes into one that has grown.
pub set_handle-Later :
    (id : ℕ) (h : Handle) (w : World) → Grown (w.handles id) h → Later w (set_handle id h w)
set_handle-Later id h w g = record { more = ground arith; grown = λ j l. at j }
  where
    at : (j : ℕ) → Grown (w.handles j) ((set_handle id h w).handles j)
    at j = elim (Bool-cases (nat_eqb j id)) [
      | inl same ↦
          let there : j ≡ id = ground arith in
          subst (λ b. Grown (w.handles j) (if b then h else w.handles j)) (sym same)
            (subst (λ k. Grown (w.handles k) h) (sym there) g)
      | inr differs ↦
          subst (λ b. Grown (w.handles j) (if b then h else w.handles j)) (sym differs)
            (Grown-refl _)
    ]

pub add_error-Later : (id : ℕ) (e : Text) (w : World) → Later w (add_error id e w)
unfolding add_error
add_error-Later id e w = set_handle-Later id _ w (IsPrefix-refl _, IsPrefix-append _ _)

pub add_event_to_transaction-Later :
    (e : Text) (ctx : Context) (w : World) → Later w (add_event_to_transaction e ctx w).1
unfolding add_event_to_transaction
add_event_to_transaction-Later e ctx w = elim (Option-cases ctx.events) [
  | inl absent ↦ rw absent (Later-refl w)
  | inr (id, there) ↦ rw there (set_handle-Later id _ w (IsPrefix-append _ _, IsPrefix-refl _))
]

-- What a transactional scope may run.
abbrev pub Growing : Body → Type 0
Growing fn = (ctx : Context) (w : World) → Later w (fn ctx w).1

pub execute_in_active_tx-Growing :
    (id : ℕ) (fn : Body) → Growing fn → Growing (execute_in_active_tx id fn)
unfolding execute_in_active_tx
execute_in_active_tx-Growing id fn g ctx w = at (fn ctx w) (g ctx w)
  where
    at :
        (out : Result × World)
        → Later w out.1
        → Later w
            (elim out.0 as (λ _. Result × World) [
              | succeeds ↦ (succeeds, out.1)
              | fails e ↦ (fails e, add_error id e out.1)
              | panics e ↦ (panics e, add_error id (codes "transaction panic: " ++ e) out.1)
            ]).1
    at (succeeds, w') l = l
    at (fails e, w') l = Later-trans w w' _ l (add_error-Later _ _ _)
    at (panics e, w') l = Later-trans w w' _ l (add_error-Later _ _ _)

-- A buffer cut back to a length that it had keeps what it had then.
pub trim-Later :
    (events : Option ℕ) (w w' : World) → Later w w' → Later w (trim events (buffered events w) w')
unfolding trim buffered
trim-Later none w w' l = l
trim-Later (some id) w w' l = record { more = l.more; grown = at }
  where
    at :
        (j : ℕ)
        → j < w.next
        → Grown (w.handles j) ((trim (some id) (buffered (some id) w) w').handles j)
    at j b = elim (Bool-cases (nat_eqb j id)) [
      | inl same ↦
          let there : j ≡ id = ground arith in
          let kept = take-IsPrefix _ _ (l.grown j b).0 in
          subst
            (λ b. Grown (w.handles j) (
              if b
              then record (w'.handles id) {
                buffer = take (length (w.handles id).buffer) (w'.handles id).buffer;
              }
              else w'.handles j))
            (sym same)
            (subst
              (λ k. Grown (w.handles j) (record (w'.handles k) {
                buffer = take (length (w.handles k).buffer) (w'.handles k).buffer;
              }))
              there
              (
                subst (λ t. IsPrefix (w.handles j).buffer t) (sym kept) (IsPrefix-refl _),
                (l.grown j b).1,
              ))
      | inr differs ↦
          subst
            (λ b. Grown (w.handles j) (
              if b
              then record (w'.handles id) {
                buffer = take (length (w.handles id).buffer) (w'.handles id).buffer;
              }
              else w'.handles j))
            (sym differs) (l.grown j b)
    ]

module _ (env : Environment) where
  pub issue-Later : (c : Call) (w : World) → Later w (issue env c w).1
  unfolding issue
  issue-Later c w = at (env.answer w.log c)
    where
      at :
          (a : Answer)
          → Later w (elim a [
            | marked ↦ add_error (subject c) (codes "gorm") (record w { log = c ∷ w.log })
            | _ ↦ record w { log = c ∷ w.log }
          ])
      at done = record { more = ground arith; grown = λ id _. Grown-refl _ }
      at refused = record { more = ground arith; grown = λ id _. Grown-refl _ }
      at marked =
          Later-trans w (record w { log = c ∷ w.log }) _
            (record { more = ground arith; grown = λ id _. Grown-refl _ }) (add_error-Later _ _ _)
