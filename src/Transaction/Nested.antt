-- ===== src/Transaction/Nested.antt =====
-- transaction.go: the buffered events of a nested scope that fails.
use springo.Base.{
  ℕ, ◌<◌, ◌≡◌, ◌≢◌, refl, sym, ap, ◌∙◌, ◌⊎◌, inl, inr, Bool, true, false, List, ◌∷◌, some, Text,
  codes, arith, length, take, nat_eqb, if◌then◌else◌, Bool-cases, not,
}
use springo.Transaction.{
  nested, Result, succeeds, fails, panics, World, Environment, Call, Answer, done, refused, marked,
  Body, add_error, subject, is_done, trim, buffered, issue, execute_in_nested_tx, inside,
  transactional, rollback_failed, savepoint_failed, save_point, rollback_to, set_handle,
}
use springo.Transaction.Code.{Code, perform}
use springo.Transaction.Growth.{IsPrefix, take-IsPrefix, issue-Later}
use springo.Transaction.Scopes.{perform-Later}
use springo.Transaction.Ending.{issue-log, issue-answer, missed, failed, panicked}

abbrev pub buffer_of : ℕ → World → List Text
buffer_of id w = (w.handles id).buffer

set_errors-buffer :
    (j id : ℕ) (es : List Text) (w : World)
    → buffer_of j (set_handle id (record (w.handles id) { errors = es }) w) ≡ buffer_of j w
set_errors-buffer j id es w = elim (Bool-cases (nat_eqb j id)) [
  | inl same ↦
      let there : j ≡ id = ground arith in
      rw (same, buffer_of) (ap (λ k. (w.handles k).buffer) (sym there))
  | inr differs ↦ rw (differs, buffer_of) refl
]

module _ (env : Environment) where
  issue-buffer : (id : ℕ) (c : Call) (w : World) → buffer_of id (issue env c w).1 ≡ buffer_of id w
  unfolding issue add_error
  issue-buffer id c w = at (env.answer w.log c)
    where
      at :
          (a : Answer)
          → buffer_of id (elim a as (λ _. World) [
            | marked ↦ add_error (subject c) (codes "gorm") (record w { log = c ∷ w.log })
            | _ ↦ record w { log = c ∷ w.log }
          ])
            ≡ buffer_of id w
      at done = refl
      at refused = refl
      at marked = set_errors-buffer id (subject c) _ (record w { log = c ∷ w.log })

  trim-buffer : (id n : ℕ) (w : World) → buffer_of id (trim (some id) n w) ≡ take n (buffer_of id w)
  unfolding trim
  trim-buffer id n w = let same : nat_eqb id id ≡ true = ground arith in rw (same, buffer_of) refl

  -- The last call is a rollback to a savepoint, and it was not done.
  abbrev pub NotRolledBack : ℕ → World → Type 0
  NotRolledBack id w =
      (name : ℕ) × (rest : List Call) × (w.log ≡ rollback_to id name ∷ rest)
      × (env.answer rest (rollback_to id name) ≢ done)

  -- The world behind the savepoint of a scope that is opened now.
  abbrev pub saved_at : ℕ → World → World
  saved_at id w = (issue env (save_point id (length w.log)) w).1

  -- How a nested scope ends: its code succeeded, and so does it; or it reports that the rollback to
  -- its savepoint failed, which it did; or it fails or panics, and the buffer is as it was.
  abbrev pub Restores : Body → ℕ → Bool → World → Result × World → Type 0
  Restores fn id ro w out =
      ((out.0 ≡ succeeds) × ((fn (inside env id ro) (saved_at id w)).0 ≡ succeeds))
      ⊎ ((out.0 ≡ fails rollback_failed) × NotRolledBack id out.1)
      ⊎ ((out.0 ≢ succeeds) × (buffer_of id out.1 ≡ buffer_of id w))

  -- Cut back to the savepoint, a buffer that has grown since is as it was.
  restored :
      (id n : ℕ) (w w1 w2 w3 : World)
      → buffer_of id w1 ≡ buffer_of id w
      → IsPrefix (buffer_of id w1) (buffer_of id w2)
      → buffer_of id w3 ≡ buffer_of id w2
      → buffer_of id (trim (some id) (length (buffer_of id w1)) w3) ≡ buffer_of id w
  restored id n w w1 w2 w3 e1 p e3 =
      trim-buffer id _ w3 ∙ ap (take (length (buffer_of id w1))) e3 ∙ take-IsPrefix _ _ p ∙ e1

  execute_in_nested_tx-Restores :
      (body : Code) (id : ℕ) (ro : Bool) (w : World)
      → id < w.next
      → Restores
          (perform env body)
          id
          ro
          w
          (execute_in_nested_tx env id (perform env body) (inside env id ro) w)
  unfolding execute_in_nested_tx buffered
  execute_in_nested_tx-Restores body id ro w l =
      at (is_done saved) (fn (inside env id ro) w1).0 refl
    where
      fn : Body
      fn = perform env body

      saved : Answer
      saved = (issue env (save_point id (length w.log)) w).0

      w1 : World
      w1 = (issue env (save_point id (length w.log)) w).1

      w2 : World
      w2 = (fn (inside env id ro) w1).1

      undone : Answer
      undone = (issue env (rollback_to id (length w.log)) w2).0

      w3 : World
      w3 = (issue env (rollback_to id (length w.log)) w2).1

      e1 : buffer_of id w1 ≡ buffer_of id w
      e1 = issue-buffer id (save_point id (length w.log)) w

      l1 : id < w1.next
      l1 = let m = (issue-Later env (save_point id (length w.log)) w).more in ground arith

      back : buffer_of id (trim (some id) (length (buffer_of id w1)) w3) ≡ buffer_of id w
      back =
          restored id 0 w w1 w2 w3 e1 ((perform-Later env body (inside env id ro) w1).grown id l1).0
            (issue-buffer id (rollback_to id (length w.log)) w2)

      at :
          (begins : Bool) (r : Result)
          → (fn (inside env id ro) w1).0 ≡ r
          → Restores fn id ro w (
              if not begins
              then (fails savepoint_failed, w1)
              else (elim r as (λ _. Result × World) [
                | succeeds ↦ (succeeds, w2)
                | fails e ↦
                    if is_done undone
                    then (fails e, trim (some id) (length (buffer_of id w1)) w3)
                    else (fails rollback_failed, w3)
                | panics e ↦ (panics e, trim (some id) (length (buffer_of id w1)) w3)
              ]))
      at false r e = inr (inr (failed env _, e1))
      at true succeeds e = inl (refl, e)
      at true (fails x) e = elim (Bool-cases (is_done undone)) [
        | inl went ↦ rw went (inr (inr (failed env x, back)))
        | inr stuck ↦ rw stuck (
            inr (
              inl (
                refl,
                (
                  length w.log,
                  w2.log,
                  issue-log env _ w2,
                  missed env _ (ap is_done (sym (issue-answer env _ w2)) ∙ stuck),
                ),
              )))
      ]
      at true (panics x) e = inr (inr (panicked env x, back))

  -- A nested scope in a transaction succeeds only where its code does; otherwise it reports that the
  -- rollback to its savepoint failed, and it did, or it fails or panics and leaves the transaction's
  -- buffered events exactly as they were before it.
  pub nested-Restores :
      (body : Code) (id : ℕ) (ro ro' : Bool) (w : World)
      → id < w.next
      → Restores (perform env body) id ro' w (
          transactional env
            (record { propagation = nested; read_only = ro })
            (perform env body)
            (inside env id ro')
            w)
  unfolding transactional
  nested-Restores body id ro ro' w l = execute_in_nested_tx-Restores body id ro' w l
