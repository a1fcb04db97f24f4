-- ===== src/Ioc/Ending.antt =====
-- container.go: the fuel that a resolution needs, whatever the definitions depend on.
use springo.Base.{
  ℕ, zero, suc, ◌+◌, ◌≤◌, ◌<◌, ◌≡◌, refl, sym, ap, ◌∙◌, inl, inr, true, false, List, [], ◌∷◌, ◌++◌,
  none, some, Text, ◌==◌, text_key, text_eqb_iff, lookup, insert, if◌then◌else◌, Bool-cases, arith,
  length,
}
use springo.Ioc.Defs.{BeanDefinition, Reflect, Container}
use springo.Ioc.Resolve.{ok, fails, Getter, is_circular, finish_singleton, get_bean_scoped}
use springo.Ioc.Steps.{Keeps, Total, Finishes}
use springo.Ioc.Preserved.{get_bean_scoped-Ends_step}

abbrev pub keys : List (Text × BeanDefinition) → List Text
keys [] = []
keys ((name, def) ∷ defs) = name ∷ keys defs

-- The names that are not on the stack.
abbrev pub count_unseen : List Text → List Text → ℕ
count_unseen stack [] = 0
count_unseen stack (name ∷ names) =
    (if is_circular stack name then 0 else 1) + count_unseen stack names

mem_keys :
    (name : Text) (def : BeanDefinition) (defs : List (Text × BeanDefinition))
    → lookup name defs ≡ some def
    → is_circular (keys defs) name ≡ true
unfolding lookup is_circular
mem_keys name def [] e = absurd (ground arith)
mem_keys name def ((k, d) ∷ defs) e = ground (arith, mem_keys name def defs)

keys-insert :
    (name : Text) (def : BeanDefinition) (defs : List (Text × BeanDefinition))
    → is_circular (keys defs) name ≡ true
    → keys (insert name def defs) ≡ keys defs
unfolding insert is_circular
keys-insert name def [] e = absurd (ground arith)
keys-insert name def ((k, d) ∷ defs) e =
    ground (arith, text_eqb_iff k name, keys-insert name def defs)

is_circular-append :
    (stack : List Text) (name k : Text)
    → is_circular (stack ++ name ∷ []) k ≡ (if is_circular stack k then true else name == k)
unfolding is_circular
is_circular-append [] name k = ground arith
is_circular-append (s ∷ stack) name k = ground (arith, is_circular-append stack name k)

count_unseen_push_le :
    (stack : List Text) (name : Text) (ks : List Text)
    → count_unseen (stack ++ name ∷ []) ks ≤ count_unseen stack ks
count_unseen_push_le stack name [] = ground arith
count_unseen_push_le stack name (k ∷ ks) =
    ground (arith, is_circular-append stack name k, count_unseen_push_le stack name ks)

is_circular-cons :
    (k name : Text) (ks : List Text)
    → is_circular (k ∷ ks) name ≡ (if k == name then true else is_circular ks name)
unfolding is_circular
is_circular-cons k name ks = refl

-- A name that is pushed is seen from then on.
count_unseen_push :
    (stack : List Text) (name : Text) (ks : List Text)
    → is_circular stack name ≡ false
    → is_circular ks name ≡ true
    → count_unseen (stack ++ name ∷ []) ks < count_unseen stack ks
count_unseen_push stack name [] f m = unfold is_circular in absurd (ground arith)
count_unseen_push stack name (k ∷ ks) f m = elim (Bool-cases (k == name)) [
  | inl same ↦
      let there : k ≡ name = (text_eqb_iff k name).0 same in
      let before : is_circular stack k ≡ false = ap (is_circular stack) there ∙ f in
      let now : is_circular (stack ++ name ∷ []) k ≡ true =
        is_circular-append stack name k
        ∙ ap (λ b. if b then true else name == k) before
        ∙ (text_eqb_iff name k).1 (sym there) in
      let fewer = count_unseen_push_le stack name ks in ground arith
  | inr differs ↦
      let deeper =
        count_unseen_push stack name ks f
          (sym (rw (differs) at (is_circular-cons k name ks)) ∙ m) in
      ground (arith, is_circular-append stack name k)
]

-- The names of the definitions are `ks`.
abbrev pub Names : List Text → Container → Type 0
Names ks c = keys c.definitions ≡ ks

Names-Keeps : (ks : List Text) → Keeps (Names ks)
Names-Keeps ks = record {
  matches = λ c m e. e;
  injects = λ c l e. e;
  calls = λ c name e. e;
  requests = λ c registry e. e;
}

pub Names-Finishes :
    (r : Reflect) (get : Getter) (ks : List Text) (name : Text) (def : BeanDefinition)
    → is_circular ks name ≡ true
    → Finishes r get (Names ks) name def
unfolding finish_singleton
Names-Finishes r get ks name def m (ok bean c) e =
    keys-insert name _ c.definitions (ap (λ l. is_circular l name) e ∙ m) ∙ e
Names-Finishes r get ks name def m (fails err c) e =
    keys-insert name _ c.definitions (ap (λ l. is_circular l name) e ∙ m) ∙ e

-- A resolution ends, and leaves what the steps keep and each singleton that is stored, which is a
-- defined name that was not a bean.
module _ (r : Reflect) (ks : List Text) (I : Container → Type 0) (keeps : Keeps I)
    (names : (c : Container) → I c → Names ks c)
    (finishes : (get : Getter) (name : Text) (def : BeanDefinition) (c : Container)
      → I c
      → lookup name c.beans ≡ none
      → is_circular ks name ≡ true
      → Finishes r get I name def) where
  pub get_bean_scoped-Total :
      (fuel : ℕ) (stack : List Text)
      → count_unseen stack ks < fuel
      → Total I (get_bean_scoped r fuel stack)
  get_bean_scoped-Total zero stack l name c e = absurd (ground arith)
  get_bean_scoped-Total (suc fuel) stack l name c e =
      get_bean_scoped-Ends_step r I keeps fuel stack name c e (λ missing def defined unseen.
        let there : is_circular ks name ≡ true =
          ap (λ l. is_circular l name) (sym (names c e))
          ∙ mem_keys name def c.definitions defined in
        let fewer = count_unseen_push stack name ks unseen there in
        (
          get_bean_scoped-Total fuel (stack ++ name ∷ []) (ground arith),
          finishes (get_bean_scoped r fuel (stack ++ name ∷ [])) name def c e missing there,
        ))

count_unseen_bounds : (ks : List Text) → count_unseen [] ks ≤ length ks
count_unseen_bounds [] = ground arith
count_unseen_bounds (k ∷ ks) = ground (arith, count_unseen_bounds ks)

-- How deep calls of the container can nest, and one more.
abbrev pub enough : Container → ℕ
enough c = suc (length (keys c.definitions))

pub enough_unseen : (c : Container) → count_unseen [] (keys c.definitions) < enough c
enough_unseen c = let b = count_unseen_bounds (keys c.definitions) in ground arith
