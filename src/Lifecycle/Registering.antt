-- ===== src/Lifecycle/Registering.antt =====
-- lifecycle.go: the shape that `register` keeps.
use springo.Base.{
  ◌≡◌, refl, ◌≢◌, inl, inr, [], ◌∷◌, Option, none, some, Text, arith, ◌==◌, text_key, text_eqb_iff,
  lookup, insert, insert-IsMap, IsMap, All, ℤ, Bool-cases, Option-cases,
}
use springo.Lifecycle.{Registration, Registry, registered, Hook, register}

module _ {C W : Type 0} where
  -- Each entry is filed under its own name, and no name is empty or stands twice.
  pub record IsWellFormed (r : Registry C W) : Type 0 where
    pub unique : IsMap r
    pub filed : All (λ p. (p.0 ≡ p.1.name) × (p.0 ≢ [])) r

  abbrev pub Filed : Text × Registration C W → Type 0
  Filed p = (p.0 ≡ p.1.name) × (p.0 ≢ [])

  insert-Filed :
      (k : Text) (v : Registration C W) (r : Registry C W)
      → Filed (k, v)
      → All Filed r
      → All Filed (insert k v r)
  unfolding insert
  insert-Filed k v [] h a = (h, tt)
  insert-Filed k v ((j, w) ∷ r) h a = elim (Bool-cases (j == k)) [
    | inl same ↦ rw same (h, a.1)
    | inr other ↦ rw other (a.0, insert-Filed k v r h a.1)
  ]

  -- A registration keeps the invariant: every name has one entry, and the entry is found under the
  -- name that it carries itself.
  pub register-IsWellFormed :
      (name : Text) (order : ℤ) (hook : Option (Hook C W)) (r r' : Registry C W)
      → IsWellFormed r
      → register name order hook r ≡ registered r'
      → IsWellFormed r'
  unfolding register
  register-IsWellFormed name order none r r' v e = absurd (ground (arith, text_eqb_iff name []))
  register-IsWellFormed name order (some h) r r' v e = elim (Bool-cases (name == [])) [
    | inl empty ↦ absurd (ground arith)
    | inr named ↦ elim (Option-cases (lookup name r)) [
      | inl free ↦
          let item : Registration C W = record { name = name; order = order; hook = h } in
          let same : insert name item r ≡ r' = ground arith in
          rw (← same) (record {
            unique = insert-IsMap name item r v.unique;
            filed =
                insert-Filed name item r (refl, λ e'. ground (arith, text_eqb_iff name [])) v.filed;
          })
      | inr (old, taken) ↦ absurd (ground arith)
    ]
  ]
