-- ===== src/Migration/Order.antt =====
-- migration_version.go: the order of names that carry a version.
use springo.Base.{
  ℕ, ◌≡◌, refl, sym, ap, ◌∙◌, inl, inr, Bool, true, List, [], ◌∷◌, Option, none, some, Text,
  nat_key, text_ltb, text_ltb_trans, Option-cases, arith, subst,
}
use springo.Migration.Versions.{
  find_version, parse_numeric_parts, int64_ltb, compare_parts, compare_migration_names,
}

-- The name begins with a version.
abbrev pub IsVersioned : Text → Type 0
IsVersioned name = (version : Text) × (find_version name ≡ some version)

-- `xs` is before `ys`, or they are the same and `b` says so.
abbrev before : Option Bool → Bool → Bool
before none b = b
before (some less) b = less

compare_parts-none : (xs ys : List ℕ) → compare_parts xs ys ≡ none → xs ≡ ys
unfolding compare_parts
compare_parts-none [] [] e = refl
compare_parts-none [] (y ∷ ys) e = absurd (ground arith)
compare_parts-none (x ∷ xs) [] e = absurd (ground arith)
compare_parts-none (x ∷ xs) (y ∷ ys) e = ground (arith, compare_parts-none xs ys)

compare_parts_trans :
    (xs ys zs : List ℕ)
    → compare_parts xs ys ≡ some true
    → compare_parts ys zs ≡ some true
    → compare_parts xs zs ≡ some true
unfolding compare_parts int64_ltb
compare_parts_trans [] [] zs e f = absurd (ground arith)
compare_parts_trans (x ∷ xs) [] zs e f = absurd (ground arith)
compare_parts_trans xs (y ∷ ys) [] e f = absurd (ground arith)
compare_parts_trans [] (y ∷ ys) (z ∷ zs) e f = refl
compare_parts_trans (x ∷ xs) (y ∷ ys) (z ∷ zs) e f = ground (arith, compare_parts_trans xs ys zs)

before_trans :
    (a b c : Text) (xs ys zs : List ℕ)
    → before (compare_parts xs ys) (text_ltb a b) ≡ true
    → before (compare_parts ys zs) (text_ltb b c) ≡ true
    → before (compare_parts xs zs) (text_ltb a c) ≡ true
before_trans a b c xs ys zs e f = elim (Option-cases (compare_parts xs ys)) [
  | inl same ↦
      subst (λ l. before (compare_parts l zs) (text_ltb a c) ≡ true)
        (sym (compare_parts-none xs ys same)) (at (compare_parts ys zs) (rw same at e) f)
  | inr (less, first) ↦ elim (Option-cases (compare_parts ys zs)) [
    | inl same ↦
        subst (λ l. before (compare_parts xs l) (text_ltb a c) ≡ true)
          (compare_parts-none ys zs same) (rw first (rw first at e))
    | inr (less', second) ↦
        rw
          (compare_parts_trans xs ys zs (first ∙ ap some (rw first at e))
            (second ∙ ap some (rw second at f)))
          refl
  ]
]
  where
    at :
        (o : Option Bool)
        → text_ltb a b ≡ true
        → before o (text_ltb b c) ≡ true
        → before o (text_ltb a c) ≡ true
    at none l m = text_ltb_trans a b c l m
    at (some less) l m = m

compare_migration_names-before :
    (a b va vb : Text)
    → find_version a ≡ some va
    → find_version b ≡ some vb
    → compare_migration_names a b
      ≡ before (compare_parts (parse_numeric_parts va) (parse_numeric_parts vb)) (text_ltb a b)
unfolding compare_migration_names
compare_migration_names-before a b va vb e f =
    rw (e, compare_migration_names)
      (rw (f, compare_migration_names)
        (at (compare_parts (parse_numeric_parts va) (parse_numeric_parts vb))))
  where
    at :
        (o : Option Bool)
        → (elim o as (λ _. Bool) [ none ↦ text_ltb a b | some less ↦ less ])
          ≡ before o (text_ltb a b)
    at none = refl
    at (some less) = refl

-- Among names that begin with a version, the order is transitive, so that sorting by it is defined.
pub compare_migration_names_trans :
    (a b c : Text)
    → IsVersioned a
    → IsVersioned b
    → IsVersioned c
    → compare_migration_names a b ≡ true
    → compare_migration_names b c ≡ true
    → compare_migration_names a c ≡ true
compare_migration_names_trans a b c (va, e) (vb, f) (vc, g) l m =
    compare_migration_names-before a c va vc e g
    ∙ before_trans a b c (parse_numeric_parts va) (parse_numeric_parts vb) (parse_numeric_parts vc)
        (sym (compare_migration_names-before a b va vb e f) ∙ l)
        (sym (compare_migration_names-before b c vb vc f g) ∙ m)
