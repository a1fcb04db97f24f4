-- ===== src/Base/Maps.antt =====
-- A Go map as an association list: lookup, insertion, deletion, and the map with unique keys.
use Prim.Native.Nat.{◌+◌, ◌≤◌}
use mathlib.Core.Path.{◌≡◌, refl, sym}
use mathlib.Core.Logic.{◌≢◌, inl, inr}
use mathlib.Core.List.{List, [], ◌∷◌}
use mathlib.Core.Option.{Option, none, some}
use native.Mathlib.Omega.{arith}
use springo.Base.Tests.{if◌then◌else◌, Bool-cases}
use springo.Base.Lists.{length, All}
use springo.Base.Interfaces.{Key, ◌==◌, ==_ne}

module _ {ℓ κ} {K : Type ℓ} {V : Type κ} ⦃e : Key K⦄ where
  unfoldable pub lookup : K → List (K × V) → Option V
  lookup p [] = none
  lookup p ((q, x) ∷ es) = if q == p then some x else lookup p es

  unfoldable pub insert : K → V → List (K × V) → List (K × V)
  insert p x [] = (p, x) ∷ []
  insert p x ((q, y) ∷ es) = if q == p then (p, x) ∷ es else (q, y) ∷ insert p x es

  unfoldable pub delete : K → List (K × V) → List (K × V)
  delete p [] = []
  delete p ((q, y) ∷ es) = if q == p then delete p es else (q, y) ∷ delete p es

  pub lookup-insert :
      (p q : K) (x : V) (es : List (K × V))
      → lookup q (insert p x es) ≡ (if p == q then some x else lookup q es)
  unfolding lookup insert
  lookup-insert p q x [] = refl
  lookup-insert p q x ((r, y) ∷ es) =
      ground (arith, e.agrees_iff p q, e.agrees_iff r p, e.agrees_iff r q, lookup-insert p q x es)

  pub lookup-delete :
      (p q : K) (es : List (K × V))
      → lookup q (delete p es) ≡ (if p == q then none else lookup q es)
  unfolding lookup delete
  lookup-delete p q [] = ground arith
  lookup-delete p q ((r, y) ∷ es) =
      ground (arith, e.agrees_iff p q, e.agrees_iff r p, e.agrees_iff r q, lookup-delete p q es)

  -- Every key stands once.
  abbrev pub IsMap : List (K × V) → Type ℓ
  IsMap [] = Unit
  IsMap ((p, x) ∷ es) = All (λ entry. p ≢ entry.0) es × IsMap es

  All-insert :
      (r : K) (p : K) (x : V) (es : List (K × V))
      → r ≢ p
      → All (λ entry. r ≢ entry.0) es
      → All (λ entry. r ≢ entry.0) (insert p x es)
  unfolding insert
  All-insert r p x [] h a = (h, tt)
  All-insert r p x ((q, y) ∷ es) h a = elim (Bool-cases (q == p)) [
    | inl same ↦ rw same (h, a.1)
    | inr other ↦ rw other (a.0, All-insert r p x es h a.1)
  ]

  pub insert-IsMap : (p : K) (x : V) (es : List (K × V)) → IsMap es → IsMap (insert p x es)
  unfolding insert
  insert-IsMap p x [] h = (tt, tt)
  insert-IsMap p x ((q, y) ∷ es) h = elim (Bool-cases (q == p)) [
    | inl same ↦ rw same (rw (← (e.agrees_iff q p).0 same) h.0, h.1)
    | inr other ↦
        rw other
          (All-insert q p x es (λ s. ground (arith, e.agrees_iff q p)) h.0, insert-IsMap p x es h.1)
  ]

  All-delete :
      (r p : K) (es : List (K × V))
      → All (λ entry. r ≢ entry.0) es
      → All (λ entry. r ≢ entry.0) (delete p es)
  unfolding delete
  All-delete r p [] a = tt
  All-delete r p ((q, y) ∷ es) a = elim (Bool-cases (q == p)) [
    | inl same ↦ rw same (All-delete r p es a.1)
    | inr other ↦ rw other (a.0, All-delete r p es a.1)
  ]

  pub delete-IsMap : (p : K) (es : List (K × V)) → IsMap es → IsMap (delete p es)
  unfolding delete
  delete-IsMap p [] h = tt
  delete-IsMap p ((q, y) ∷ es) h = elim (Bool-cases (q == p)) [
    | inl same ↦ rw same (delete-IsMap p es h.1)
    | inr other ↦ rw other (All-delete q p es h.0, delete-IsMap p es h.1)
  ]

  -- A write to a present key keeps the size; one to a new key adds an entry.
  pub length-insert :
      (p : K) (x : V) (es : List (K × V))
      → length (insert p x es) ≡ elim (lookup p es) [ none ↦ length es + 1 | some _ ↦ length es ]
  unfolding insert lookup
  length-insert p x [] = omega arith
  length-insert p x ((q, y) ∷ es) = ground (arith, length-insert p x es)

  pub length-delete : (p : K) (es : List (K × V)) → length (delete p es) ≤ length es
  unfolding delete
  length-delete p [] = omega arith
  length-delete p ((q, y) ∷ es) = ground (arith, length-delete p es)

  pub lookup-absent :
      (p : K) (es : List (K × V)) → All (λ entry. p ≢ entry.0) es → lookup p es ≡ none
  unfolding lookup
  lookup-absent p [] a = refl
  lookup-absent p ((q, y) ∷ es) a = rw (==_ne q p (λ s. a.0 (sym s))) (lookup-absent p es a.1)
