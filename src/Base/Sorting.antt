-- ===== src/Base/Sorting.antt =====
-- `sort.SliceStable`: the stable sort by a comparator, and when its result does not depend on the
-- order of the input.
pub mod Laws
use mathlib.Core.Path.{◌≡◌, refl, sym, ◌∙◌, ap, subst}
use mathlib.Core.Logic.{◌⊎◌, inl, inr}
use mathlib.Core.Bool.{Bool, true, false}
use mathlib.Core.List.{List, [], ◌∷◌, ◌++◌, reverse, reverse-cons}
use mathlib.Core.List.Permᴰ
use mathlib.Core.List.{Permᴰ}
use native.Mathlib.Omega.{arith}
use springo.Base.Tests.{if◌then◌else◌, Bool-cases}
use springo.Base.Lists.{All, All-append}

module _ {ℓ} {A : Type ℓ} where
  -- `x` goes before the first element that is not less than it.
  unfoldable pub insert_sorted : (A → A → Bool) → A → List A → List A
  insert_sorted less x [] = x ∷ []
  insert_sorted less x (y ∷ ys) = if less y x then y ∷ insert_sorted less x ys else x ∷ y ∷ ys

  unfoldable pub sort_stable : (A → A → Bool) → List A → List A
  unfolding insert_sorted
  sort_stable less [] = []
  sort_stable less (x ∷ xs) = insert_sorted less x (sort_stable less xs)

  -- No element is less than one before it.
  abbrev pub IsSorted : (A → A → Bool) → List A → Type ℓ
  IsSorted less [] = Unit
  IsSorted less (x ∷ xs) = All (λ y. less y x ≡ false) xs × IsSorted less xs

  -- Any two elements are told apart by the comparator.
  abbrev pub Separated : (A → A → Bool) → List A → Type ℓ
  Separated less [] = Unit
  Separated less (x ∷ xs) = All (λ y. (less x y ≡ true) ⊎ (less y x ≡ true)) xs × Separated less xs

-- What a comparator has to satisfy.
pub record WeakOrder {ℓ} {A : Type ℓ} (less : A → A → Bool) : Type ℓ where
  pub asym : (a b : A) → less a b ≡ true → less b a ≡ false
  pub cotrans : (a b c : A) → less a c ≡ true → less a b ≡ false → less b c ≡ true

module _ {ℓ} {A : Type ℓ} (less : A → A → Bool) where
  insert_sorted-perm : (x : A) (ys : List A) → Permᴰ (insert_sorted less x ys) (x ∷ ys)
  unfolding insert_sorted
  insert_sorted-perm x [] = Permᴰ.refl (x ∷ [])
  insert_sorted-perm x (y ∷ ys) = elim (Bool-cases (less y x)) [
    | inl later ↦
        rw later (Permᴰ.trans (Permᴰ.cons refl (insert_sorted-perm x ys)) (Permᴰ.swap refl refl))
    | inr here ↦ rw here (Permᴰ.refl (x ∷ y ∷ ys))
  ]

  pub sort_stable-perm : (xs : List A) → Permᴰ (sort_stable less xs) xs
  unfolding sort_stable
  sort_stable-perm [] = Permᴰ.nil
  sort_stable-perm (x ∷ xs) =
      Permᴰ.trans (insert_sorted-perm x _) (Permᴰ.cons refl (sort_stable-perm xs))

module _ {ℓ κ} {A : Type ℓ} (P : A → Type κ) where
  pub All-perm : {xs ys : List A} → Permᴰ xs ys → All P xs → All P ys
  All-perm Permᴰ.nil h = tt
  All-perm (Permᴰ.cons e p) h = (subst P e h.0, All-perm p h.1)
  All-perm (Permᴰ.swap e d) h = (subst P d h.1.0, (subst P e h.0, h.1.1))
  All-perm (Permᴰ.trans p q) h = All-perm q (All-perm p h)
