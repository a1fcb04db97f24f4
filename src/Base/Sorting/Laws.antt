-- ===== src/Base/Sorting/Laws.antt =====
-- The laws of the stable sort: sortedness, and independence of the order of the input.
use mathlib.Core.Path.{◌≡◌, refl, sym, ◌∙◌, ap, subst}
use mathlib.Core.Logic.{◌⊎◌, inl, inr}
use mathlib.Core.Bool.{Bool, true, false}
use mathlib.Core.List.Permᴰ
use mathlib.Core.List.{List, [], ◌∷◌, ◌++◌, reverse, reverse-cons, Permᴰ, reverse-reverse}
use native.Mathlib.Omega.{arith}
use springo.Base.Tests.{Bool-cases}
use springo.Base.Lists.{All, All-append}
use springo.Base.Sorting.{
  insert_sorted, sort_stable, IsSorted, Separated, WeakOrder, sort_stable-perm, All-perm,
}

All-insert_sorted {ℓ κ} :
    {A : Type ℓ} (P : A → Type κ) (less : A → A → Bool) (x : A) (ys : List A)
    → P x
    → All P ys
    → All P (insert_sorted less x ys)
unfolding insert_sorted
All-insert_sorted P less x [] h k = (h, tt)
All-insert_sorted P less x (y ∷ ys) h k = elim (Bool-cases (less y x)) [
  | inl later ↦ rw later (k.0, All-insert_sorted P less x ys h k.1)
  | inr here ↦ rw here (h, k)
]

pub All-imp {ℓ κ μ} :
    {A : Type ℓ} {P : A → Type κ} {Q : A → Type μ} (f : (a : A) → P a → Q a) (xs : List A)
    → All P xs
    → All Q xs
All-imp f [] h = tt
All-imp f (x ∷ xs) h = (f x h.0, All-imp f xs h.1)

module _ {ℓ} {A : Type ℓ} (less : A → A → Bool) (law : WeakOrder less) where
  not_less_trans : (x y z : A) → less y x ≡ false → less z y ≡ false → less z x ≡ false
  not_less_trans x y z h k = elim (Bool-cases (less z x)) [
    | inl below ↦ absurd (ground (arith, law.cotrans z y x below k))
    | inr above ↦ above
  ]

  insert_sorted-IsSorted :
      (x : A) (ys : List A) → IsSorted less ys → IsSorted less (insert_sorted less x ys)
  unfolding insert_sorted
  insert_sorted-IsSorted x [] h = (tt, tt)
  insert_sorted-IsSorted x (y ∷ ys) h = elim (Bool-cases (less y x)) [
    | inl later ↦ rw later (
      All-insert_sorted (λ z. less z y ≡ false) less x ys (law.asym y x later) h.0,
      insert_sorted-IsSorted x ys h.1,
    )
    | inr here ↦ rw here ((here, All-imp (λ z. not_less_trans x y z here) ys h.0), h)
  ]

  pub sort_stable-IsSorted : (xs : List A) → IsSorted less (sort_stable less xs)
  unfolding sort_stable
  sort_stable-IsSorted [] = tt
  sort_stable-IsSorted (x ∷ xs) = insert_sorted-IsSorted x _ (sort_stable-IsSorted xs)

  insert_sorted-swap :
      (x y : A) (l : List A)
      → (less x y ≡ true) ⊎ (less y x ≡ true)
      → insert_sorted less x (insert_sorted less y l)
        ≡ insert_sorted less y (insert_sorted less x l)
  unfolding insert_sorted
  insert_sorted-swap x y [] h = ground (arith, law.asym x y, law.asym y x)
  insert_sorted-swap x y (z ∷ zs) h = ground (
    arith,
    law.asym x y,
    law.asym y x,
    law.cotrans z y x,
    law.cotrans z x y,
    insert_sorted-swap x y zs h,
  )

  abbrev pub Apart : A → A → Type 0
  Apart x y = (less x y ≡ true) ⊎ (less y x ≡ true)

  pub Separated-perm : {xs ys : List A} → Permᴰ xs ys → Separated less xs → Separated less ys
  Separated-perm Permᴰ.nil h = tt
  Separated-perm (Permᴰ.cons {l₂ = ys} e p) h =
      (subst (λ w. All (Apart w) ys) e (All-perm (Apart _) p h.0), Separated-perm p h.1)
  Separated-perm (Permᴰ.swap {a = a} {b = b} {a' = a'} {b' = b'} {l = l} e d) h = (
    (ground arith, subst (λ w. All (Apart w) l) d h.1.0),
    (subst (λ w. All (Apart w) l) e h.0.1, h.1.1),
  )
  Separated-perm (Permᴰ.trans p q) h = Separated-perm q (Separated-perm p h)

  -- Whatever order the input comes in, the result is the same.
  pub sort_stable-eq_of_perm :
      {xs ys : List A} → Permᴰ xs ys → Separated less xs → sort_stable less xs ≡ sort_stable less ys
  unfolding sort_stable
  sort_stable-eq_of_perm Permᴰ.nil h = refl
  sort_stable-eq_of_perm (Permᴰ.cons e p) h = rw (e, sort_stable-eq_of_perm p h.1)
  sort_stable-eq_of_perm (Permᴰ.swap {a = a} {b = b} {l = l} e d) h =
      rw (← e, ← d) (insert_sorted-swap a b _ h.0.0)
  sort_stable-eq_of_perm (Permᴰ.trans p q) h =
      sort_stable-eq_of_perm p h ∙ sort_stable-eq_of_perm q (Separated-perm p h)

  -- A sorted list is left as it is.
  sort_stable-eq_of_IsSorted : (xs : List A) → IsSorted less xs → sort_stable less xs ≡ xs
  unfolding sort_stable
  sort_stable-eq_of_IsSorted [] h = refl
  sort_stable-eq_of_IsSorted (x ∷ xs) h =
      ap (insert_sorted less x) (sort_stable-eq_of_IsSorted xs h.1) ∙ front xs h.0
    where
      front : (ys : List A) → All (λ y. less y x ≡ false) ys → insert_sorted less x ys ≡ x ∷ ys
      front [] a = refl
      front (y ∷ ys) a = rw a.0

  IsSorted-snoc :
      (xs : List A) (y : A)
      → IsSorted less xs
      → All (λ x. less y x ≡ false) xs
      → IsSorted less (xs ++ y ∷ [])
  IsSorted-snoc [] y h a = (tt, tt)
  IsSorted-snoc (x ∷ xs) y h a =
      (All-append _ xs (y ∷ []) h.0 (a.0, tt), IsSorted-snoc xs y h.1 a.1)

pub All-reverse {ℓ κ} : {A : Type ℓ} (P : A → Type κ) (xs : List A) → All P xs → All P (reverse xs)
All-reverse P [] h = tt
All-reverse P (x ∷ xs) h =
    rw (reverse-cons x xs) (All-append P (reverse xs) (x ∷ []) (All-reverse P xs h.1) (h.0, tt))

module _ {ℓ} {A : Type ℓ} (less greater : A → A → Bool) (law : WeakOrder less)
    (law' : WeakOrder greater) (opposite : (a b : A) → greater a b ≡ less b a) where
  reverse-IsSorted : (xs : List A) → IsSorted greater xs → IsSorted less (reverse xs)
  reverse-IsSorted [] h = tt
  reverse-IsSorted (x ∷ xs) h = rw (reverse-cons x xs) (
      IsSorted-snoc less law (reverse xs) x (reverse-IsSorted xs h.1)
        (All-reverse _ xs (All-imp (λ y e. sym (opposite y x) ∙ e) xs h.0)))

  -- Sorting by the opposite comparator reverses the order.
  pub sort_stable-opposite :
      (xs : List A) → Separated less xs → sort_stable greater xs ≡ reverse (sort_stable less xs)
  sort_stable-opposite xs h = sym (reverse-reverse (sort_stable greater xs)) ∙ ap reverse (sym same)
    where
      down : List A
      down = sort_stable greater xs

      same : sort_stable less xs ≡ reverse down
      same =
          sort_stable-eq_of_perm less law
            (Permᴰ.trans (Permᴰ.symm (sort_stable-perm greater xs))
              (Permᴰ.symm (Permᴰ.reverse down)))
            h
          ∙ sort_stable-eq_of_IsSorted less law (reverse down)
              (reverse-IsSorted down (sort_stable-IsSorted greater law' xs))
