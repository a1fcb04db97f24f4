-- ===== src/Base/Runtime.antt =====
-- What the Go runtime chooses: the order in which `range` visits the entries of a map.
use mathlib.Core.List.Permᴰ
use mathlib.Core.List.{List, Permᴰ, reverse}

-- Each entry is visited once; nothing else is known of the order.
pub record Iteration {ℓ} (A : Type ℓ) : Type ℓ where
  pub visit : List A → List A
  pub visit-perm : (xs : List A) → Permᴰ (visit xs) xs

abbrev pub in_order {ℓ} : {A : Type ℓ} → Iteration A
in_order = record { visit = λ xs. xs; visit-perm = Permᴰ.refl }

abbrev pub backwards {ℓ} : {A : Type ℓ} → Iteration A
backwards = record { visit = reverse; visit-perm = Permᴰ.reverse }
