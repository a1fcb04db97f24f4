-- ===== src/Base/Texts.antt =====
-- A Go string is the list of its bytes: equality, and the order of Go's `<` on strings.
use Prim.Native.Nat.{ℕ}
use Prim.Native.Char.{code}
use Prim.Native.String.{String}
use mathlib.Core.Path.{◌≡◌, refl}
use mathlib.Core.Logic.{◌↔◌, ◌⊎◌, ◌≢◌, inl, inr}
use mathlib.Core.Bool.{Bool, true, false, ◌||◌}
use mathlib.Core.List.{List, [], ◌∷◌}
use native.Mathlib.Omega.{arith}
use springo.Base.Tests.{ltb, nat_eqb, if◌then◌else◌, Bool-cases}
use springo.Base.Interfaces.{Key}

abbrev pub Text : Type 0
Text = List ℕ

-- The bytes of an ASCII literal.
abbrev pub codes : String → Text
codes String.[] = []
codes (String.◌∷◌ letter letters) = code letter ∷ codes letters

unfoldable pub text_eqb : Text → Text → Bool
text_eqb [] [] = true
text_eqb [] (b ∷ t) = false
text_eqb (a ∷ s) [] = false
text_eqb (a ∷ s) (b ∷ t) = if nat_eqb a b then text_eqb s t else false

text_eqb_sound : (s t : Text) → text_eqb s t ≡ true → s ≡ t
unfolding text_eqb
text_eqb_sound [] [] h = refl
text_eqb_sound [] (b ∷ t) h = cc
text_eqb_sound (a ∷ s) [] h = cc
text_eqb_sound (a ∷ s) (b ∷ t) h = ground (arith, text_eqb_sound s t)

text_eqb_refl : (s : Text) → text_eqb s s ≡ true
unfolding text_eqb
text_eqb_refl [] = refl
text_eqb_refl (a ∷ s) = ground (arith, text_eqb_refl s)

pub text_eqb_iff : (s t : Text) → (text_eqb s t ≡ true) ↔ (s ≡ t)
text_eqb_iff s t = (text_eqb_sound s t, λ e. rw e (text_eqb_refl t))

instance abbrev pub text_key : Key Text
text_key = record { agrees = text_eqb; agrees_iff = text_eqb_iff }

-- Go compares strings byte by byte; a proper prefix is the smaller one.
unfoldable pub text_ltb : Text → Text → Bool
text_ltb [] [] = false
text_ltb [] (b ∷ t) = true
text_ltb (a ∷ s) [] = false
text_ltb (a ∷ s) (b ∷ t) = if ltb a b then true else if nat_eqb a b then text_ltb s t else false

pub text_ltb_irrefl : (s : Text) → text_ltb s s ≡ false
unfolding text_ltb
text_ltb_irrefl [] = refl
text_ltb_irrefl (a ∷ s) = ground (arith, text_ltb_irrefl s)

pub text_ltb_trans :
    (r s t : Text) → text_ltb r s ≡ true → text_ltb s t ≡ true → text_ltb r t ≡ true
unfolding text_ltb
text_ltb_trans [] [] t h k = cc
text_ltb_trans [] (b ∷ s) [] h k = cc
text_ltb_trans [] (b ∷ s) (c ∷ t) h k = refl
text_ltb_trans (a ∷ r) [] t h k = cc
text_ltb_trans (a ∷ r) (b ∷ s) [] h k = cc
text_ltb_trans (a ∷ r) (b ∷ s) (c ∷ t) h k = ground (arith, text_ltb_trans r s t)

pub text_ltb-total : (s t : Text) → text_ltb s t ≡ false → text_ltb t s ≡ false → s ≡ t
unfolding text_ltb
text_ltb-total [] [] h k = refl
text_ltb-total [] (b ∷ t) h k = cc
text_ltb-total (a ∷ s) [] h k = cc
text_ltb-total (a ∷ s) (b ∷ t) h k = ground (arith, text_ltb-total s t)

-- strings.HasPrefix and strings.HasSuffix
unfoldable pub has_prefix : Text → Text → Bool
has_prefix s [] = true
has_prefix [] (b ∷ t) = false
has_prefix (a ∷ s) (b ∷ t) = if nat_eqb a b then has_prefix s t else false

unfoldable pub has_suffix : Text → Text → Bool
unfolding text_eqb
has_suffix [] t = text_eqb [] t
has_suffix (a ∷ s) t = text_eqb (a ∷ s) t || has_suffix s t

pub text_ltb-asym : (s t : Text) → text_ltb s t ≡ true → text_ltb t s ≡ false
text_ltb-asym s t h = elim (Bool-cases (text_ltb t s)) [
  | inl back ↦ absurd (ground (arith, text_ltb_trans s t s h back, text_ltb_irrefl s))
  | inr other ↦ other
]

pub text_ltb-cotrans :
    (r s t : Text) → text_ltb r t ≡ true → text_ltb r s ≡ false → text_ltb s t ≡ true
text_ltb-cotrans r s t h k = elim (Bool-cases (text_ltb s r)) [
  | inl below ↦ text_ltb_trans s r t below h
  | inr same ↦ rw (← text_ltb-total r s k same) h
]

pub text_ltb-connected : (s t : Text) → s ≢ t → (text_ltb s t ≡ true) ⊎ (text_ltb t s ≡ true)
text_ltb-connected s t ne = elim (Bool-cases (text_ltb s t)) [
  | inl below ↦ inl below
  | inr notbelow ↦ elim (Bool-cases (text_ltb t s)) [
    | inl above ↦ inr above
    | inr notabove ↦ absurd (ne (text_ltb-total s t notbelow notabove))
  ]
]
