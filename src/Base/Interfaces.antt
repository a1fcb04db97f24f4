-- ===== src/Base/Interfaces.antt =====
-- What a Go map asks of its keys: a test that decides whether two of them are the same.
use Prim.Native.Nat.{ℕ}
use mathlib.Core.Path.{◌≡◌, refl}
use mathlib.Core.Logic.{◌≢◌, ◌↔◌, inl, inr}
use mathlib.Core.Bool.{Bool, true, false}
use springo.Base.Tests.{nat_eqb, nat_eqb_iff, Bool-cases}

pub record Key {κ} (K : Type κ) : Type κ where
  pub agrees : K → K → Bool
  pub agrees_iff : (j k : K) → (agrees j k ≡ true) ↔ (j ≡ k)

instance abbrev pub nat_key : Key ℕ
nat_key = record { agrees = nat_eqb; agrees_iff = nat_eqb_iff }

infix 50 ◌==◌
abbrev pub ◌==◌ {κ} : {K : Type κ} → ⦃key : Key K⦄ → K → K → Bool
◌==◌ ⦃key⦄ j k = key.agrees j k

module _ {κ} {K : Type κ} ⦃key : Key K⦄ where
  pub ==_refl : (k : K) → (k == k) ≡ true
  ==_refl k = (key.agrees_iff k k).1 refl

  pub ==_ne : (j k : K) → j ≢ k → (j == k) ≡ false
  ==_ne j k ne = elim (Bool-cases (j == k)) [
    | inl same ↦ absurd (ne ((key.agrees_iff j k).0 same))
    | inr apart ↦ apart
  ]
