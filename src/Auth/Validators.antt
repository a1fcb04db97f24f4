-- ===== src/Auth/Validators.antt =====
-- framework/security/validators.go: the issuer and the audience of a token.
use springo.Base.{
  Bool, true, false, List, [], ◌∷◌, Option, none, some, Text, ◌==◌, text_key, nat_key, codes, any,
  if◌then◌else◌, ◌&&◌, ◌||◌, not, leb, length,
}
use springo.Auth.Claims.{
  Json, Items, Fields, null, str, strs, arr, no_items, item, claim, exists_claim,
}

pub data ValidationError : Type 0 where
  missing_claim mismatch : Text → ValidationError

-- strings.TrimRight(s, "/").
unfoldable pub trim_right_slashes : Text → Text
trim_right_slashes [] = []
trim_right_slashes (c ∷ s) =
    let rest = trim_right_slashes s in if (c == 47) && (rest == []) then [] else c ∷ rest

-- strings.TrimSpace(s) == "", for white space that is ASCII.
unfoldable pub is_blank : Text → Bool
is_blank [] = true
is_blank (c ∷ s) = let rest = is_blank s in ((c == 32) || (leb 9 c && leb c 13)) && rest

unfoldable pub validate_issuer : Text → Fields → Option ValidationError
unfolding trim_right_slashes is_blank claim exists_claim
validate_issuer expected claims =
    if is_blank expected
    then none
    else if not (exists_claim (codes "iss") claims)
    then some (missing_claim (codes "iss"))
    else elim (claim (codes "iss") claims) [
      | str issuer ↦
          if trim_right_slashes issuer == trim_right_slashes expected
          then none
          else some (mismatch (codes "iss"))
      | _ ↦ some (mismatch (codes "iss"))
    ]

unfoldable pub match_any_slice_in_set : Items → List Text → Bool
match_any_slice_in_set no_items allowed = false
match_any_slice_in_set (item v items) allowed =
    let rest = match_any_slice_in_set items allowed in
    elim v [ str s ↦ if any (λ a. a == s) allowed then true else rest | _ ↦ rest ]

unfoldable pub match_string_slice_in_set : List Text → List Text → Bool
match_string_slice_in_set ss allowed = any (λ s. any (λ a. a == s) allowed) ss

unfoldable pub match_audience_claim : Json → List Text → Bool
unfolding match_any_slice_in_set match_string_slice_in_set
match_audience_claim aud allowed = elim aud [
  | str s ↦ any (λ a. a == s) allowed
  | strs ss ↦ match_string_slice_in_set ss allowed
  | arr items ↦ match_any_slice_in_set items allowed
  | _ ↦ false
]

unfoldable pub match_azp_claim : Json → List Text → Bool
match_azp_claim azp allowed = elim azp [ str s ↦ any (λ a. a == s) allowed | _ ↦ false ]

-- One half of the audience's check: nothing is asked where the list is empty.
unfoldable pub validate_listed :
    Text → List Text → (Json → List Text → Bool) → Fields → Option ValidationError
unfolding claim
validate_listed name allowed matches claims =
    if length allowed == 0 then none else elim (claim name claims) [
      | null ↦ some (missing_claim name)
      | value ↦ if matches value allowed then none else some (mismatch name)
    ]

pub record AudienceValidator : Type 0 where
  pub allowed_audiences : List Text
  pub allowed_authorized_parties : List Text

unfoldable pub validate_audience : AudienceValidator → Fields → Option ValidationError
unfolding validate_listed match_audience_claim match_azp_claim
validate_audience v claims =
    elim (validate_listed (codes "aud") v.allowed_audiences match_audience_claim claims) [
      | some e ↦ some e
      | none ↦ validate_listed (codes "azp") v.allowed_authorized_parties match_azp_claim claims
    ]
