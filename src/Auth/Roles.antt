-- ===== src/Auth/Roles.antt =====
-- jwt_provider.go: the roles that a handler sees.
use springo.Base.{
  ◌≡◌, ◌≢◌, refl, inl, inr, Bool, true, false, List, [], ◌∷◌, ◌++◌, Text, ◌==◌, text_key,
  text_eqb_iff, any, if◌then◌else◌, has_prefix, text_eqb, All, Bool-cases, arith,
}
use springo.Base.Sorting.Laws.{All-imp}
use springo.Auth.Claims.{
  Fields, format_role_item, format_roles_from, format_roles_with_prefix, extract_roles,
}

has_prefix-append : (prefix s : Text) → has_prefix (prefix ++ s) prefix ≡ true
unfolding has_prefix
has_prefix-append [] s = refl
has_prefix-append (c ∷ prefix) s = ground (arith, has_prefix-append prefix s)

format_role_item-prefix : (r prefix : Text) → has_prefix (format_role_item r prefix) prefix ≡ true
unfolding format_role_item has_prefix text_eqb
format_role_item-prefix r [] = refl
format_role_item-prefix r (c ∷ prefix) = elim (Bool-cases (has_prefix r (c ∷ prefix))) [
  | inl there ↦ rw there there
  | inr absent ↦ rw absent (has_prefix-append (c ∷ prefix) r)
]

-- No role stands twice.
abbrev pub Distinct : List Text → Type 0
Distinct [] = Unit
Distinct (r ∷ roles) = All (λ s. r ≢ s) roles × Distinct roles

-- The roles begin with the prefix, are told apart, and none was seen before.
abbrev pub IsFormatted : Text → List Text → List Text → Type 0
IsFormatted prefix seen roles =
    All (λ r. has_prefix r prefix ≡ true) roles
    × Distinct roles
    × All (λ r. any (λ s. s == r) seen ≡ false) roles

if_false : (b c : Bool) → (if b then true else c) ≡ false → (b ≡ false) × (c ≡ false)
if_false true c e = absurd (ground arith)
if_false false c e = (refl, e)

differs : (r s : Text) → r == s ≡ false → r ≢ s
differs r s e same = ground (arith, text_eqb_iff r s)

format_roles_from-IsFormatted :
    (prefix : Text) (seen roles : List Text)
    → IsFormatted prefix seen (format_roles_from prefix seen roles)
unfolding format_roles_from
format_roles_from-IsFormatted prefix seen [] = (tt, tt, tt)
format_roles_from-IsFormatted prefix seen (r ∷ roles) =
    elim (Bool-cases (any (λ s. s == role) seen)) [
      | inl known ↦ rw known (format_roles_from-IsFormatted prefix seen roles)
      | inr new ↦
          let (prefixed, distinct, unseen) =
            format_roles_from-IsFormatted prefix (role ∷ seen) roles in
          rw new (
            (format_role_item-prefix r prefix, prefixed),
            (
              All-imp (λ s h e. differs role s (if_false (role == s) _ h).0 e)
                  (format_roles_from prefix (role ∷ seen) roles) unseen,
              distinct,
            ),
            (
              new,
              All-imp (λ s h. (if_false (role == s) _ h).1)
                  (format_roles_from prefix (role ∷ seen) roles) unseen,
            ),
          )
    ]
  where
    role : Text
    role = format_role_item r prefix

-- Each role begins with the configured prefix, and none stands twice, whatever the claims hold.
pub extract_roles-IsFormatted :
    (claims : Fields) (authorities_claim resource_id prefix : Text)
    → IsFormatted prefix [] (extract_roles claims authorities_claim resource_id prefix)
unfolding extract_roles format_roles_with_prefix
extract_roles-IsFormatted claims authorities_claim resource_id prefix =
    format_roles_from-IsFormatted prefix [] _
