-- ===== src/Migration/Versions.antt =====
-- migration_version.go: the order of migrations by the version in their names. A part of a version
-- is an int64, kept by its residue modulo 2 ^ 64.
use springo.Base.{
  ℕ, ◌+◌, ◌-◌, ◌*◌, ◌%◌, ◌^◌, Bool, true, false, List, [], ◌∷◌, Option, none, some, Text, ◌==◌,
  nat_key, ltb, leb, text_ltb, if◌then◌else◌, ◌&&◌, ◌||◌, not,
}

unfoldable pub is_digit : ℕ → Bool
is_digit c = leb 48 c && leb c 57

unfoldable pub is_separator : ℕ → Bool
is_separator c = (c == 46) || (c == 95)

unfoldable pub starts_with_digit : Text → Bool
unfolding is_digit
starts_with_digit [] = false
starts_with_digit (c ∷ s) = is_digit c

-- `\d+(?:[\._]\d+)*` from a digit on.
unfoldable pub version_text : Text → Text
unfolding is_digit is_separator starts_with_digit
version_text [] = []
version_text (c ∷ s) =
    let rest = version_text s in
    if is_digit c || (is_separator c && starts_with_digit s) then c ∷ rest else []

-- `^(?:[vV])?`.
unfoldable pub without_v : Text → Text
without_v [] = []
without_v (c ∷ s) = if (c == 118) || (c == 86) then s else c ∷ s

-- versionRegex.FindStringSubmatch: the group of the version.
unfoldable pub find_version : Text → Option Text
unfolding without_v version_text starts_with_digit
find_version s =
    let s' = without_v s in if starts_with_digit s' then some (version_text s') else none

-- The loop of parseNumericParts, with `current` and `hasDigit`.
unfoldable pub parts_from : ℕ → Bool → Text → List ℕ
unfolding is_digit is_separator
parts_from current has_digit [] = if has_digit then current ∷ [] else []
parts_from current has_digit (c ∷ s) =
    let ends = not (is_digit c) && is_separator c && has_digit in
    let current' =
      if is_digit c then (current * 10 + (c - 48)) % 2 ^ 64 else if ends then 0 else current in
    let has_digit' = if is_digit c then true else if ends then false else has_digit in
    let rest = parts_from current' has_digit' s in if ends then current ∷ rest else rest

unfoldable pub parse_numeric_parts : Text → List ℕ
unfolding parts_from
parse_numeric_parts s = parts_from 0 false s

-- `<` of int64.
unfoldable pub int64_ltb : ℕ → ℕ → Bool
int64_ltb a b = ltb ((a + 2 ^ 63) % 2 ^ 64) ((b + 2 ^ 63) % 2 ^ 64)

-- The loop over the parts and the test of their numbers; nothing where the parts are the same.
unfoldable pub compare_parts : List ℕ → List ℕ → Option Bool
unfolding int64_ltb
compare_parts [] [] = none
compare_parts [] (b ∷ ys) = some true
compare_parts (a ∷ xs) [] = some false
compare_parts (a ∷ xs) (b ∷ ys) =
    let rest = compare_parts xs ys in if a == b then rest else some (int64_ltb a b)

unfoldable pub compare_migration_names : Text → Text → Bool
unfolding find_version parse_numeric_parts compare_parts
compare_migration_names a b = elim (find_version a) [
  | none ↦ text_ltb a b
  | some version_a ↦ elim (find_version b) [
    | none ↦ text_ltb a b
    | some version_b ↦
        elim (compare_parts (parse_numeric_parts version_a) (parse_numeric_parts version_b)) [
          | none ↦ text_ltb a b
          | some less ↦ less
        ]
  ]
]

unfoldable pub is_version_lte : Text → Text → Bool
unfolding compare_migration_names
is_version_lte name version = not (compare_migration_names version name)
