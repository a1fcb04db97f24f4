-- ===== src/Interceptor/Patterns.antt =====
-- interceptor.go: matchParts decides what the patterns say.
use springo.Base.{◌≡◌, ◌≢◌, ◌⊎◌, ◌↔◌, true, List, [], ◌∷◌, ◌++◌, Text, codes, text_key}
use springo.Interceptor.{match_single_segment, match_parts}

-- What a pattern means: `**` stands for any number of segments, none included, and every other part
-- for one segment.
abbrev pub Matches : List Text → List Text → Type 0
Matches [] xs = xs ≡ []
Matches (p ∷ ps) xs =
    ((p ≡ codes "**")
      × ((skipped : List Text) × (rest : List Text) × (xs ≡ skipped ++ rest) × Matches ps rest))
    ⊎ ((p ≢ codes "**")
        × ((x : Text) × (rest : List Text) × (xs ≡ x ∷ rest)
            × (match_single_segment p x ≡ true)
            × Matches ps rest))

-- The tests of the two kinds of a first part, for patterns behind it that are decided.
module _ (ps : List Text)
    (rest_iff : (xs : List Text) → (match_parts ps xs ≡ true) ↔ Matches ps xs) where
  abbrev StarMatches : List Text → Type 0
  StarMatches xs =
      (skipped : List Text) × (rest : List Text) × (xs ≡ skipped ++ rest) × Matches ps rest

  abbrev SegmentMatches : Text → List Text → Type 0
  SegmentMatches p xs =
      (x : Text) × (rest : List Text) × (xs ≡ x ∷ rest)
      × (match_single_segment p x ≡ true)
      × Matches ps rest
