-- ===== src/PublicPaths.antt =====
-- framework/web/security_middleware.go: the paths that the security filters let through unchecked.
use springo.Base.{
  ◌-◌, Bool, true, List, [], ◌∷◌, ◌++◌, Text, codes, ◌==◌, text_key, nat_eqb, ltb, length, take,
  any, has_prefix, has_suffix, if◌then◌else◌, ◌||◌, ◌&&◌, not,
}

-- strings.TrimSuffix, for a suffix that is there.
abbrev pub trim_suffix : Text → Text → Text
trim_suffix s suffix = take (length s - length suffix) s

unfoldable pub normalize_path : Text → Text
normalize_path path =
    if ltb 1 (length path) && has_suffix path (codes "/")
    then trim_suffix path (codes "/")
    else path

unfoldable pub match_double_wildcard : Text → Text → Bool
match_double_wildcard cur pattern =
    let base = trim_suffix pattern (codes "/**") in
    base == [] || base == codes "/" || cur == base || has_prefix cur (base ++ codes "/")

-- Whether strings.Split(strings.TrimPrefix(cur, "/"), "/") has one part.
abbrev is_single_part : Text → Bool
is_single_part [] = true
is_single_part (c ∷ s) =
    if nat_eqb c 47 then not (any (λ d. nat_eqb d 47) s) else not (any (λ d. nat_eqb d 47) (c ∷ s))

unfoldable pub match_single_wildcard : Text → Text → Bool
match_single_wildcard cur pattern =
    let base = trim_suffix pattern (codes "/*") in
    if base == [] || base == codes "/"
    then is_single_part cur
    else has_prefix cur (base ++ codes "/")

unfoldable pub match_wildcard_path : Text → Text → Bool
unfolding match_double_wildcard match_single_wildcard
match_wildcard_path cur pattern =
    if pattern == codes "/"
    then cur == codes "/"
    else if has_suffix pattern (codes "/**")
    then match_double_wildcard cur pattern
    else if has_suffix pattern (codes "/*")
    then match_single_wildcard cur pattern
    else cur == pattern || has_prefix cur (pattern ++ codes "/")

unfoldable pub is_public_path : Text → List Text → Bool
unfolding normalize_path match_wildcard_path
is_public_path current_path public_paths =
    let cur = normalize_path current_path in
    any (λ path. match_wildcard_path cur (normalize_path path)) public_paths
