-- ===== src/Cors.antt =====
-- framework/web/cors.go: the CORS filter. regexp.Compile is a parameter; the headers of a response
-- are a map, and `next` tells whether the request goes on to the handler. The headers that
-- http.Error sets on the answer 500 are left out.
pub mod Headers
pub mod Credentials
mod Tests
use springo.Base.{
  ℕ, ◌+◌, ◌/◌, ◌%◌, suc, zero, Bool, true, false, List, [], ◌∷◌, ◌++◌, Option, none, some, Text,
  ◌==◌, text_key, nat_key, ltb, codes, lookup, insert, any, if◌then◌else◌, ◌&&◌, ◌||◌, not, ℤ, pos,
  negsuc, length,
}

pub record CorsProperties : Type 0 where
  pub allowed_origins : List Text
  pub allowed_origin_patterns : List Text
  pub allowed_methods : List Text
  pub allowed_headers : List Text
  pub exposed_headers : List Text
  pub allow_credentials : Bool
  pub max_age : ℤ

-- What the package keeps: whether cacheOnce is done, configError and patternCache.
pub record CorsConfig : Type 0 where
  pub prepared : Bool
  pub config_error : Bool
  pub pattern_cache : List (Text → Bool)

pub record Reply : Type 0 where
  pub status : Option ℕ
  pub headers : List (Text × Text)
  pub next : Bool

abbrev pub star : Text
star = 42 ∷ []

unfoldable pub contains : List Text → Text → Bool
contains slice val = any (λ item. item == val) slice

-- validateCredentialsOrigin: whether there is an error.
unfoldable pub validate_credentials_origin : CorsProperties → Bool
validate_credentials_origin props =
    if not props.allow_credentials then false else any (λ o. o == star) props.allowed_origins

-- The two calls of strings.ReplaceAll.
unfoldable pub escape_pattern : Text → Text
escape_pattern [] = []
escape_pattern (c ∷ s) =
    let rest = escape_pattern s in
    if c == 46 then 92 ∷ 46 ∷ rest else if c == 42 then 46 ∷ 42 ∷ rest else c ∷ rest

unfoldable pub is_cors_disabled : Option Bool → Option CorsProperties → Bool
is_cors_disabled cors_enabled none = true
is_cors_disabled cors_enabled (some props) = elim cors_enabled [ none ↦ false | some on ↦ not on ]

unfoldable pub is_exact_origin_allowed : List Text → Bool → Text → Bool
is_exact_origin_allowed [] allow_credentials origin = false
is_exact_origin_allowed (o ∷ origins) allow_credentials origin =
    let rest = is_exact_origin_allowed origins allow_credentials origin in
    if (o == star) && not allow_credentials then true else if o == origin then true else rest

unfoldable pub is_pattern_origin_allowed : List (Text → Bool) → Text → Bool
is_pattern_origin_allowed patterns origin = any (λ re. re origin) patterns

unfoldable pub is_origin_allowed : CorsConfig → CorsProperties → Text → Bool
unfolding is_exact_origin_allowed is_pattern_origin_allowed
is_origin_allowed config props origin =
    if is_exact_origin_allowed props.allowed_origins props.allow_credentials origin
    then true
    else is_pattern_origin_allowed config.pattern_cache origin

abbrev pub allow_origin : Text
allow_origin = codes "Access-Control-Allow-Origin"

abbrev pub allow_credentials_header : Text
allow_credentials_header = codes "Access-Control-Allow-Credentials"

unfoldable pub apply_origin_headers :
    CorsProperties → Text → List (Text × Text) → List (Text × Text)
unfolding contains
apply_origin_headers props origin headers =
    if props.allow_credentials || not (contains props.allowed_origins star)
    then insert (codes "Vary") (codes "Origin") (insert allow_origin origin headers)
    else insert allow_origin star headers

-- strings.Join with a comma and a space.
unfoldable pub join : List Text → Text
join [] = []
join (s ∷ []) = s
join (s ∷ t ∷ ss) = s ++ 44 ∷ 32 ∷ join (t ∷ ss)

unfoldable pub apply_cors_headers : CorsProperties → Text → List (Text × Text) → List (Text × Text)
unfolding apply_origin_headers join
apply_cors_headers props origin headers =
    let h = apply_origin_headers props origin headers in
    let h' =
      if props.allow_credentials then insert allow_credentials_header (codes "true") h else h in
    if ltb 0 (length props.exposed_headers)
    then insert (codes "Access-Control-Expose-Headers") (join props.exposed_headers) h'
    else h'

-- The decimal digits of a number, on fuel; a number is enough fuel for itself.
unfoldable pub decimal : ℕ → ℕ → Text
decimal zero n = (48 + n) ∷ []
decimal (suc fuel) n = elim (ltb n 10) [
  | true ↦ (48 + n) ∷ []
  | false ↦ decimal fuel (n / 10) ++ (48 + n % 10) ∷ []
]

unfoldable pub apply_preflight_headers : CorsProperties → List (Text × Text) → List (Text × Text)
unfolding join decimal
apply_preflight_headers props headers =
    let h : List (Text × Text) =
      (if ltb 0 (length props.allowed_methods)
        then insert (codes "Access-Control-Allow-Methods") (join props.allowed_methods) headers
        else headers) in
    let h' : List (Text × Text) =
      (if ltb 0 (length props.allowed_headers)
        then insert (codes "Access-Control-Allow-Headers") (join props.allowed_headers) h
        else h) in
    elim props.max_age [
      | pos n ↦ if ltb 0 n then insert (codes "Access-Control-Max-Age") (decimal n n) h' else h'
      | negsuc _ ↦ h'
    ]

-- What the rest of the filter does with an allowed origin: a preflight ends here.
unfoldable pub handle_preflight : Text → CorsProperties → List (Text × Text) → Reply
unfolding apply_preflight_headers
handle_preflight method props headers =
    if method == codes "OPTIONS"
    then record { status = some 204; headers = apply_preflight_headers props headers; next = false }
    else record { status = none; headers = headers; next = true }

module _ (compile : Text → Option (Text → Bool)) where
  -- A pattern that does not compile is passed over.
  unfoldable pub compile_origin_patterns : List Text → List (Text → Bool)
  unfolding escape_pattern
  compile_origin_patterns [] = []
  compile_origin_patterns (pattern_ ∷ patterns) =
      let rest = compile_origin_patterns patterns in
      elim (compile (94 ∷ escape_pattern pattern_ ++ 36 ∷ [])) [ none ↦ rest | some re ↦ re ∷ rest ]

  unfoldable pub validate_and_prepare_config : CorsProperties → CorsConfig → CorsConfig
  unfolding validate_credentials_origin compile_origin_patterns
  validate_and_prepare_config props config =
      if config.prepared
      then config
      else if validate_credentials_origin props
      then record { prepared = true; config_error = true; pattern_cache = [] }
      else record {
        prepared = true;
        config_error = false;
        pattern_cache = compile_origin_patterns props.allowed_origin_patterns;
      }

  unfoldable pub cors_middleware :
      Option Bool
      → Option CorsProperties
      → Text
      → Text
      → List (Text × Text)
      → CorsConfig
      → Reply × CorsConfig
  unfolding is_cors_disabled validate_and_prepare_config is_origin_allowed apply_cors_headers
      handle_preflight
  cors_middleware cors_enabled none method origin headers config =
      (record { status = none; headers = headers; next = true }, config)
  cors_middleware cors_enabled (some props) method origin headers config =
      if is_cors_disabled cors_enabled (some props)
      then (record { status = none; headers = headers; next = true }, config)
      else (let config' = validate_and_prepare_config props config in
          if config'.config_error
          then (record { status = some 500; headers = headers; next = false }, config')
          else if (origin == []) || not (is_origin_allowed config' props origin)
          then (record { status = none; headers = headers; next = true }, config')
          else (handle_preflight method props (apply_cors_headers props origin headers), config'))
