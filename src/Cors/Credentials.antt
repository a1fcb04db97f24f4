-- ===== src/Cors/Credentials.antt =====
-- cors.go: the origins that credentials are allowed to.
use springo.Base.{
  ◌≡◌, refl, sym, ap, ◌∙◌, ◌⊎◌, inl, inr, Bool, true, false, List, [], ◌∷◌, Option, none, some,
  Text, ◌==◌, text_key, nat_key, lookup, any, if◌then◌else◌, ◌||◌, not, Bool-cases, arith,
}
use springo.Cors.{
  CorsProperties, CorsConfig, Reply, star, contains, validate_credentials_origin, is_cors_disabled,
  is_exact_origin_allowed, is_pattern_origin_allowed, is_origin_allowed, allow_origin,
  allow_credentials_header, apply_cors_headers, handle_preflight, compile_origin_patterns,
  validate_and_prepare_config, cors_middleware,
}
use springo.Cors.Headers.{
  allow_origin-IsOfOrigin, allow_credentials_header-IsOfOrigin, handle_preflight-lookup,
  apply_cors_headers-none, apply_cors_headers-origin,
}

-- Credentials are not allowed, or they are allowed to the origin of the request alone, which is
-- listed or matches a pattern, and no star is listed.
abbrev pub IsGuarded :
    (Text → Option (Text → Bool)) → CorsProperties → Text → List (Text × Text) → Type 0
IsGuarded compile props origin headers =
    (lookup allow_credentials_header headers ≡ none)
    ⊎ ((lookup allow_origin headers ≡ some origin)
        × ((contains props.allowed_origins origin
              || any (λ re. re origin)
                  (compile_origin_patterns compile props.allowed_origin_patterns))
            ≡ true)
        × (contains props.allowed_origins star ≡ false))

-- The package before the first request.
abbrev pub fresh : CorsConfig
fresh = record { prepared = false; config_error = false; pattern_cache = [] }

-- The package is not prepared yet, or was prepared from these properties.
abbrev pub IsFor : (Text → Option (Text → Bool)) → CorsProperties → CorsConfig → Type 0
IsFor compile props config =
    (config.prepared ≡ false) ⊎ (config ≡ validate_and_prepare_config compile props fresh)

exact_listed :
    (origins : List Text) (origin : Text)
    → is_exact_origin_allowed origins true origin ≡ contains origins origin
unfolding is_exact_origin_allowed contains
exact_listed [] origin = refl
exact_listed (o ∷ origins) origin = ground (arith, exact_listed origins origin)

validate_and_prepare_config-fresh :
    (compile : Text → Option (Text → Bool)) (props : CorsProperties) (config : CorsConfig)
    → IsFor compile props config
    → validate_and_prepare_config compile props config
      ≡ validate_and_prepare_config compile props fresh
unfolding validate_and_prepare_config
validate_and_prepare_config-fresh compile props config (inl new) = simp new refl
validate_and_prepare_config-fresh compile props config (inr done) =
    ap (validate_and_prepare_config compile props) done ∙ at (validate_credentials_origin props)
  where
    left : Bool → CorsConfig
    left b =
        if b then record { prepared = true; config_error = true; pattern_cache = [] } else record {
          prepared = true;
          config_error = false;
          pattern_cache = compile_origin_patterns compile props.allowed_origin_patterns;
        }

    at :
        (b : Bool)
        → (if (left b).prepared then left b else left (validate_credentials_origin props)) ≡ left b
    at true = refl
    at false = refl

-- Without an error the patterns are those of the properties.
patterns_ready :
    (compile : Text → Option (Text → Bool)) (props : CorsProperties)
    → (validate_and_prepare_config compile props fresh).config_error ≡ false
    → (validate_and_prepare_config compile props fresh).pattern_cache
      ≡ compile_origin_patterns compile props.allowed_origin_patterns
unfolding validate_and_prepare_config
patterns_ready compile props e = elim (Bool-cases (validate_credentials_origin props)) [
  | inl wrong ↦ absurd (ground (arith, rw wrong at e))
  | inr right ↦ rw right refl
]

-- Without an error no star is listed together with credentials.
no_star :
    (compile : Text → Option (Text → Bool)) (props : CorsProperties)
    → props.allow_credentials ≡ true
    → (validate_and_prepare_config compile props fresh).config_error ≡ false
    → contains props.allowed_origins star ≡ false
unfolding validate_and_prepare_config validate_credentials_origin contains
no_star compile props on e = elim (Bool-cases (validate_credentials_origin props)) [
  | inl wrong ↦ absurd (ground (arith, rw wrong at e))
  | inr right ↦ at props.allow_credentials on right
]
  where
    at :
        (b : Bool)
        → b ≡ true
        → (if not b then false else any (λ o. o == star) props.allowed_origins) ≡ false
        → any (λ o. o == star) props.allowed_origins ≡ false
    at true q right = right
    at false q right = absurd (ground arith)

is_origin_allowed-listed :
    (compile : Text → Option (Text → Bool)) (config : CorsConfig) (props : CorsProperties)
    (origin : Text)
    → config.pattern_cache ≡ compile_origin_patterns compile props.allowed_origin_patterns
    → props.allow_credentials ≡ true
    → is_origin_allowed config props origin ≡ true
    → (contains props.allowed_origins origin
        || any (λ re. re origin) (compile_origin_patterns compile props.allowed_origin_patterns))
      ≡ true
unfolding is_origin_allowed is_pattern_origin_allowed
is_origin_allowed-listed compile config props origin ready on allowed =
    either (contains props.allowed_origins origin) (any (λ re. re origin) patterns) (
      ap (λ b. if b then true else any (λ re. re origin) patterns)
        (sym (exact_listed props.allowed_origins origin))
      ∙ ap
          (λ b.
            if is_exact_origin_allowed props.allowed_origins b origin
            then true
            else any (λ re. re origin) patterns)
          (sym on)
      ∙ ap
          (λ l.
            if is_exact_origin_allowed props.allowed_origins props.allow_credentials origin
            then true
            else any (λ re. re origin) l)
          (sym ready)
      ∙ allowed)
  where
    patterns : List (Text → Bool)
    patterns = compile_origin_patterns compile props.allowed_origin_patterns

    either : (b c : Bool) → (if b then true else c) ≡ true → (b || c) ≡ true
    either true c e = refl
    either false c e = e

-- A response without the header of credentials gets it only together with the request's own origin
-- as the one allowed, where that is listed or matches a configured pattern, and where no star is
-- among the listed origins. The package is not prepared yet, or was prepared from these properties.
pub cors_middleware-IsGuarded :
    (compile : Text → Option (Text → Bool)) (cors_enabled : Option Bool) (props : CorsProperties)
    (method origin : Text) (headers : List (Text × Text)) (config : CorsConfig)
    → IsFor compile props config
    → lookup allow_credentials_header headers ≡ none
    → IsGuarded compile props origin
        (cors_middleware compile cors_enabled (some props) method origin headers config).0.headers
unfolding cors_middleware
cors_middleware-IsGuarded compile cors_enabled props method origin headers config is_for absent =
    at (is_cors_disabled cors_enabled (some props)) ready.config_error refl
      ((origin == []) || not (is_origin_allowed ready props origin)) refl
  where
    ready : CorsConfig
    ready = validate_and_prepare_config compile props config

    same : ready ≡ validate_and_prepare_config compile props fresh
    same = validate_and_prepare_config-fresh compile props config is_for

    passed : Bool → Bool → (b : Bool) → Reply × CorsConfig
    passed disabled wrong refused =
        if disabled
        then (record { status = none; headers = headers; next = true }, config)
        else if wrong
        then (record { status = some 500; headers = headers; next = false }, ready)
        else if refused
        then (record { status = none; headers = headers; next = true }, ready)
        else (handle_preflight method props (apply_cors_headers props origin headers), ready)

    served :
        is_origin_allowed ready props origin ≡ true
        → ready.config_error ≡ false
        → IsGuarded compile props origin
            (handle_preflight method props (apply_cors_headers props origin headers)).headers
    served allowed right = elim (Bool-cases props.allow_credentials) [
      | inl on ↦ inr (
        handle_preflight-lookup allow_origin method props _ allow_origin-IsOfOrigin
            ∙ apply_cors_headers-origin props origin headers on,
        is_origin_allowed-listed compile ready props origin
            (ap (λ r. r.pattern_cache) same
              ∙ patterns_ready compile props (sym (ap (λ r. r.config_error) same) ∙ right))
            on allowed,
        no_star compile props on (sym (ap (λ r. r.config_error) same) ∙ right),
      )
      | inr off ↦ inl (
          handle_preflight-lookup allow_credentials_header method props _
            allow_credentials_header-IsOfOrigin
          ∙ apply_cors_headers-none props origin headers off absent)
    ]

    taken : (a b : Bool) → (a || not b) ≡ false → b ≡ true
    taken true b e = absurd (ground arith)
    taken false true e = refl
    taken false false e = absurd (ground arith)

    at :
        (disabled wrong : Bool)
        → ready.config_error ≡ wrong
        → (refused : Bool)
        → ((origin == []) || not (is_origin_allowed ready props origin)) ≡ refused
        → IsGuarded compile props origin (passed disabled wrong refused).0.headers
    at true wrong w refused f = inl absent
    at false true w refused f = inl absent
    at false false w true f = inl absent
    at false false w false f =
        served (taken (origin == []) (is_origin_allowed ready props origin) f) w
