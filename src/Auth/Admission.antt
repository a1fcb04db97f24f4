-- ===== src/Auth/Admission.antt =====
-- security_middleware.go: who gets past the filter.
use springo.Base.{
  ◌≡◌, refl, Bool, true, false, List, [], ◌∷◌, ◌++◌, All, Option-cases, inl, inr, arith, Option,
  none, some, Text, text_key, if◌then◌else◌, ◌||◌, subst,
}
use springo.PublicPaths.{is_public_path}
use springo.Auth.Claims.{Fields}
use springo.Auth.Validators.{ValidationError}
use springo.Auth.Serving.{
  SigningKey, TokenHeader, resolve_key, Parse, expected_alg_of, validate_token, TokenValidator,
  validate, validate_claims, SecurityConfig, header_error, invalid_token, validation_error,
  extract_token, Authentication, authenticated, unauthorized, build_authenticated_context,
  authenticate_request, Served, passes, passes_as, rejects, is_actuator_path, serve_authenticated,
}
use springo.Auth.Keys.{IsKeyOf, OfKey, resolve_key-OfKey}

-- What golang-jwt documents of Parse: a token that it accepts verifies under the key that was given
-- for its header.
pub record JwtLibrary : Type 0 where
  pub parse : Parse
  pub header_of : Text → TokenHeader
  pub verifies : SigningKey → Text → Bool
  pub parse_sound :
      (key_of : TokenHeader → Option SigningKey) (alg token : Text) (claims : Fields)
      → parse key_of alg token ≡ some claims
      → (key : SigningKey) × (key_of (header_of token) ≡ some key) × (verifies key token ≡ true)

-- No validator finds an error where none is reported.
validate_claims-All :
    (vs : List TokenValidator) (claims : Fields)
    → validate_claims vs claims ≡ none
    → All (λ v. validate v claims ≡ none) vs
unfolding validate_claims
validate_claims-All [] claims e = tt
validate_claims-All (v ∷ vs) claims e = elim (Option-cases (validate v claims)) [
  | inl valid ↦ (valid, validate_claims-All vs claims (ground arith))
  | inr (wrong, found) ↦ absurd (ground arith)
]

-- A context that is given is made from the bearer token of the header, which verifies under a key of
-- the provider for the token's header and passes each validator.
abbrev pub IsAuthentic :
    JwtLibrary → SecurityConfig → List TokenValidator → Text → Authentication → Type 0
IsAuthentic lib cfg registered auth_header (unauthorized e) = Unit
IsAuthentic lib cfg registered auth_header (authenticated context) =
    (extract_token auth_header ≡ some context.token)
    × ((key : SigningKey) × IsKeyOf cfg.provider (lib.header_of context.token) key
        × (lib.verifies key context.token ≡ true))
    × All (λ v. validate v context.claims ≡ none) (cfg.validators ++ registered)

abbrev pub IsAdmitted :
    JwtLibrary → SecurityConfig → List TokenValidator → Text → Text → Served → Type 0
IsAdmitted lib cfg registered path auth_header passes =
    (is_actuator_path path || is_public_path path cfg.public_paths) ≡ true
IsAdmitted lib cfg registered path auth_header (rejects e) = Unit
IsAdmitted lib cfg registered path auth_header (passes_as context) =
    IsAuthentic lib cfg registered auth_header (authenticated context)

module _ (lib : JwtLibrary) (cfg : SecurityConfig) (registered : List TokenValidator) where
  abbrev key_of : TokenHeader → Option SigningKey
  key_of = resolve_key cfg.provider (expected_alg_of cfg.provider)

  -- A token that is accepted verifies under a key of the provider.
  validate_token-IsKeyOf :
      (token : Text) (claims : Fields)
      → validate_token lib.parse cfg.provider token ≡ some claims
      → (key : SigningKey) × IsKeyOf cfg.provider (lib.header_of token) key
        × (lib.verifies key token ≡ true)
  unfolding validate_token
  validate_token-IsKeyOf token claims e =
      let (key, given, verified) =
        lib.parse_sound key_of (expected_alg_of cfg.provider) token claims e in
      (
        key,
        subst (OfKey cfg.provider (lib.header_of token)) given
            (resolve_key-OfKey cfg.provider (lib.header_of token)),
        verified,
      )

  -- The end of authenticateRequest, for the claims of a token.
  abbrev after_claims : Text → Option Fields → Authentication
  after_claims token o = elim o as (λ _. Authentication) [
    | none ↦ unauthorized invalid_token
    | some claims ↦
        elim (validate_claims (cfg.validators ++ registered) claims) as (λ _. Authentication) [
          | some e ↦ unauthorized (validation_error e)
          | none ↦ authenticated (build_authenticated_context cfg claims token)
        ]
  ]

  after_claims-IsAuthentic :
      (auth_header token : Text) (o : Option Fields)
      → extract_token auth_header ≡ some token
      → validate_token lib.parse cfg.provider token ≡ o
      → IsAuthentic lib cfg registered auth_header (after_claims token o)
  unfolding build_authenticated_context
  after_claims-IsAuthentic auth_header token none t p = tt
  after_claims-IsAuthentic auth_header token (some claims) t p =
      at (validate_claims (cfg.validators ++ registered) claims) refl
    where
      at :
          (o : Option ValidationError)
          → validate_claims (cfg.validators ++ registered) claims ≡ o
          → IsAuthentic lib cfg registered auth_header (elim o as (λ _. Authentication) [
            | some e ↦ unauthorized (validation_error e)
            | none ↦ authenticated (build_authenticated_context cfg claims token)
          ])
      at (some e) v = tt
      at none v = (
        t,
        validate_token-IsKeyOf token claims p,
        validate_claims-All (cfg.validators ++ registered) claims v,
      )

  authenticate_request-IsAuthentic :
      (auth_header : Text)
      → IsAuthentic lib cfg registered auth_header
          (authenticate_request lib.parse cfg registered auth_header)
  unfolding authenticate_request
  authenticate_request-IsAuthentic auth_header = at (extract_token auth_header) refl
    where
      at :
          (o : Option Text)
          → extract_token auth_header ≡ o
          → IsAuthentic lib cfg registered auth_header (elim o as (λ _. Authentication) [
            | none ↦ unauthorized header_error
            | some token ↦ after_claims token (validate_token lib.parse cfg.provider token)
          ])
      at none t = tt
      at (some token) t =
          after_claims-IsAuthentic auth_header token (validate_token lib.parse cfg.provider token) t
            refl

-- A path that is neither the actuator's nor public reaches the handler only with a bearer token that
-- verifies under a key of the provider and passes every validator: under the secret, which is not
-- empty, or under the RSA key that the provider has for the token's header, as the configured
-- algorithm has it.
pub serve_authenticated-IsAdmitted :
    (lib : JwtLibrary) (cfg : SecurityConfig) (registered : List TokenValidator)
    (path auth_header : Text)
    → IsAdmitted lib cfg registered path auth_header
        (serve_authenticated lib.parse cfg registered path auth_header)
unfolding serve_authenticated
serve_authenticated-IsAdmitted lib cfg registered path auth_header =
    at (is_actuator_path path || is_public_path path cfg.public_paths) refl
  where
    served : Authentication → Served
    served a = elim a as (λ _. Served) [
      | unauthorized e ↦ rejects e
      | authenticated context ↦ passes_as context
    ]

    checked :
        (a : Authentication)
        → IsAuthentic lib cfg registered auth_header a
        → IsAdmitted lib cfg registered path auth_header (served a)
    checked (unauthorized e) h = tt
    checked (authenticated context) h = h

    at :
        (b : Bool)
        → (is_actuator_path path || is_public_path path cfg.public_paths) ≡ b
        → IsAdmitted lib cfg registered path auth_header (
            if b
            then passes
            else served (authenticate_request lib.parse cfg registered auth_header))
    at true e = e
    at false e =
        checked (authenticate_request lib.parse cfg registered auth_header)
          (authenticate_request-IsAuthentic lib cfg registered auth_header)
