-- ===== src/Auth/Serving.antt =====
-- jwt_provider.go and security_middleware.go: the key of a token, the check of a request, and the
-- handler behind it. jwt.Parse is a parameter.
use springo.Base.{
  ℕ, Bool, List, [], ◌∷◌, ◌++◌, Option, none, some, Text, ◌==◌, text_key, nat_key, codes,
  if◌then◌else◌, ◌||◌, not, has_prefix, has_suffix,
}
use springo.PublicPaths.{is_public_path, trim_suffix}
use springo.Auth.Claims.{Json, Fields, extract_principal, extract_roles}
use springo.Auth.Validators.{ValidationError, AudienceValidator, validate_issuer, validate_audience}

pub data SigningKey : Type 0 where
  secret_key : Text → SigningKey
  rsa_key : ℕ → SigningKey

pub data SigningMethod : Type 0 where
  hmac rsa other_method : SigningMethod

-- The parts of a token's header that are read; none where there is no such string.
pub record TokenHeader : Type 0 where
  pub alg : Option Text
  pub kid : Option Text
  pub method : SigningMethod

-- GetPublicKey of the JWKS client is a function of the provider.
pub record JwtProvider : Type 0 where
  pub secret : Text
  pub algorithm : Text
  pub jwks : Option (Text → Option ℕ)
  pub public_key : Option ℕ

unfoldable pub resolve_symmetric_key : JwtProvider → TokenHeader → Option SigningKey
resolve_symmetric_key p h = elim h.method [
  | hmac ↦ if p.secret == [] then none else some (secret_key p.secret)
  | rsa ↦ none
  | other_method ↦ none
]

unfoldable pub resolve_jwks_key : (Text → Option ℕ) → TokenHeader → Option SigningKey
resolve_jwks_key get_public_key h = elim h.kid [
  | none ↦ none
  | some kid ↦ elim (get_public_key kid) [ none ↦ none | some key ↦ some (rsa_key key) ]
]

unfoldable pub resolve_asymmetric_key : JwtProvider → TokenHeader → Option SigningKey
unfolding resolve_jwks_key
resolve_asymmetric_key p h = elim h.method [
  | hmac ↦ none
  | other_method ↦ none
  | rsa ↦ elim p.jwks [
    | some get_public_key ↦ resolve_jwks_key get_public_key h
    | none ↦ elim p.public_key [ some key ↦ some (rsa_key key) | none ↦ none ]
  ]
]

unfoldable pub resolve_key : JwtProvider → Text → TokenHeader → Option SigningKey
unfolding resolve_symmetric_key resolve_asymmetric_key
resolve_key p expected_alg h = elim h.alg [
  | none ↦ none
  | some alg ↦
      if not (alg == expected_alg)
      then none
      else if has_prefix alg (codes "RS")
      then resolve_asymmetric_key p h
      else resolve_symmetric_key p h
]

-- jwt.Parse with the valid method and the required expiration: the claims of a token that is valid.
abbrev pub Parse : Type 0
Parse = (TokenHeader → Option SigningKey) → Text → Text → Option Fields

abbrev pub expected_alg_of : JwtProvider → Text
expected_alg_of p = if p.algorithm == [] then codes "HS256" else p.algorithm

unfoldable pub validate_token : Parse → JwtProvider → Text → Option Fields
unfolding resolve_key
validate_token parse p token = parse (resolve_key p (expected_alg_of p)) (expected_alg_of p) token

-- A built-in or registered validator.
pub data TokenValidator : Type 0 where
  issuer_validator : Text → TokenValidator
  audience_validator : AudienceValidator → TokenValidator
  custom : (Fields → Option ValidationError) → TokenValidator

unfoldable pub validate : TokenValidator → Fields → Option ValidationError
unfolding validate_issuer validate_audience
validate (issuer_validator expected) claims = validate_issuer expected claims
validate (audience_validator v) claims = validate_audience v claims
validate (custom check) claims = check claims

-- One of the loops of validateClaims.
unfoldable pub validate_claims : List TokenValidator → Fields → Option ValidationError
unfolding validate
validate_claims [] claims = none
validate_claims (v ∷ vs) claims =
    let rest = validate_claims vs claims in
    elim (validate v claims) [ some e ↦ some e | none ↦ rest ]

pub record SecurityConfig : Type 0 where
  pub enabled : Bool
  pub public_paths : List Text
  pub principal_claim : Text
  pub authorities_claim : Text
  pub resource_id : Text
  pub authority_prefix : Text
  pub provider : JwtProvider
  pub validators : List TokenValidator

pub data AuthError : Type 0 where
  header_error invalid_token : AuthError
  validation_error : ValidationError → AuthError

-- The security context that the handler is given.
pub record SecurityContext : Type 0 where
  pub subject : Text
  pub roles : List Text
  pub claims : Fields
  pub token : Text

-- strings.Split(s, " ").
unfoldable pub split_spaces : Text → List Text
split_spaces [] = [] ∷ []
split_spaces (c ∷ s) =
    let rest = split_spaces s in
    if c == 32
    then [] ∷ rest
    else (elim rest [ [] ↦ (c ∷ []) ∷ [] | part ∷ parts ↦ (c ∷ part) ∷ parts ])

-- extractToken; a missing header is the empty text.
unfoldable pub extract_token : Text → Option Text
unfolding split_spaces
extract_token auth_header = if auth_header == [] then none else (elim (split_spaces auth_header) [
  | scheme ∷ token ∷ [] ↦ if scheme == codes "Bearer" then some token else none
  | _ ↦ none
])

pub data Authentication : Type 0 where
  authenticated : SecurityContext → Authentication
  unauthorized : AuthError → Authentication

unfoldable pub build_authenticated_context : SecurityConfig → Fields → Text → SecurityContext
unfolding extract_principal extract_roles
build_authenticated_context cfg claims token = record {
  subject = extract_principal claims cfg.principal_claim;
  roles = extract_roles claims cfg.authorities_claim cfg.resource_id cfg.authority_prefix;
  claims = claims;
  token = token;
}

-- `registered` are the validators of RegisterTokenValidator.
unfoldable pub authenticate_request :
    Parse → SecurityConfig → List TokenValidator → Text → Authentication
unfolding extract_token validate_token validate_claims build_authenticated_context
authenticate_request parse cfg registered auth_header = elim (extract_token auth_header) [
  | none ↦ unauthorized header_error
  | some token ↦ elim (validate_token parse cfg.provider token) [
    | none ↦ unauthorized invalid_token
    | some claims ↦ elim (validate_claims (cfg.validators ++ registered) claims) [
      | some e ↦ unauthorized (validation_error e)
      | none ↦ authenticated (build_authenticated_context cfg claims token)
    ]
  ]
]

-- What the middleware does: the handler is called, with a security context or without, or an error
-- is answered.
pub data Served : Type 0 where
  passes : Served
  passes_as : SecurityContext → Served
  rejects : AuthError → Served

unfoldable pub is_actuator_path : Text → Bool
is_actuator_path path =
    let p = if has_suffix path (codes "/") then trim_suffix path (codes "/") else path in
    (p == codes "/actuator") || has_prefix path (codes "/actuator/")

unfoldable pub serve_authenticated :
    Parse → SecurityConfig → List TokenValidator → Text → Text → Served
unfolding is_actuator_path authenticate_request is_public_path
serve_authenticated parse cfg registered path auth_header =
    if is_actuator_path path || is_public_path path cfg.public_paths
    then passes
    else (elim (authenticate_request parse cfg registered auth_header) [
      | unauthorized e ↦ rejects e
      | authenticated context ↦ passes_as context
    ])

unfoldable pub auth_middleware : Parse → SecurityConfig → List TokenValidator → Text → Text → Served
unfolding serve_authenticated
auth_middleware parse cfg registered path auth_header =
    if not cfg.enabled then passes else serve_authenticated parse cfg registered path auth_header

-- The loop of enrichDynamicClaims over the claims, in the order of their visit; the context is the
-- list of its values, newest first.
unfoldable pub enrich_dynamic_claims : List (Text × Json) → List (Text × Json) → List (Text × Json)
enrich_dynamic_claims [] context = context
enrich_dynamic_claims ((k, v) ∷ claims) context = enrich_dynamic_claims claims (
    if k == codes "sub"
    then (codes "user", v) ∷ (codes "username", v) ∷ (k, v) ∷ context
    else (k, v) ∷ context)
