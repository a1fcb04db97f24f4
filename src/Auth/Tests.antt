-- ===== src/Auth/Tests.antt =====
-- A library that accepts one token, and the requests that bring it or not.
use springo.Base.{
  ◌≡◌, refl, Bool, true, false, List, [], ◌∷◌, Option, none, some, Text, ◌==◌, text_key, codes,
  executable, if◌then◌else◌, ◌&&◌, arith,
}
use springo.Auth.Claims.{Fields, str, arr, no_items, item, no_fields, field, extract_roles}
use springo.Auth.Validators.{validate_issuer}
use springo.Auth.Serving.{
  SigningKey, secret_key, rsa_key, hmac, TokenHeader, issuer_validator, SecurityConfig, Served,
  passes, passes_as, rejects, invalid_token, header_error, serve_authenticated,
  enrich_dynamic_claims,
}
use springo.Auth.Roles.{IsFormatted, extract_roles-IsFormatted}
use springo.Auth.Admission.{JwtLibrary, IsAdmitted, serve_authenticated-IsAdmitted}

program : Unit {0}
unfolding executable extract_roles serve_authenticated validate_issuer enrich_dynamic_claims
program = tt

abbrev alice : Fields
alice = field (codes "sub") (str (codes "alice")) (
    field (codes "iss") (str (codes "https://id/")) (
      field (codes "roles")
        (arr (item (str (codes "admin")) (item (str (codes "ROLE_admin")) no_items))) no_fields))

abbrev verifies : SigningKey → Text → Bool
verifies (secret_key s) token = (s == codes "k") && (token == codes "t")
verifies (rsa_key k) token = false

abbrev header : TokenHeader
header = record { alg = some (codes "HS256"); kid = none; method = hmac }

-- What is left of a token, under the key for its header.
abbrev accept : Option SigningKey → Text → Option Fields
accept none token = none
accept (some key) token = if verifies key token then some alice else none

accept_sound :
    (o : Option SigningKey) (token : Text) (claims : Fields)
    → accept o token ≡ some claims
    → (key : SigningKey) × (o ≡ some key) × (verifies key token ≡ true)
accept_sound none token claims e = absurd (ground arith)
accept_sound (some key) token claims e = (key, refl, at (verifies key token) e)
  where
    at : (b : Bool) → (if b then some alice else none) ≡ some claims → b ≡ true
    at true e = refl
    at false e = absurd (ground arith)

abbrev library : JwtLibrary
library = record {
  parse = λ key_of alg token. accept (key_of header) token;
  header_of = λ token. header;
  verifies = verifies;
  parse_sound = λ key_of alg token claims e. accept_sound (key_of header) token claims e;
}

abbrev config : SecurityConfig
config = record {
  enabled = true;
  public_paths = codes "/swagger" ∷ [];
  principal_claim = codes "sub";
  authorities_claim = [];
  resource_id = [];
  authority_prefix = codes "ROLE_";
  provider = record { secret = codes "k"; algorithm = []; jwks = none; public_key = none };
  validators = issuer_validator (codes "https://id") ∷ [];
}

abbrev serve : Text → Served
serve auth_header = serve_authenticated library.parse config [] (codes "/orders") auth_header

serve_authenticated-IsAdmitted_example :
    IsAdmitted library config [] (codes "/orders") (codes "Bearer t") (serve (codes "Bearer t"))
serve_authenticated-IsAdmitted_example =
    serve_authenticated-IsAdmitted library config [] (codes "/orders") (codes "Bearer t")

extract_roles-IsFormatted_example :
    IsFormatted (codes "ROLE_") [] (extract_roles alice [] [] (codes "ROLE_"))
extract_roles-IsFormatted_example = extract_roles-IsFormatted alice [] [] (codes "ROLE_")

roles_of : Served → List Text
roles_of (passes_as context) = context.roles
roles_of passes = []
roles_of (rejects e) = []

admits_alice : roles_of (serve (codes "Bearer t")) ≡ codes "ROLE_admin" ∷ []
unfolding program roles_of
admits_alice = refl

forged : serve (codes "Bearer u") ≡ rejects invalid_token
unfolding program
forged = refl

no_scheme : serve (codes "t") ≡ rejects header_error
unfolding program
no_scheme = refl

-- A claim named username stands before or after the subject, as the order of the visit has it.
overwritten :
    enrich_dynamic_claims
      ((codes "sub", str (codes "alice")) ∷ (codes "username", str (codes "root")) ∷ [])
      []
    ≡ (codes "username", str (codes "root"))
      ∷ (codes "user", str (codes "alice"))
      ∷ (codes "username", str (codes "alice"))
      ∷ (codes "sub", str (codes "alice"))
      ∷ []
unfolding program
overwritten = refl
