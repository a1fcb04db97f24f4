-- ===== src/Csrf.antt =====
-- framework/web/csrf.go: the double-submit cookie. The configuration and the request's cookie and
-- headers are what config, net/http and the security properties return.
pub mod Guard
mod Tests
use springo.Base.{
  Bool, true, false, Option, none, some, List, [], ◌∷◌, Text, codes, ◌==◌, text_key, text_eqb,
  if◌then◌else◌, ◌||◌, not, length, nat_eqb,
}
use springo.PublicPaths.{is_public_path}

pub record Request : Type 0 where
  pub method : Text
  -- The cookie of the configured name.
  pub cookie : Option Text
  -- The header of the configured name, empty where there is none.
  pub header : Text
  pub path : Text

-- Whether the filter is active, by the server's properties where there are any.
unfoldable pub is_csrf_active : Option Bool → Bool → Bool
is_csrf_active (some server_enabled) enabled = server_enabled
is_csrf_active none enabled = enabled

unfoldable pub is_safe_method : Text → Bool
is_safe_method method = method == codes "GET" || method == codes "HEAD" || method == codes "OPTIONS"

pub data Refusal : Type 0 where
  cookie_missing header_missing token_invalid : Refusal

-- The new cookie's token where one is set; `token` is what generateCsrfToken returns.
unfoldable pub ensure_csrf_cookie : Text → Request → Option Text
ensure_csrf_cookie token r = elim r.cookie [
  | none ↦ some token
  | some held ↦ if held == [] then some token else none
]

unfoldable pub validate_csrf_token : Request → Option Refusal
validate_csrf_token r = elim r.cookie [
  | none ↦ some cookie_missing
  | some held ↦
      if held == []
      then some cookie_missing
      else if r.header == []
      then some header_missing
      else if not (nat_eqb (length held) (length r.header)) || not (held == r.header)
      then some token_invalid
      else none
]

-- What the middleware does with a request: the next handler serves it, with the cookie that is set
-- before, or it is refused.
pub data Outcome : Type 0 where
  serves : Option Text → Outcome
  refuses : Refusal → Outcome

unfoldable pub csrf_middleware : Option Bool → Bool → List Text → Text → Request → Outcome
unfolding is_csrf_active is_safe_method ensure_csrf_cookie validate_csrf_token
csrf_middleware server enabled public_paths token r =
    if not (is_csrf_active server enabled)
    then serves none
    else if is_public_path r.path public_paths
    then serves none
    else if is_safe_method r.method
    then serves (ensure_csrf_cookie token r)
    else elim (validate_csrf_token r) [ some refusal ↦ refuses refusal | none ↦ serves none ]
