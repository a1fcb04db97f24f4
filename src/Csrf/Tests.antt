-- ===== src/Csrf/Tests.antt =====
-- A POST that carries its token, and one that carries another.
use springo.Base.{executable, ◌≡◌, refl, true, false, none, some, Text, codes, [], ◌∷◌}
use springo.Csrf.{
  Request, is_csrf_active, is_safe_method, ensure_csrf_cookie, validate_csrf_token, serves, refuses,
  token_invalid, csrf_middleware,
}
use springo.PublicPaths.{
  normalize_path, match_double_wildcard, match_single_wildcard, match_wildcard_path, is_public_path,
}
use springo.Csrf.Guard.{Submitted, csrf_middleware-Submitted}

program : Unit {0}
unfolding executable is_csrf_active is_safe_method ensure_csrf_cookie validate_csrf_token
    csrf_middleware normalize_path match_double_wildcard match_single_wildcard match_wildcard_path
    is_public_path
program = tt

abbrev post : Text → Request
post token = record {
  method = codes "POST";
  cookie = some (codes "abc");
  header = token;
  path = codes "/orders/1";
}

active : is_csrf_active none true ≡ true
unfolding program
active = refl

hidden : is_public_path (codes "/orders/1") (codes "/api/*" ∷ []) ≡ false
unfolding program
hidden = refl

is_post : is_safe_method (codes "POST") ≡ false
unfolding program
is_post = refl

post-serves :
    csrf_middleware none true (codes "/api/*" ∷ []) (codes "new") (post (codes "abc")) ≡ serves none
unfolding program
post-serves = refl

csrf_middleware-Submitted_example : Submitted (post (codes "abc"))
csrf_middleware-Submitted_example =
    csrf_middleware-Submitted none true (codes "/api/*" ∷ []) (codes "new") (post (codes "abc"))
      none active hidden is_post post-serves

post-refuses :
    csrf_middleware none true (codes "/api/*" ∷ []) (codes "new") (post (codes "abd"))
    ≡ refuses token_invalid
unfolding program
post-refuses = refl

-- `/api/*` also lets through what lies deeper, where `/*` stands for one segment.
deeper_is_public :
    (is_public_path (codes "/api/a/b") (codes "/api/*" ∷ []) ≡ true)
    × (is_public_path (codes "/a/b") (codes "/*" ∷ []) ≡ false)
unfolding program
deeper_is_public = (refl, refl)
