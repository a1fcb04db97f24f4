-- ===== src/Cors/Tests.antt =====
-- One listed origin and one pattern, with credentials.
use springo.Base.{
  ◌≡◌, refl, inl, Bool, true, [], ◌∷◌, Option, none, some, Text, ◌==◌, text_key, codes, executable,
  pos, lookup, ◌&&◌,
}
use springo.Cors.{CorsProperties, Reply, star, allow_origin, escape_pattern, cors_middleware}
use springo.Cors.Credentials.{IsGuarded, fresh, cors_middleware-IsGuarded}

program : Unit {0}
unfolding executable escape_pattern cors_middleware
program = tt

abbrev origin : Text
origin = codes "https://a.org"

abbrev props : CorsProperties
props = record {
  allowed_origins = origin ∷ [];
  allowed_origin_patterns = codes "*.b.org" ∷ [];
  allowed_methods = codes "GET" ∷ codes "PUT" ∷ [];
  allowed_headers = [];
  exposed_headers = [];
  allow_credentials = true;
  max_age = pos 600;
}

-- A compiler that knows one expression.
abbrev compile : Text → Option (Text → Bool)
compile s = some (λ o. (s == codes "^.*\\.b\\.org$") && (o == codes "x.b.org"))

abbrev reply : Text → Text → Reply
reply method o = (cors_middleware compile none (some props) method o [] fresh).0

cors_middleware-IsGuarded_example :
    IsGuarded compile props origin (reply (codes "OPTIONS") origin).headers
unfolding lookup
cors_middleware-IsGuarded_example =
    cors_middleware-IsGuarded compile none props (codes "OPTIONS") origin [] fresh (inl refl) refl

preflight : (reply (codes "OPTIONS") origin).status ≡ some 204
unfolding program
preflight = refl

age :
    lookup (codes "Access-Control-Max-Age") (reply (codes "OPTIONS") origin).headers
    ≡ some (codes "600")
unfolding program
age = refl

by_pattern :
    lookup allow_origin (reply (codes "GET") (codes "x.b.org")).headers ≡ some (codes "x.b.org")
unfolding program
by_pattern = refl

stranger : lookup allow_origin (reply (codes "GET") (codes "y.org")).headers ≡ none
unfolding program
stranger = refl

-- Any origin together with credentials is refused.
insecure :
    (cors_middleware compile none
      (some (record props { allowed_origins = star ∷ [] }))
      (codes "GET")
      origin
      []
      fresh).0.status
    ≡ some 500
unfolding program
insecure = refl
