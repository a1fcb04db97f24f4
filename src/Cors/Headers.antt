-- ===== src/Cors/Headers.antt =====
-- cors.go: the two headers that the filter decides on, among those that it sets.
use springo.Base.{
  ◌≡◌, refl, ap, ◌∙◌, inl, inr, Bool, true, false, List, none, some, Text, ◌==◌, text_key, nat_key,
  ltb, codes, lookup, insert, lookup-insert, if◌then◌else◌, ◌||◌, not, ℤ, pos, negsuc, length,
  Bool-cases, text_eqb, ==_refl,
}
use springo.Cors.{
  CorsProperties, star, contains, allow_origin, allow_credentials_header, apply_origin_headers,
  join, apply_cors_headers, decimal, apply_preflight_headers, handle_preflight,
}

-- A header that is set where a condition holds does not touch another one.
set_other :
    (b : Bool) (key k v : Text) (headers : List (Text × Text))
    → k == key ≡ false
    → lookup key (if b then insert k v headers else headers) ≡ lookup key headers
set_other true key k v headers differs = lookup-insert k key v headers ∙ rw differs refl
set_other false key k v headers differs = refl

-- The two headers are none of the others.
abbrev pub IsOfOrigin : Text → Type 0
IsOfOrigin key =
    (codes "Access-Control-Allow-Methods" == key ≡ false)
    × (codes "Access-Control-Allow-Headers" == key ≡ false)
    × (codes "Access-Control-Max-Age" == key ≡ false)
    × (codes "Access-Control-Expose-Headers" == key ≡ false)
    × (codes "Vary" == key ≡ false)

pub allow_origin-IsOfOrigin : IsOfOrigin allow_origin
unfolding text_eqb
allow_origin-IsOfOrigin = (refl, refl, refl, refl, refl)

pub allow_credentials_header-IsOfOrigin : IsOfOrigin allow_credentials_header
unfolding text_eqb
allow_credentials_header-IsOfOrigin = (refl, refl, refl, refl, refl)

origin_differs : allow_origin == allow_credentials_header ≡ false
unfolding text_eqb
origin_differs = refl

credentials_differs : allow_credentials_header == allow_origin ≡ false
unfolding text_eqb
credentials_differs = refl

apply_preflight_headers-lookup :
    (key : Text) (props : CorsProperties) (headers : List (Text × Text))
    → IsOfOrigin key
    → lookup key (apply_preflight_headers props headers) ≡ lookup key headers
unfolding apply_preflight_headers
apply_preflight_headers-lookup key props headers k =
    at props.max_age
    ∙ set_other (ltb 0 (length props.allowed_headers)) key (codes "Access-Control-Allow-Headers")
        (join props.allowed_headers) _ (k.1)
    ∙ set_other (ltb 0 (length props.allowed_methods)) key (codes "Access-Control-Allow-Methods")
        (join props.allowed_methods) headers (k.0)
  where
    h : List (Text × Text)
    h =
        if ltb 0 (length props.allowed_methods)
        then insert (codes "Access-Control-Allow-Methods") (join props.allowed_methods) headers
        else headers

    h' : List (Text × Text)
    h' =
        if ltb 0 (length props.allowed_headers)
        then insert (codes "Access-Control-Allow-Headers") (join props.allowed_headers) h
        else h

    at :
        (age : ℤ)
        → lookup key (elim age as (λ _. List (Text × Text)) [
          | pos n ↦ if ltb 0 n then insert (codes "Access-Control-Max-Age") (decimal n n) h' else h'
          | negsuc _ ↦ h'
        ])
          ≡ lookup key h'
    at (pos n) = set_other (ltb 0 n) key (codes "Access-Control-Max-Age") (decimal n n) h' (k.2)
    at (negsuc n) = refl

pub handle_preflight-lookup :
    (key method : Text) (props : CorsProperties) (headers : List (Text × Text))
    → IsOfOrigin key
    → lookup key (handle_preflight method props headers).headers ≡ lookup key headers
unfolding handle_preflight
handle_preflight-lookup key method props headers k = elim (Bool-cases (method == codes "OPTIONS")) [
  | inl options ↦ rw options (apply_preflight_headers-lookup key props headers k)
  | inr others ↦ rw others refl
]

apply_origin_headers-credentials :
    (props : CorsProperties) (origin : Text) (headers : List (Text × Text))
    → lookup allow_credentials_header (apply_origin_headers props origin headers)
      ≡ lookup allow_credentials_header headers
unfolding apply_origin_headers
apply_origin_headers-credentials props origin headers =
    at (props.allow_credentials || not (contains props.allowed_origins star))
  where
    only :
        (o : Text)
        → lookup allow_credentials_header (insert allow_origin o headers)
          ≡ lookup allow_credentials_header headers
    only o = set_other true allow_credentials_header allow_origin o headers origin_differs

    at :
        (b : Bool)
        → lookup allow_credentials_header (
            if b
            then insert (codes "Vary") (codes "Origin") (insert allow_origin origin headers)
            else insert allow_origin star headers)
          ≡ lookup allow_credentials_header headers
    at true =
        set_other true allow_credentials_header (codes "Vary") (codes "Origin")
          (insert allow_origin origin headers) allow_credentials_header-IsOfOrigin.4
        ∙ only origin
    at false = only star

-- Without credentials the header is not set.
pub apply_cors_headers-none :
    (props : CorsProperties) (origin : Text) (headers : List (Text × Text))
    → props.allow_credentials ≡ false
    → lookup allow_credentials_header headers ≡ none
    → lookup allow_credentials_header (apply_cors_headers props origin headers) ≡ none
unfolding apply_cors_headers apply_origin_headers
apply_cors_headers-none props origin headers off absent =
    let k = allow_credentials_header-IsOfOrigin in
    set_other (ltb 0 (length props.exposed_headers)) allow_credentials_header
      (codes "Access-Control-Expose-Headers") (join props.exposed_headers) _ k.3
    ∙ ap
        (λ b. lookup allow_credentials_header (
          if b
          then insert allow_credentials_header (codes "true")
              (apply_origin_headers props origin headers)
          else apply_origin_headers props origin headers))
        off
    ∙ apply_origin_headers-credentials props origin headers
    ∙ absent

-- With credentials the origin is that of the request.
pub apply_cors_headers-origin :
    (props : CorsProperties) (origin : Text) (headers : List (Text × Text))
    → props.allow_credentials ≡ true
    → lookup allow_origin (apply_cors_headers props origin headers) ≡ some origin
unfolding apply_cors_headers apply_origin_headers
apply_cors_headers-origin props origin headers on =
    let k = allow_origin-IsOfOrigin in
    set_other (ltb 0 (length props.exposed_headers)) allow_origin
      (codes "Access-Control-Expose-Headers") (join props.exposed_headers) _ k.3
    ∙ set_other props.allow_credentials allow_origin allow_credentials_header (codes "true") _
        credentials_differs
    ∙ simp on (
        set_other true allow_origin (codes "Vary") (codes "Origin")
          (insert allow_origin origin headers) k.4
        ∙ lookup-insert allow_origin allow_origin origin headers
        ∙ rw (==_refl allow_origin) refl)
