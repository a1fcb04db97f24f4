-- ===== src/Csrf/Guard.antt =====
-- csrf.go: which requests the filter lets through.
use springo.Base.{
  ◌≡◌, ◌≢◌, ap, ◌∙◌, inl, inr, Bool, true, false, Option, none, some, List, [], Text, text_key,
  text_eqb_iff, arith, Option-cases,
}
use springo.PublicPaths.{is_public_path}
use springo.Csrf.{
  Request, is_csrf_active, is_safe_method, validate_csrf_token, serves, csrf_middleware,
}

-- The request carries one and the same token, which is not empty, in its cookie and in its header.
abbrev pub Submitted : Request → Type 0
Submitted r = (r.cookie ≡ some r.header) × (r.header ≢ [])

validate_csrf_token-Submitted : (r : Request) → validate_csrf_token r ≡ none → Submitted r
unfolding validate_csrf_token
validate_csrf_token-Submitted r e = elim (Option-cases r.cookie) [
  | inl missing ↦ absurd (ground arith)
  | inr (held, there) ↦
      let same : held ≡ r.header =
        ground
          (arith, text_eqb_iff held r.header, text_eqb_iff held [], text_eqb_iff r.header []) in
      (
        there ∙ ap some same,
        λ q. absurd (
            ground
              (arith, text_eqb_iff held r.header, text_eqb_iff held [], text_eqb_iff r.header [])),
      )
]

-- Where the filter is active, a request to a path that is not public, by a method that is not safe,
-- reaches the handler only if its cookie and its header carry the same token, which is not empty.
pub csrf_middleware-Submitted :
    (server : Option Bool) (enabled : Bool) (public_paths : List Text) (token : Text) (r : Request)
    (cookie : Option Text)
    → is_csrf_active server enabled ≡ true
    → is_public_path r.path public_paths ≡ false
    → is_safe_method r.method ≡ false
    → csrf_middleware server enabled public_paths token r ≡ serves cookie
    → Submitted r
unfolding csrf_middleware
csrf_middleware-Submitted server enabled public_paths token r cookie active hidden unsafe served =
    elim (Option-cases (validate_csrf_token r)) [
      | inl valid ↦ validate_csrf_token-Submitted r valid
      | inr (refusal, invalid) ↦ absurd (ground arith)
    ]
