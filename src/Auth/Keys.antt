-- ===== src/Auth/Keys.antt =====
-- jwt_provider.go: the key that a token is checked with.
use springo.Base.{
  ℕ, ◌≡◌, ◌≢◌, refl, sym, ap, ◌∙◌, Bool, true, false, [], Option, none, some, Text, ◌==◌, text_key,
  codes, if◌then◌else◌, not, has_prefix, arith, text_eqb_iff,
}
use springo.Auth.Serving.{
  SigningKey, secret_key, rsa_key, SigningMethod, hmac, rsa, other_method, TokenHeader, JwtProvider,
  resolve_symmetric_key, resolve_jwks_key, resolve_asymmetric_key, resolve_key, expected_alg_of,
}

-- The RSA key of the provider for a header: the one that the JWKS client has under the header's key
-- id, or the static one where there is no client.
abbrev pub IsRsaKeyOf : Option (Text → Option ℕ) → Option ℕ → Option Text → ℕ → Type 0
IsRsaKeyOf none public_key kid k = public_key ≡ some k
IsRsaKeyOf (some get_public_key) public_key none k = ⊥
IsRsaKeyOf (some get_public_key) public_key (some kid) k = get_public_key kid ≡ some k

-- A key of the provider for a header, of the kind that its algorithm asks for: the secret is never
-- empty, and goes with HMAC alone; an RSA key goes with RSA alone.
abbrev pub IsKeyOf : JwtProvider → TokenHeader → SigningKey → Type 0
IsKeyOf p h (secret_key s) =
    (s ≡ p.secret)
    × (s ≢ [])
    × (h.method ≡ hmac)
    × (has_prefix (expected_alg_of p) (codes "RS") ≡ false)
IsKeyOf p h (rsa_key k) =
    IsRsaKeyOf p.jwks p.public_key h.kid k
    × (h.method ≡ rsa)
    × (has_prefix (expected_alg_of p) (codes "RS") ≡ true)

-- Of a key where there is one; the header names the algorithm of the provider.
abbrev pub OfKey : JwtProvider → TokenHeader → Option SigningKey → Type 0
OfKey p h none = Unit
OfKey p h (some key) = IsKeyOf p h key

resolve_symmetric_key-OfKey :
    (p : JwtProvider) (h : TokenHeader)
    → has_prefix (expected_alg_of p) (codes "RS") ≡ false
    → OfKey p h (resolve_symmetric_key p h)
unfolding resolve_symmetric_key
resolve_symmetric_key-OfKey p h kind = at h.method refl
  where
    secret :
        (b : Bool)
        → (p.secret == []) ≡ b
        → h.method ≡ hmac
        → OfKey p h (if b then none else some (secret_key p.secret))
    secret true e m = tt
    secret false e m = (refl, (λ empty. ground (arith, text_eqb_iff p.secret [])), m, kind)

    at :
        (m : SigningMethod)
        → h.method ≡ m
        → OfKey p h (elim m as (λ _. Option SigningKey) [
          | hmac ↦ if p.secret == [] then none else some (secret_key p.secret)
          | rsa ↦ none
          | other_method ↦ none
        ])
    at hmac m = secret (p.secret == []) refl m
    at rsa m = tt
    at other_method m = tt

-- An RSA key of the provider, where there is a key.
abbrev OfRsa : Option (Text → Option ℕ) → Option ℕ → Option Text → Option SigningKey → Type 0
OfRsa jwks public_key kid none = Unit
OfRsa jwks public_key kid (some (secret_key s)) = ⊥
OfRsa jwks public_key kid (some (rsa_key k)) = IsRsaKeyOf jwks public_key kid k

client-OfRsa :
    (get_public_key : Text → Option ℕ) (public_key : Option ℕ) (kid : Option Text)
    → OfRsa (some get_public_key) public_key kid (elim kid as (λ _. Option SigningKey) [
      | none ↦ none
      | some kid ↦ elim (get_public_key kid) as (λ _. Option SigningKey) [
        | none ↦ none
        | some key ↦ some (rsa_key key)
      ]
    ])
client-OfRsa get public_key none = tt
client-OfRsa get public_key (some kid) = at (get kid) refl
  where
    at :
        (o : Option ℕ)
        → get kid ≡ o
        → OfRsa
            (some get)
            public_key
            (some kid)
            (elim o as (λ _. Option SigningKey) [ none ↦ none | some key ↦ some (rsa_key key) ])
    at none e = tt
    at (some key) e = e

static-OfRsa :
    (public_key : Option ℕ) (kid : Option Text)
    → OfRsa none public_key kid (elim public_key as (λ _. Option SigningKey) [
      | some key ↦ some (rsa_key key)
      | none ↦ none
    ])
static-OfRsa none kid = tt
static-OfRsa (some key) kid = refl

resolve_asymmetric_key-OfKey :
    (p : JwtProvider) (h : TokenHeader)
    → has_prefix (expected_alg_of p) (codes "RS") ≡ true
    → OfKey p h (resolve_asymmetric_key p h)
unfolding resolve_asymmetric_key resolve_jwks_key
resolve_asymmetric_key-OfKey p h kind = at h.method refl
  where
    typed :
        (o : Option SigningKey) → h.method ≡ rsa → OfRsa p.jwks p.public_key h.kid o → OfKey p h o
    typed none m here = tt
    typed (some (secret_key s)) m here = absurd here
    typed (some (rsa_key k)) m here = (here, m, kind)

    from :
        (jwks : Option (Text → Option ℕ))
        → OfRsa jwks p.public_key h.kid (elim jwks as (λ _. Option SigningKey) [
          | some get_public_key ↦ resolve_jwks_key get_public_key h
          | none ↦ elim p.public_key [ some key ↦ some (rsa_key key) | none ↦ none ]
        ])
    from none = static-OfRsa p.public_key h.kid
    from (some get) = client-OfRsa get p.public_key h.kid

    at :
        (m : SigningMethod)
        → h.method ≡ m
        → OfKey p h (elim m as (λ _. Option SigningKey) [
          | hmac ↦ none
          | other_method ↦ none
          | rsa ↦ elim p.jwks [
            | some get_public_key ↦ resolve_jwks_key get_public_key h
            | none ↦ elim p.public_key [ some key ↦ some (rsa_key key) | none ↦ none ]
          ]
        ])
    at hmac m = tt
    at other_method m = tt
    at rsa m = typed _ m (from p.jwks)

pub resolve_key-OfKey :
    (p : JwtProvider) (h : TokenHeader) → OfKey p h (resolve_key p (expected_alg_of p) h)
unfolding resolve_key
resolve_key-OfKey p h = at h.alg
  where
    kinds :
        (alg : Text) (b : Bool)
        → has_prefix alg (codes "RS") ≡ b
        → alg ≡ expected_alg_of p
        → OfKey p h (if b then resolve_asymmetric_key p h else resolve_symmetric_key p h)
    kinds alg true e same =
        resolve_asymmetric_key-OfKey p h (ap (λ a. has_prefix a (codes "RS")) (sym same) ∙ e)
    kinds alg false e same =
        resolve_symmetric_key-OfKey p h (ap (λ a. has_prefix a (codes "RS")) (sym same) ∙ e)

    tests :
        (alg : Text) (b : Bool)
        → (alg == expected_alg_of p) ≡ b
        → OfKey p h (
            if not b
            then none
            else if has_prefix alg (codes "RS")
            then resolve_asymmetric_key p h
            else resolve_symmetric_key p h)
    tests alg false e = tt
    tests alg true e =
        kinds alg (has_prefix alg (codes "RS")) refl ((text_eqb_iff alg (expected_alg_of p)).0 e)

    at :
        (o : Option Text)
        → OfKey p h (elim o as (λ _. Option SigningKey) [
          | none ↦ none
          | some alg ↦
              if not (alg == expected_alg_of p)
              then none
              else if has_prefix alg (codes "RS")
              then resolve_asymmetric_key p h
              else resolve_symmetric_key p h
        ])
    at none = tt
    at (some alg) = tests alg (alg == expected_alg_of p) refl
