-- ===== src/Cache/Lifetimes.antt =====
-- memory_provider.go: how long a value lives, apart from the int64 that stands for it.
use springo.Base.{
  ℕ, ◌+◌, ◌<◌, ◌^◌, ◌%◌, ◌≡◌, refl, Bool, true, Option, none, some, ltb, leb, not, if◌then◌else◌, ℤ,
  pos, negsuc, arith, zero, suc,
}
use springo.Cache.{CacheItem, is_expired, expiration_at}

-- A time of its own that is positive; 0 takes the cache's, and a negative time is no end.
abbrev pub lasting : ℤ → Option ℕ
lasting (pos zero) = none
lasting (pos (suc n)) = some (suc n)
lasting (negsuc n) = none

abbrev pub lifetime : ℤ → ℤ → Option ℕ
lifetime (pos zero) default = lasting default
lifetime (pos (suc n)) default = some (suc n)
lifetime (negsuc n) default = none

-- The last moment of a life that begins now.
abbrev pub last_moment : ℕ → Option ℕ → Option ℕ
last_moment now none = none
last_moment now (some d) = some (now + d)

abbrev pub is_alive : ℕ → Option ℕ → Bool
is_alive u none = true
is_alive u (some t) = leb u t

-- The moment is one that an int64 holds.
abbrev pub Fits : Option ℕ → Type 0
Fits none = Unit
Fits (some t) = t < 2 ^ 63

-- An int64 that stands for a last moment.
abbrev pub StandsFor : ℕ → Option ℕ → Type 0
StandsFor e none = e ≡ 0
StandsFor e (some t) = (e ≡ t) × (0 < t) × (t < 2 ^ 63)

expiration_at-StandsFor_default :
    (now : ℕ) (d : ℤ)
    → Fits (last_moment now (lasting d))
    → StandsFor
        (elim d as (λ _. ℕ) [ pos d ↦ if ltb 0 d then (now + d) % 2 ^ 64 else 0 | negsuc _ ↦ 0 ])
        (last_moment now (lasting d))
expiration_at-StandsFor_default now (pos zero) f = refl
expiration_at-StandsFor_default now (pos (suc n)) f = (ground arith, ground arith, f)
expiration_at-StandsFor_default now (negsuc n) f = refl

pub expiration_at-StandsFor :
    (now : ℕ) (ttl default : ℤ)
    → Fits (last_moment now (lifetime ttl default))
    → StandsFor (expiration_at now ttl default) (last_moment now (lifetime ttl default))
unfolding expiration_at
expiration_at-StandsFor now (pos zero) default f = expiration_at-StandsFor_default now default f
expiration_at-StandsFor now (pos (suc n)) default f = (ground arith, ground arith, f)
expiration_at-StandsFor now (negsuc n) default f = ground arith

pub is_expired-StandsFor :
    (u : ℕ) (item : CacheItem) (t : Option ℕ)
    → StandsFor item.expiration t
    → is_expired u item ≡ not (is_alive u t)
unfolding is_expired
is_expired-StandsFor u item none s = ground (arith, s)
is_expired-StandsFor u item (some t) s = ground (arith, s)
