-- ===== src/Cache/Store.antt =====
-- The calls on the cache, and a store of its items without a bound on their number.
use springo.Base.{
  ℕ, ◌+◌, ◌≤◌, ◌^◌, ◌%◌, ◌≡◌, List, [], ◌∷◌, Option, none, some, Text, ◌==◌, text_key, lookup,
  if◌then◌else◌, ℤ, Iteration,
}
use springo.Cache.{
  Value, int64, CacheItem, MemoryCache, is_expired, expiration_at, get, set, evict, clear, current,
  increment,
}

-- A call on the cache, with the time of it.
pub data CacheCall : Type 0 where
  gets evicts : ℕ → Text → CacheCall
  sets : ℕ → Text → Value → ℤ → CacheCall
  clears : ℕ → CacheCall
  increments : ℕ → Text → ℕ → ℤ → CacheCall

pub data Answer : Type 0 where
  value : Option Value → Answer
  number : ℕ → Answer
  nothing : Answer

abbrev pub time_of : CacheCall → ℕ
time_of (gets now key) = now
time_of (evicts now key) = now
time_of (sets now key v ttl) = now
time_of (clears now) = now
time_of (increments now key delta ttl) = now

abbrev pub call_cache :
    Iteration (Text × CacheItem) → CacheCall → MemoryCache → Answer × MemoryCache
call_cache it (gets now key) c = (value (get now key c).0, (get now key c).1)
call_cache it (evicts now key) c = (nothing, evict key c)
call_cache it (sets now key v ttl) c = (nothing, set it now key v ttl c)
call_cache it (clears now) c = (nothing, clear c)
call_cache it (increments now key delta ttl) c =
    (number (increment now key delta ttl c).0, (increment now key delta ttl c).1)

-- The abstract store.
abbrev pub Store : Type 0
Store = Text → Option CacheItem

abbrev pub visible : ℕ → Option CacheItem → Option CacheItem
visible now none = none
visible now (some item) = if is_expired now item then none else some item

abbrev pub value_of : Option CacheItem → Option Value
value_of none = none
value_of (some item) = some item.value

abbrev pub put : Text → Option CacheItem → Store → Store
put key o m k = if key == k then o else m k

-- What a call does to the store, whose own ttl is `ttl`.
abbrev pub call_store : ℤ → CacheCall → Store → Answer × Store
call_store default (gets now key) m = (value (value_of (visible now (m key))), m)
call_store default (evicts now key) m = (nothing, put key none m)
call_store default (sets now key v ttl) m =
    (nothing, put key (some (record { value = v; expiration = expiration_at now ttl default })) m)
call_store default (clears now) m = (nothing, λ k. none)
call_store default (increments now key delta ttl) m =
    let total = (current now (visible now (m key)) + delta) % 2 ^ 64 in
    (
      number total,
      put key (some (record { value = int64 total; expiration = expiration_at now ttl default })) m,
    )

abbrev pub answers_of_cache :
    Iteration (Text × CacheItem) → List CacheCall → MemoryCache → List Answer
answers_of_cache it [] c = []
answers_of_cache it (call ∷ calls) c =
    (call_cache it call c).0 ∷ answers_of_cache it calls (call_cache it call c).1

abbrev pub answers_of_store : ℤ → List CacheCall → Store → List Answer
answers_of_store ttl [] m = []
answers_of_store ttl (call ∷ calls) m =
    (call_store ttl call m).0 ∷ answers_of_store ttl calls (call_store ttl call m).1

-- The calls come one after the other, from `t` on.
abbrev pub InTurn : ℕ → List CacheCall → Type 0
InTurn t [] = Unit
InTurn t (call ∷ calls) = (t ≤ time_of call) × InTurn (time_of call) calls

-- From `t` on both show the same.
abbrev pub Refines : ℕ → MemoryCache → Store → Type 0
Refines t c m = (k : Text) (u : ℕ) → t ≤ u → visible u (lookup k c.entries) ≡ visible u (m k)
