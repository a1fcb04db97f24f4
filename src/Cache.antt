-- ===== src/Cache.antt =====
-- framework/cache/memory_provider.go: one in-memory cache. Each operation is one step, as the mutex
-- makes it; `now` is time.Now().UnixNano(). An int64 is its 64 bits, read as a number.
pub mod Entries
pub mod Store
pub mod Lifetimes
pub mod Storing
pub mod Refinement
mod Tests
use springo.Base.{
  ℕ, ◌+◌, ◌^◌, ◌%◌, Bool, true, false, List, [], ◌∷◌, Option, none, some, Text, text_key, lookup,
  insert, delete, length, ltb, leb, if◌then◌else◌, ◌&&◌, ℤ, pos, negsuc, eqb_ℤ, Iteration,
}

-- The types that Increment tells apart; a float64 stands with its int64 conversion.
pub data Value : Type 0 where
  int int64 float64 : ℕ → Value
  other_type : ℕ → Value

pub record CacheItem : Type 0 where
  pub value : Value
  pub expiration : ℕ

pub record MemoryCache : Type 0 where
  pub ttl : ℤ
  pub entries : List (Text × CacheItem)

abbrev pub default_max_memory_cache_keys : ℕ
default_max_memory_cache_keys = 10_000

-- An expiration with the highest bit is negative, and no time.
unfoldable pub is_expired : ℕ → CacheItem → Bool
is_expired now item =
    ltb 0 item.expiration && ltb item.expiration (2 ^ 63) && ltb item.expiration now

-- The moment of expiry as an int64, 0 for never: an own ttl of 0 is the cache's.
unfoldable pub expiration_at : ℕ → ℤ → ℤ → ℕ
expiration_at now ttl default =
    let chosen = if eqb_ℤ ttl (pos 0) then default else ttl in
    elim chosen [ pos d ↦ if ltb 0 d then (now + d) % 2 ^ 64 else 0 | negsuc _ ↦ 0 ]

unfoldable pub get : ℕ → Text → MemoryCache → Option Value × MemoryCache
unfolding is_expired
get now key c = elim (lookup key c.entries) [
  | none ↦ (none, c)
  | some item ↦
      if is_expired now item
      then (none, record c { entries = delete key c.entries })
      else (some item.value, c)
]

unfoldable pub evict_expired_items : ℕ → List (Text × CacheItem) → List (Text × CacheItem)
unfolding is_expired
evict_expired_items now [] = []
evict_expired_items now ((key, item) ∷ items) =
    let rest = evict_expired_items now items in
    if is_expired now item then rest else (key, item) ∷ rest

-- The loop of Set that deletes the first entry that `range` visits.
unfoldable pub drop_entry :
    Iteration (Text × CacheItem) → List (Text × CacheItem) → List (Text × CacheItem)
drop_entry it items = elim (it.visit items) [ [] ↦ items | (key, item) ∷ rest ↦ delete key items ]

-- What Set does with a full map before it stores a new key.
unfoldable pub make_room :
    Iteration (Text × CacheItem) → ℕ → List (Text × CacheItem) → List (Text × CacheItem)
unfolding evict_expired_items drop_entry
make_room it now items =
    let live = evict_expired_items now items in
    if leb default_max_memory_cache_keys (length live) then drop_entry it live else live

unfoldable pub set : Iteration (Text × CacheItem) → ℕ → Text → Value → ℤ → MemoryCache → MemoryCache
unfolding expiration_at make_room
set it now key value ttl c =
    let item : CacheItem = record { value = value; expiration = expiration_at now ttl c.ttl } in
    let items : List (Text × CacheItem) = elim (lookup key c.entries) [
      | some _ ↦ c.entries
      | none ↦
          if leb default_max_memory_cache_keys (length c.entries)
          then make_room it now c.entries
          else c.entries
    ] in
    record c { entries = insert key item items }

unfoldable pub evict : Text → MemoryCache → MemoryCache
evict key c = record c { entries = delete key c.entries }

unfoldable pub clear : MemoryCache → MemoryCache
clear c = record c { entries = [] }

-- The number that Increment starts from.
unfoldable pub current : ℕ → Option CacheItem → ℕ
unfolding is_expired
current now none = 0
current now (some item) =
    if is_expired now item
    then 0
    else elim item.value [ int n ↦ n | int64 n ↦ n | float64 n ↦ n | other_type _ ↦ 0 ]

unfoldable pub increment : ℕ → Text → ℕ → ℤ → MemoryCache → ℕ × MemoryCache
unfolding expiration_at current
increment now key delta ttl c =
    let total = (current now (lookup key c.entries) + delta) % 2 ^ 64 in
    let item : CacheItem = record {
      value = int64 total;
      expiration = expiration_at now ttl c.ttl;
    } in
    (total, record c { entries = insert key item c.entries })
