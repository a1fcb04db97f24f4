-- ===== src/Cache/Entries.antt =====
-- memory_provider.go: what is found under a key after a write, and how many entries there are.
use mathlib.Core.List.Permᴰ
use mathlib.Core.List.{Permᴰ}
use springo.Base.{
  All, All-perm, ℕ, ◌+◌, ◌≤◌, ◌<◌, ◌≡◌, ◌≢◌, refl, ◌∙◌, inl, inr, Bool, true, false, List, [], ◌∷◌,
  Option, none, some, Text, text_key, text_eqb_iff, lookup, insert, delete, length, lookup-insert,
  length-insert, length-delete, leb, leb→le, if◌then◌else◌, ◌==◌, not, ==_refl, Bool-cases,
  Option-cases, arith, ℤ, Iteration,
}
use springo.Cache.Lifetimes.{
  lifetime, last_moment, is_alive, Fits, expiration_at-StandsFor, is_expired-StandsFor,
}
use springo.Cache.{
  Value, CacheItem, MemoryCache, default_max_memory_cache_keys, is_expired, expiration_at, get,
  evict_expired_items, drop_entry, make_room, set,
}

lookup-set :
    (it : Iteration (Text × CacheItem)) (now : ℕ) (key : Text) (v : Value) (ttl : ℤ)
    (c : MemoryCache)
    → lookup key (set it now key v ttl c).entries
      ≡ some (record { value = v; expiration = expiration_at now ttl c.ttl })
unfolding set
lookup-set it now key v ttl c = lookup-insert key key _ _ ∙ rw (==_refl key) refl

first_of_if :
    {A B : Type 0} (b : Bool) (p q : A × B)
    → (if◌then◌else◌ {A = A × B} b p q).0 ≡ (if b then p.0 else q.0)
first_of_if true p q = refl
first_of_if false p q = refl

get-found :
    (later : ℕ) (key : Text) (c : MemoryCache) (item : CacheItem)
    → lookup key c.entries ≡ some item
    → (get later key c).0 ≡ (if is_expired later item then none else some item.value)
unfolding get
get-found later key c item e = rw (e, get) (first_of_if (is_expired later item) _ _)

-- A key that was just set has its value until its time has passed, also where the map was full: its
-- own time where that is positive, the cache's where it is 0, and no end where it is negative. The
-- last moment is one that an int64 holds.
pub get-set :
    (it : Iteration (Text × CacheItem)) (now later : ℕ) (key : Text) (v : Value) (ttl : ℤ)
    (c : MemoryCache)
    → Fits (last_moment now (lifetime ttl c.ttl))
    → (get later key (set it now key v ttl c)).0
      ≡ (if is_alive later (last_moment now (lifetime ttl c.ttl)) then some v else none)
get-set it now later key v ttl c fits =
    let last = last_moment now (lifetime ttl c.ttl) in
    let item : CacheItem = record { value = v; expiration = expiration_at now ttl c.ttl } in
    get-found later key (set it now key v ttl c) item (lookup-set it now key v ttl c)
    ∙ rw (is_expired-StandsFor later item last (expiration_at-StandsFor now ttl c.ttl fits))
        (if_not (is_alive later last))
  where
    if_not :
        (b : Bool)
        → (if◌then◌else◌ {A = Option Value} (not b) none (some v)) ≡ (if b then some v else none)
    if_not true = refl
    if_not false = refl

length-evict_expired_items :
    (now : ℕ) (items : List (Text × CacheItem))
    → length (evict_expired_items now items) ≤ length items
unfolding evict_expired_items
length-evict_expired_items now [] = ground arith
length-evict_expired_items now ((key, item) ∷ items) =
    ground (arith, length-evict_expired_items now items)

absent-All :
    (key : Text) (items : List (Text × CacheItem))
    → lookup key items ≡ none
    → All (λ entry. entry.0 ≢ key) items
unfolding lookup
absent-All key [] e = tt
absent-All key ((k, item) ∷ items) e = elim (Bool-cases (k == key)) [
  | inl same ↦ absurd (ground arith)
  | inr differs ↦
      (λ q. absurd (ground (arith, text_eqb_iff k key)), absent-All key items (ground arith))
]

delete_present :
    (key : Text) (items : List (Text × CacheItem)) (item : CacheItem)
    → lookup key items ≡ some item
    → length (delete key items) < length items
unfolding delete lookup
delete_present key [] item e = absurd (ground arith)
delete_present key ((k, i) ∷ items) item e =
    ground (arith, delete_present key items item, length-delete key items)

nothing_visited : (items : List (Text × CacheItem)) → 0 < length items → All (λ _. ⊥) items → ⊥
nothing_visited [] l a = absurd (ground arith)
nothing_visited (x ∷ xs) l a = a.0

-- Whatever entry `range` visits first, one entry at least goes.
length-drop_entry :
    (it : Iteration (Text × CacheItem)) (items : List (Text × CacheItem))
    → 0 < length items
    → length (drop_entry it items) < length items
unfolding drop_entry
length-drop_entry it items some_left = at (it.visit items) (it.visit-perm items)
  where
    at :
        (visited : List (Text × CacheItem))
        → Permᴰ visited items
        → length (elim visited as (λ _. List (Text × CacheItem)) [
          | [] ↦ items
          | entry ∷ rest ↦ delete entry.0 items
        ])
          < length items
    at [] p = absurd (nothing_visited items some_left (All-perm (λ _. ⊥) p tt))
    at (entry ∷ rest) p = elim (Option-cases (lookup entry.0 items)) [
      | inl absent ↦
          absurd (
            (All-perm (λ e. e.0 ≢ entry.0) (Permᴰ.symm p) (absent-All entry.0 items absent)).0 refl)
      | inr (item, present) ↦ delete_present entry.0 items item present
    ]

length-make_room :
    (it : Iteration (Text × CacheItem)) (now : ℕ) (items : List (Text × CacheItem))
    → length items ≤ default_max_memory_cache_keys
    → length (make_room it now items) < default_max_memory_cache_keys
unfolding make_room
length-make_room it now items fits =
    let live = evict_expired_items now items in
    let less = length-evict_expired_items now items in
    elim (Bool-cases (leb default_max_memory_cache_keys (length live))) [
      | inl full ↦
          let most = leb→le default_max_memory_cache_keys (length live) full in
          let dropped = length-drop_entry it live (ground arith) in rw full (ground arith)
      | inr room ↦ rw room (ground arith)
    ]

insert_at_most :
    (key : Text) (item : CacheItem) (items : List (Text × CacheItem))
    → length (insert key item items) ≤ length items + 1
insert_at_most key item items = elim (Option-cases (lookup key items)) [
  | inl absent ↦
      let counted = length-insert key item items in
      let same : length (insert key item items) ≡ length items + 1 = counted ∙ rw absent refl in
      ground arith
  | inr (old, present) ↦
      let counted = length-insert key item items in
      let same : length (insert key item items) ≡ length items = counted ∙ rw present refl in
      ground arith
]

insert_present :
    (key : Text) (item old : CacheItem) (items : List (Text × CacheItem))
    → lookup key items ≡ some old
    → length (insert key item items) ≡ length items
insert_present key item old items present = length-insert key item items ∙ rw present refl

-- Set keeps the map within its capacity: a new key in a full map makes room first.
pub length-set :
    (it : Iteration (Text × CacheItem)) (now : ℕ) (key : Text) (v : Value) (ttl : ℤ)
    (c : MemoryCache)
    → length c.entries ≤ default_max_memory_cache_keys
    → length (set it now key v ttl c).entries ≤ default_max_memory_cache_keys
unfolding set
length-set it now key v ttl c fits =
    at (record { value = v; expiration = expiration_at now ttl c.ttl }) (lookup key c.entries) refl
  where
    at :
        (item : CacheItem) (found : Option CacheItem)
        → lookup key c.entries ≡ found
        → length (
            insert key item (elim found as (λ _. List (Text × CacheItem)) [
              | some _ ↦ c.entries
              | none ↦
                  if leb default_max_memory_cache_keys (length c.entries)
                  then make_room it now c.entries
                  else c.entries
            ]))
          ≤ default_max_memory_cache_keys
    at item (some old) e = let same = insert_present key item old c.entries e in ground arith
    at item none e = elim (Bool-cases (leb default_max_memory_cache_keys (length c.entries))) [
      | inl full ↦
          let room = length-make_room it now c.entries fits in
          let most = insert_at_most key item (make_room it now c.entries) in rw full (ground arith)
      | inr room ↦ let most = insert_at_most key item c.entries in rw room (ground arith)
    ]
