-- ===== src/Cache/Storing.antt =====
-- memory_provider.go: the cache is answered as the store of items, while its capacity is not reached.
use springo.Base.{
  ℕ, ◌+◌, ◌≤◌, ◌<◌, ◌^◌, ◌%◌, ◌≡◌, refl, sym, ap, ◌∙◌, inl, inr, Bool, true, false, List, [], ◌∷◌,
  Option, none, some, Text, ◌==◌, text_key, lookup, insert, delete, lookup-insert, lookup-delete,
  length-insert, length-delete, length, leb, if◌then◌else◌, ℤ, Iteration, Bool-cases, arith,
  text_eqb_iff, subst,
}
use springo.Cache.{
  Value, int64, CacheItem, MemoryCache, is_expired, expiration_at, get, set, evict, clear, current,
  increment, make_room, default_max_memory_cache_keys,
}
use springo.Cache.Store.{
  CacheCall, gets, evicts, sets, clears, increments, value, number, time_of, call_cache, Store,
  visible, value_of, put, call_store, answers_of_cache, answers_of_store, InTurn, Refines,
}

expired_later :
    (t u : ℕ) (item : CacheItem) → t ≤ u → is_expired t item ≡ true → is_expired u item ≡ true
unfolding is_expired
expired_later t u item l e = ground arith

pub current-visible : (now : ℕ) (o : Option CacheItem) → current now (visible now o) ≡ current now o
unfolding current
current-visible now none = refl
current-visible now (some item) = elim (Bool-cases (is_expired now item)) [
  | inl gone ↦ rw gone refl
  | inr live ↦ rw live (rw live refl)
]

-- Both sides of a key that is put.
put_same :
    (t : ℕ) (key : Text) (item : CacheItem) (entries : List (Text × CacheItem)) (m : Store)
    → ((k : Text) (u : ℕ) → t ≤ u → visible u (lookup k entries) ≡ visible u (m k))
    → (k : Text) (u : ℕ) → t ≤ u
    → visible u (lookup k (insert key item entries)) ≡ visible u (put key (some item) m k)
put_same t key item entries m r k u l =
    ap (visible u) (lookup-insert key k item entries) ∙ at (key == k)
  where
    at :
        (b : Bool)
        → visible u (if b then some item else lookup k entries)
          ≡ visible u (if b then some item else m k)
    at true = refl
    at false = r k u l

delete_same :
    (t : ℕ) (key : Text) (entries : List (Text × CacheItem)) (m : Store)
    → ((k : Text) (u : ℕ) → t ≤ u → visible u (lookup k entries) ≡ visible u (m k))
    → (k : Text) (u : ℕ) → t ≤ u
    → visible u (lookup k (delete key entries)) ≡ visible u (put key none m k)
delete_same t key entries m r k u l = ap (visible u) (lookup-delete key k entries) ∙ at (key == k)
  where
    at :
        (b : Bool)
        → visible u (if b then none else lookup k entries) ≡ visible u (if b then none else m k)
    at true = refl
    at false = r k u l

-- What one call keeps.
abbrev Simulates : Iteration (Text × CacheItem) → CacheCall → MemoryCache → Store → Type 0
Simulates it call c m =
    ((call_cache it call c).0 ≡ (call_store c.ttl call m).0)
    × Refines (time_of call) (call_cache it call c).1 (call_store c.ttl call m).1
    × ((call_cache it call c).1.ttl ≡ c.ttl)
    × (length (call_cache it call c).1.entries ≤ length c.entries + 1)

-- What Get leaves, by what it finds.
abbrev found_by : ℕ → Text → MemoryCache → Option CacheItem → Option Value × MemoryCache
found_by now key c none = (none, c)
found_by now key c (some item) =
    if is_expired now item
    then (none, record c { entries = delete key c.entries })
    else (some item.value, c)

get-found_by :
    (now : ℕ) (key : Text) (c : MemoryCache)
    → get now key c ≡ found_by now key c (lookup key c.entries)
unfolding get
get-found_by now key c = at (lookup key c.entries)
  where
    at :
        (o : Option CacheItem)
        → (elim o as (λ _. Option Value × MemoryCache) [
          | none ↦ (none, c)
          | some item ↦
              if is_expired now item
              then (none, record c { entries = delete key c.entries })
              else (some item.value, c)
        ])
          ≡ found_by now key c o
    at none = refl
    at (some item) = refl

-- What is left of a Get, and its answer.
abbrev GetKeeps :
    ℕ → Text → MemoryCache → Store → Option CacheItem → Option Value × MemoryCache → Type 0
GetKeeps now key c m o r =
    (r.0 ≡ value_of (visible now o))
    × Refines now r.1 m
    × (r.1.ttl ≡ c.ttl)
    × (length r.1.entries ≤ length c.entries + 1)

found_by-GetKeeps :
    (now : ℕ) (key : Text) (c : MemoryCache) (m : Store) (o : Option CacheItem)
    → Refines now c m
    → lookup key c.entries ≡ o
    → GetKeeps now key c m o (found_by now key c o)
found_by-GetKeeps now key c m none r e = (refl, r, refl, omega arith)
found_by-GetKeeps now key c m (some item) r e = at (is_expired now item) refl
  where
    gone : is_expired now item ≡ true → Refines now (record c { entries = delete key c.entries }) m
    gone x k u l = ap (visible u) (lookup-delete key k c.entries) ∙ same (key == k) refl
      where
        hidden : visible u (some item) ≡ none
        hidden = rw (expired_later now u item l x) refl

        same :
            (b : Bool)
            → (key == k) ≡ b
            → visible u (if b then none else lookup k c.entries) ≡ visible u (m k)
        same false d = r k u l
        same true d =
            sym hidden
            ∙ ap (visible u) (sym e)
            ∙ ap (λ j. visible u (lookup j c.entries)) ((text_eqb_iff key k).0 d)
            ∙ r k u l

    left : Bool → Option Value × MemoryCache
    left b = if b then (none, record c { entries = delete key c.entries }) else (some item.value, c)

    shown : Bool → Option CacheItem
    shown b = if b then none else some item

    at :
        (b : Bool)
        → is_expired now item ≡ b
        → ((left b).0 ≡ value_of (shown b))
          × Refines now (left b).1 m
          × ((left b).1.ttl ≡ c.ttl)
          × (length (left b).1.entries ≤ length c.entries + 1)
    at true x = (refl, gone x, refl, (let shorter = length-delete key c.entries in omega arith))
    at false x = (refl, r, refl, omega arith)

length-insert_le :
    (key : Text) (item : CacheItem) (entries : List (Text × CacheItem))
    → length (insert key item entries) ≤ length entries + 1
length-insert_le key item entries = ground (arith, length-insert key item entries)

-- With room, Set only stores.
set-room :
    (it : Iteration (Text × CacheItem)) (now : ℕ) (key : Text) (v : Value) (ttl : ℤ)
    (c : MemoryCache)
    → length c.entries < default_max_memory_cache_keys
    → (set it now key v ttl c).entries
      ≡ insert key (record { value = v; expiration = expiration_at now ttl c.ttl }) c.entries
unfolding set
set-room it now key v ttl c room =
    ap (insert key (record { value = v; expiration = expiration_at now ttl c.ttl })) (
      at (lookup key c.entries) (leb default_max_memory_cache_keys (length c.entries))
        (ground arith))
  where
    at :
        (o : Option CacheItem) (full : Bool)
        → full ≡ false
        → (elim o as (λ _. List (Text × CacheItem)) [
          | some _ ↦ c.entries
          | none ↦ if full then make_room it now c.entries else c.entries
        ])
          ≡ c.entries
    at (some item) full e = refl
    at none true e = absurd (ground arith)
    at none false e = refl

Refines-later : (t u : ℕ) (c : MemoryCache) (m : Store) → t ≤ u → Refines t c m → Refines u c m
Refines-later t u c m l r k v h = r k v (omega arith)

-- Each call is answered as the store answers it, and keeps the two alike.
call_cache-Simulates :
    (it : Iteration (Text × CacheItem)) (t : ℕ) (call : CacheCall) (c : MemoryCache) (m : Store)
    → t ≤ time_of call
    → length c.entries < default_max_memory_cache_keys
    → Refines t c m
    → Simulates it call c m
unfolding evict clear increment
call_cache-Simulates it t (gets now key) c m l room r =
    let later = Refines-later t now c m l r in
    let (answer, alike, same, short) =
      subst (GetKeeps now key c m (lookup key c.entries)) (sym (get-found_by now key c))
        (found_by-GetKeeps now key c m (lookup key c.entries) later refl) in
    (ap value (answer ∙ ap value_of (r key now l)), alike, same, short)
call_cache-Simulates it t (evicts now key) c m l room r =
    let shorter = length-delete key c.entries in
    (refl, delete_same now key c.entries m (Refines-later t now c m l r), refl, omega arith)
call_cache-Simulates it t (clears now) c m l room r =
    (refl, (λ k u h. unfold lookup in refl), refl, omega arith)
call_cache-Simulates it t (sets now key v ttl) c m l room r =
    let item : CacheItem = record { value = v; expiration = expiration_at now ttl c.ttl } in
    let stored = set-room it now key v ttl c room in
    let longer = length-insert_le key item c.entries in
    (
      refl,
      (λ k u h.
          ap (λ es. visible u (lookup k es)) stored
          ∙ put_same now key item c.entries m (Refines-later t now c m l r) k u h),
      (unfold set in refl),
      subst (λ es. length es ≤ length c.entries + 1) (sym stored) longer,
    )
call_cache-Simulates it t (increments now key delta ttl) c m l room r =
    let later = Refines-later t now c m l r in
    let start = current now (lookup key c.entries) in
    let same : start ≡ current now (visible now (m key)) =
      sym (current-visible now (lookup key c.entries)) ∙ ap (current now) (r key now l) in
    let item : ℕ → CacheItem = λ n. record {
      value = int64 ((n + delta) % 2 ^ 64);
      expiration = expiration_at now ttl c.ttl;
    } in
    subst
      (λ n.
        (number ((start + delta) % 2 ^ 64) ≡ number ((n + delta) % 2 ^ 64))
        × Refines now (increment now key delta ttl c).1 (put key (some (item n)) m)
        × (c.ttl ≡ c.ttl)
        × (length (insert key (item start) c.entries) ≤ length c.entries + 1))
      same
      (
        refl,
        put_same now key (item start) c.entries m later,
        refl,
        length-insert_le key (item start) c.entries,
      )

answers_agree :
    (it : Iteration (Text × CacheItem)) (t : ℕ) (calls : List CacheCall) (c : MemoryCache)
    (m : Store)
    → InTurn t calls
    → length c.entries + length calls ≤ default_max_memory_cache_keys
    → Refines t c m
    → answers_of_cache it calls c ≡ answers_of_store c.ttl calls m
answers_agree it t [] c m turn room r = refl
answers_agree it t (call ∷ calls) c m turn room r =
    let (answer, alike, same, short) = call_cache-Simulates it t call c m turn.0 (omega arith) r in
    let rest =
      answers_agree it (time_of call) calls (call_cache it call c).1 (call_store c.ttl call m).1
        turn.1 (omega arith) alike in
    ap (λ a. a ∷ answers_of_cache it calls (call_cache it call c).1) answer
    ∙ ap (λ l. (call_store c.ttl call m).0 ∷ l)
        (rest ∙ ap (λ ttl. answers_of_store ttl calls (call_store c.ttl call m).1) same)

-- Answered by the store of items, where the cache is empty at first and has room for all calls.
pub cache_stores :
    (it : Iteration (Text × CacheItem)) (t : ℕ) (ttl : ℤ) (calls : List CacheCall)
    → InTurn t calls
    → length calls ≤ default_max_memory_cache_keys
    → answers_of_cache it calls (record { ttl = ttl; entries = [] })
      ≡ answers_of_store ttl calls (λ k. none)
cache_stores it t ttl calls turn room =
    answers_agree it t calls (record { ttl = ttl; entries = [] }) (λ k. none) turn (omega arith)
      (λ k u h. unfold lookup in refl)
