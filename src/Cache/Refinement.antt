-- ===== src/Cache/Refinement.antt =====
-- memory_provider.go: the cache as its clients see it, a map whose values live for a time.
use springo.Base.{
  ℕ, ◌+◌, ◌≤◌, ◌^◌, ◌%◌, ◌≡◌, refl, ap, ◌∙◌, inl, inr, Bool, true, false, List, [], ◌∷◌, Option,
  none, some, Text, ◌==◌, text_key, if◌then◌else◌, not, ℤ, length, Iteration, Bool-cases, subst,
}
use springo.Cache.{
  Value, int, int64, float64, other_type, CacheItem, default_max_memory_cache_keys, is_expired,
  current,
}
use springo.Cache.Lifetimes.{
  lifetime, last_moment, is_alive, Fits, StandsFor, expiration_at-StandsFor, is_expired-StandsFor,
}
use springo.Cache.Store.{
  CacheCall, gets, evicts, sets, clears, increments, Answer, value, number, nothing, Store, visible,
  value_of, put, call_store, answers_of_cache, answers_of_store, InTurn,
}
use springo.Cache.Storing.{current-visible, cache_stores}

-- A value with the last moment of its life, if it has one.
pub record Kept : Type 0 where
  pub kept : Value
  pub last : Option ℕ

abbrev pub Table : Type 0
Table = Text → Option Kept

-- The value that is there now.
abbrev pub seen : ℕ → Option Kept → Option Value
seen now none = none
seen now (some k) = if is_alive now k.last then some k.kept else none

-- The number that a value stands for, 0 for what is not there or is none.
abbrev pub number_of : Option Value → ℕ
number_of none = 0
number_of (some (int n)) = n
number_of (some (int64 n)) = n
number_of (some (float64 n)) = n
number_of (some (other_type n)) = 0

abbrev pub lives : ℕ → Value → ℤ → ℤ → Option Kept
lives now v ttl default = some (record { kept = v; last = last_moment now (lifetime ttl default) })

abbrev pub put_kept : Text → Option Kept → Table → Table
put_kept key o m k = if key == k then o else m k

-- What a call does to the map, where values live for `default` at most.
abbrev pub call_table : ℤ → CacheCall → Table → Answer × Table
call_table default (gets now key) m = (value (seen now (m key)), m)
call_table default (evicts now key) m = (nothing, put_kept key none m)
call_table default (sets now key v ttl) m = (nothing, put_kept key (lives now v ttl default) m)
call_table default (clears now) m = (nothing, λ k. none)
call_table default (increments now key delta ttl) m =
    let total = (number_of (seen now (m key)) + delta) % 2 ^ 64 in
    (number total, put_kept key (lives now (int64 total) ttl default) m)

abbrev pub answers_of_table : ℤ → List CacheCall → Table → List Answer
answers_of_table ttl [] m = []
answers_of_table ttl (call ∷ calls) m =
    (call_table ttl call m).0 ∷ answers_of_table ttl calls (call_table ttl call m).1

-- No value is set to live beyond what an int64 holds.
abbrev pub CallFits : ℤ → CacheCall → Type 0
CallFits default (sets now key v ttl) = Fits (last_moment now (lifetime ttl default))
CallFits default (increments now key delta ttl) = Fits (last_moment now (lifetime ttl default))
CallFits default _ = Unit

abbrev pub AllFit : ℤ → List CacheCall → Type 0
AllFit default [] = Unit
AllFit default (call ∷ calls) = CallFits default call × AllFit default calls

-- An item that stands for what is kept.
abbrev Matches : Option CacheItem → Option Kept → Type 0
Matches none none = Unit
Matches none (some k) = ⊥
Matches (some item) none = ⊥
Matches (some item) (some k) = (item.value ≡ k.kept) × StandsFor item.expiration k.last

seen_if :
    (item : CacheItem) (v : Value) (b : Bool)
    → item.value ≡ v
    → value_of (if not b then none else some item) ≡ (if b then some v else none)
seen_if item v true e = ap some e
seen_if item v false e = refl

visible-seen :
    (now : ℕ) (o : Option CacheItem) (k : Option Kept)
    → Matches o k
    → value_of (visible now o) ≡ seen now k
visible-seen now none none h = refl
visible-seen now none (some k) h = absurd h
visible-seen now (some item) none h = absurd h
visible-seen now (some item) (some k) h =
    rw (is_expired-StandsFor now item k.last h.1) (seen_if item k.kept (is_alive now k.last) h.0)

current_of_value :
    (item : CacheItem) (v : Value)
    → item.value ≡ v
    → (elim item.value as (λ _. ℕ) [ int n ↦ n | int64 n ↦ n | float64 n ↦ n | other_type _ ↦ 0 ])
      ≡ number_of (some v)
current_of_value item (int n) e = rw e refl
current_of_value item (int64 n) e = rw e refl
current_of_value item (float64 n) e = rw e refl
current_of_value item (other_type n) e = rw e refl

current-number_of :
    (now : ℕ) (o : Option CacheItem) → current now o ≡ number_of (value_of (visible now o))
unfolding current
current-number_of now none = refl
current-number_of now (some item) = elim (Bool-cases (is_expired now item)) [
  | inl gone ↦ rw gone refl
  | inr live ↦ rw live (current_of_value item item.value refl)
]

put-Matches :
    (key : Text) (o : Option CacheItem) (k : Option Kept) (m : Store) (s : Table)
    → Matches o k
    → ((j : Text) → Matches (m j) (s j))
    → (j : Text) → Matches (put key o m j) (put_kept key k s j)
put-Matches key o k m s h r j = at (key == j)
  where
    at : (b : Bool) → Matches (if b then o else m j) (if b then k else s j)
    at true = h
    at false = r j

-- Answered alike, and alike again.
abbrev Same : Answer × Store → Answer × Table → Type 0
Same p q = (p.0 ≡ q.0) × ((j : Text) → Matches (p.1 j) (q.1 j))

call_store-Same :
    (default : ℤ) (call : CacheCall) (m : Store) (s : Table)
    → CallFits default call
    → ((j : Text) → Matches (m j) (s j))
    → Same (call_store default call m) (call_table default call s)
call_store-Same default (gets now key) m s f r =
    (ap value (visible-seen now (m key) (s key) (r key)), r)
call_store-Same default (evicts now key) m s f r = (refl, put-Matches key none none m s tt r)
call_store-Same default (clears now) m s f r = (refl, λ j. tt)
call_store-Same default (sets now key v ttl) m s f r = (
  refl,
  put-Matches key _ (lives now v ttl default) m s (refl, expiration_at-StandsFor now ttl default f)
      r,
)
call_store-Same default (increments now key delta ttl) m s f r =
    let from = current now (visible now (m key)) in
    let same : from ≡ number_of (seen now (s key)) =
      current-visible now (m key)
      ∙ current-number_of now (m key)
      ∙ ap number_of (visible-seen now (m key) (s key) (r key)) in
    subst
      (λ n. Same (call_store default (increments now key delta ttl) m) (
        number ((n + delta) % 2 ^ 64),
        put_kept key (lives now (int64 ((n + delta) % 2 ^ 64)) ttl default) s,
      ))
      same
      (
        refl,
        put-Matches key _ (lives now (int64 ((from + delta) % 2 ^ 64)) ttl default) m s
            (refl, expiration_at-StandsFor now ttl default f) r,
      )

answers_same :
    (default : ℤ) (calls : List CacheCall) (m : Store) (s : Table)
    → AllFit default calls
    → ((j : Text) → Matches (m j) (s j))
    → answers_of_store default calls m ≡ answers_of_table default calls s
answers_same default [] m s f r = refl
answers_same default (call ∷ calls) m s f r =
    let (answer, alike) = call_store-Same default call m s f.0 r in
    ap (λ a. a ∷ answers_of_store default calls (call_store default call m).1) answer
    ∙ ap (λ l. (call_table default call s).0 ∷ l)
        (answers_same default calls (call_store default call m).1 (call_table default call s).1 f.1
          alike)

-- Calls that come one after the other on an empty cache, at most as many as its capacity, are
-- answered as by a map without a bound, in which a value is there up to the last moment of its life:
-- its own time where that is positive, the cache's where it is 0, and no end where it is negative.
-- The last moments are such that an int64 holds them.
pub cache-Refines :
    (it : Iteration (Text × CacheItem)) (t : ℕ) (ttl : ℤ) (calls : List CacheCall)
    → InTurn t calls
    → AllFit ttl calls
    → length calls ≤ default_max_memory_cache_keys
    → answers_of_cache it calls (record { ttl = ttl; entries = [] })
      ≡ answers_of_table ttl calls (λ k. none)
cache-Refines it t ttl calls turn fits room =
    cache_stores it t ttl calls turn room
    ∙ answers_same ttl calls (λ k. none) (λ k. none) fits (λ j. tt)
