-- ===== src/Cache/Tests.antt =====
-- A cache whose entries live for 10 nanoseconds.
use springo.Base.{
  executable, in_order, ◌≡◌, ◌≤◌, refl, [], ◌∷◌, List, none, some, codes, arith, pos, length,
}
use springo.Cache.{
  int64, MemoryCache, default_max_memory_cache_keys, get, set, is_expired, expiration_at, increment,
  current, make_room, evict_expired_items, drop_entry,
}
use springo.Cache.Store.{CacheCall, gets, evicts, sets, clears, increments, answers_of_cache}
use springo.Cache.Refinement.{answers_of_table, cache-Refines}
use springo.Cache.Entries.{get-set, length-set}

program : Unit {0}
unfolding executable get set is_expired expiration_at increment current make_room
    evict_expired_items drop_entry
program = tt

abbrev empty : MemoryCache
empty = record { ttl = pos 10; entries = [] }

get-set_example :
    (get 12 (codes "k") (set in_order 5 (codes "k") (int64 7) (pos 0) empty)).0 ≡ some (int64 7)
get-set_example = get-set in_order 5 12 (codes "k") (int64 7) (pos 0) empty (ground arith)

gone : (get 16 (codes "k") (set in_order 5 (codes "k") (int64 7) (pos 0) empty)).0 ≡ none
unfolding program
gone = refl

length-set_example :
    length (set in_order 5 (codes "k") (int64 7) (pos 0) empty).entries
    ≤ default_max_memory_cache_keys
length-set_example = length-set in_order 5 (codes "k") (int64 7) (pos 0) empty (ground arith)

counts :
    (increment 9 (codes "k") 2 (pos 0) (set in_order 5 (codes "k") (int64 7) (pos 0) empty)).0 ≡ 9
unfolding program
counts = refl

abbrev traffic : List CacheCall
traffic =
    sets 1 (codes "a") (int64 5) (pos 3)
    ∷ gets 2 (codes "a")
    ∷ increments 3 (codes "a") 2 (pos 0)
    ∷ gets 20 (codes "a")
    ∷ evicts 21 (codes "b")
    ∷ clears 22
    ∷ []

cache-Refines_example :
    answers_of_cache in_order traffic empty ≡ answers_of_table (pos 10) traffic (λ k. none)
cache-Refines_example =
    cache-Refines in_order 0 (pos 10) traffic
      (
        ground arith,
        (ground arith, (ground arith, (ground arith, (ground arith, (ground arith, tt))))),
      )
      (ground arith, (tt, (ground arith, (tt, (tt, (tt, tt)))))) (ground arith)
