-- ===== src/Event/Redispatch/Tests.antt =====
-- Two listeners that count, redispatched by name.
use springo.Base.{executable, ℕ, ◌≡◌, refl, false, List, [], ◌∷◌, ◌++◌, none, Text, codes, arith}
use springo.Event.Redispatch.{
  Listener, is_any, after_last_dot, matches_event_type, find_event_handlers, should_execute_handler,
  has_name, has_matching_listener, execute_redispatch_handlers, redispatch_event,
}
use springo.Event.Redispatch.Named.{execute_redispatch_handlers-named}

program : Unit {0}
unfolding executable after_last_dot matches_event_type find_event_handlers should_execute_handler
    has_name has_matching_listener execute_redispatch_handlers redispatch_event
program = tt

-- The names end in their index.
abbrev name_of : ℕ → Text
name_of n = codes "app.Created#" ++ n ∷ []

abbrev listener : ℕ → Listener ℕ (List ℕ)
listener k v w = (none, k ∷ w)

abbrev both : List (Listener ℕ (List ℕ))
both = listener 10 ∷ listener 20 ∷ []

name_of-injective : (j k : ℕ) → name_of j ≡ name_of k → j ≡ k
name_of-injective j k e = ground arith

not_any : is_any (name_of 1) ≡ false
unfolding program
not_any = refl

execute_redispatch_handlers-named_example :
    execute_redispatch_handlers name_of (name_of 1) 7 0 none both [] ≡ listener 20 7 []
execute_redispatch_handlers-named_example =
    execute_redispatch_handlers-named name_of 7 1 both (listener 20) [] name_of-injective not_any
      refl

redispatches :
    redispatch_event
      (λ t payload. (none, 7))
      (λ t. name_of)
      ((record { full_name = codes "app.Created"; short_name = codes "Created" }, both) ∷ [])
      (codes "other.Created")
      (codes "{}")
      []
      []
    ≡ (none, 20 ∷ 10 ∷ [])
unfolding program
redispatches = refl
