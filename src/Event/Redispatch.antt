-- ===== src/Event/Redispatch.antt =====
-- framework/event/event_bus.go: redispatchEvent, by which a stored event is given to its listeners
-- again. An event type is its reflect names; json.Unmarshal and Sprintf("%s#%d") are parameters.
pub mod Named
mod Tests
use springo.Base.{
  ℕ, ◌+◌, Bool, true, false, List, [], ◌∷◌, ◌++◌, Option, none, some, Text, codes, ◌==◌, text_key,
  text_eqb, has_suffix, if◌then◌else◌, ◌||◌, not, nat_eqb,
}

pub record EventType : Type 0 where
  -- t.String(), and t.Name(), of the element of a pointer type.
  pub full_name : Text
  pub short_name : Text

-- What follows the last dot of a name.
unfoldable pub after_last_dot : Text → Text
after_last_dot [] = []
after_last_dot (c ∷ s) =
    let rest = after_last_dot s in if has_dot s then rest else if nat_eqb c 46 then s else c ∷ s
  where
    has_dot : Text → Bool
    has_dot [] = false
    has_dot (d ∷ t) = nat_eqb d 46 || has_dot t

unfoldable pub matches_event_type : EventType → Text → Bool
unfolding after_last_dot
matches_event_type t event_name =
    let clean = after_last_dot event_name in
    t.full_name == event_name
    || t.short_name == event_name
    || t.short_name == clean
    || has_suffix t.full_name (codes "." ++ event_name)
    || has_suffix event_name (codes "." ++ t.short_name)
    || has_suffix t.full_name (codes "." ++ clean)

pub data RedispatchError : Type 0 where
  no_listener not_registered : RedispatchError
  malformed listener_error : Text → RedispatchError

abbrev pub default_listener : Text
default_listener = codes "DefaultListener"

-- A listener, for V the values of events and W what the listeners act on.
abbrev pub Listener : Type 0 → Type 0 → Type 0
Listener V W = V → W → Option Text × W

abbrev pub is_any : Text → Bool
is_any target = target == [] || target == default_listener

unfoldable pub should_execute_handler : Text → Text → Bool
should_execute_handler target current = is_any target || target == current

module _ {V W : Type 0} where
  -- The loop over the map of listeners, in the order in which it is visited.
  unfoldable pub find_event_handlers :
      Text → List (EventType × List (Listener V W)) → Option (EventType × List (Listener V W))
  unfolding matches_event_type
  find_event_handlers event_name [] = none
  find_event_handlers event_name ((t, handlers) ∷ rest) =
      if matches_event_type t event_name
      then some (t, handlers)
      else find_event_handlers event_name rest

  -- The loop of hasMatchingListener, from an index on.
  unfoldable pub has_name : (ℕ → Text) → Text → ℕ → List (Listener V W) → Bool
  has_name name_of target index [] = false
  has_name name_of target index (h ∷ handlers) =
      target == name_of index || has_name name_of target (index + 1) handlers

  unfoldable pub has_matching_listener : (ℕ → Text) → List (Listener V W) → Text → Bool
  unfolding has_name
  has_matching_listener name_of handlers target =
      is_any target || has_name name_of target 0 handlers

  -- The loop of executeRedispatchHandlers: the first error is kept.
  unfoldable pub execute_redispatch_handlers :
      (ℕ → Text) → Text → V → ℕ → Option Text → List (Listener V W) → W → Option Text × W
  unfolding should_execute_handler
  execute_redispatch_handlers name_of target v index first_err [] w = (first_err, w)
  execute_redispatch_handlers name_of target v index first_err (h ∷ handlers) w =
      let runs = should_execute_handler target (name_of index) in
      let (err, w') = h v w in
      let kept : Option Text = elim first_err [ none ↦ err | some e ↦ some e ] in
      execute_redispatch_handlers name_of target v (index + 1) (if runs then kept else first_err)
        handlers (if runs then w' else w)

  unfoldable pub redispatch_event :
      (EventType → Text → (Option Text × V))
      → (EventType → ℕ → Text)
      → List (EventType × List (Listener V W))
      → Text
      → Text
      → Text
      → W
      → Option RedispatchError × W
  unfolding find_event_handlers has_matching_listener execute_redispatch_handlers
  redispatch_event unmarshal name_of listeners event_name payload target w =
      elim (find_event_handlers event_name listeners) [
        | none ↦ (some no_listener, w)
        | some (t, []) ↦ (some no_listener, w)
        | some (t, h ∷ hs) ↦ elim (unmarshal t payload).0 [
          | some e ↦ (some (malformed e), w)
          | none ↦
              if not (has_matching_listener (name_of t) (h ∷ hs) target)
              then (some not_registered, w)
              else (let (err, w') =
                    execute_redispatch_handlers (name_of t) target (unmarshal t payload).1 0 none
                      (h ∷ hs) w in
                  (elim err [ none ↦ none | some e ↦ some (listener_error e) ], w'))
        ]
      ]
