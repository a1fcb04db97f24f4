-- ===== src/Event/Redispatch/Named.antt =====
-- event_bus.go: a redispatch for one listener.
use springo.Base.{
  subst, ℕ, zero, suc, ◌+◌, ◌≡◌, ◌≢◌, refl, sym, ap, ◌∙◌, true, false, List, [], ◌∷◌, Option, none,
  some, Text, ==_ne, text_key, text_eqb_iff, get_elem?, arith,
}
use springo.Event.Redispatch.{Listener, is_any, should_execute_handler, execute_redispatch_handlers}

should_execute_handler_other :
    (target current : Text)
    → is_any target ≡ false
    → target ≢ current
    → should_execute_handler target current ≡ false
unfolding should_execute_handler
should_execute_handler_other target current named apart =
    let differs = ==_ne target current apart in ground arith

should_execute_handler_self :
    (target current : Text) → target ≡ current → should_execute_handler target current ≡ true
unfolding should_execute_handler
should_execute_handler_self target current same =
    let agrees = (text_eqb_iff target current).1 same in ground arith

module _ {V W : Type 0} where
  -- Listeners whose names are all other ones do not run.
  skips :
      (name_of : ℕ → Text) (target : Text) (v : V) (index : ℕ) (err : Option Text)
      (handlers : List (Listener V W)) (w : W)
      → is_any target ≡ false
      → ((j : ℕ) → target ≢ name_of (index + j))
      → execute_redispatch_handlers name_of target v index err handlers w ≡ (err, w)
  unfolding execute_redispatch_handlers
  skips name_of target v index err [] w named apart = refl
  skips name_of target v index err (h ∷ handlers) w named apart =
      let shut : should_execute_handler target (name_of index) ≡ false =
        should_execute_handler_other target (name_of index) named
          (subst (λ n. target ≢ name_of n) (ground arith) (apart 0)) in
      rw shut (
        skips name_of target v (index + 1) err handlers w named
          (λ j. subst (λ n. target ≢ name_of n) (ground arith) (apart (1 + j))))

  runs_one :
      (name_of : ℕ → Text) (target : Text) (v : V) (index i : ℕ) (handlers : List (Listener V W))
      (h : Listener V W) (w : W)
      → ((j k : ℕ) → name_of j ≡ name_of k → j ≡ k)
      → is_any target ≡ false
      → target ≡ name_of (index + i)
      → get_elem? handlers i ≡ some h
      → execute_redispatch_handlers name_of target v index none handlers w ≡ h v w
  unfolding execute_redispatch_handlers
  runs_one name_of target v index i [] h w inj named t at_i = absurd (ground arith)
  runs_one name_of target v index zero (g ∷ handlers) h w inj named t at_i =
      let here : target ≡ name_of index = t ∙ ap name_of (ground arith) in
      let opens = should_execute_handler_self target (name_of index) here in
      let same : g ≡ h = ground arith in
      rw opens (
        skips name_of target v (index + 1) (g v w).0 handlers (g v w).1 named
          (λ j q. absurd (let r = inj index (index + 1 + j) (sym here ∙ q) in ground arith))
        ∙ ap (λ f. f v w) same)
  runs_one name_of target v index (suc i) (g ∷ handlers) h w inj named t at_i =
      let shut =
        should_execute_handler_other target (name_of index) named
          (λ q. absurd (let r = inj index (index + suc i) (sym q ∙ t) in ground arith)) in
      rw shut (
        runs_one name_of target v (index + 1) i handlers h w inj named
          (t ∙ ap name_of (ground arith)) at_i)

  -- A redispatch for the listener at an index runs that listener, once, and no other, where the
  -- names tell the listeners of a type apart and its name is none that stands for all of them: its
  -- error and its effect are the result.
  pub execute_redispatch_handlers-named :
      (name_of : ℕ → Text) (v : V) (i : ℕ) (handlers : List (Listener V W)) (h : Listener V W)
      (w : W)
      → ((j k : ℕ) → name_of j ≡ name_of k → j ≡ k)
      → is_any (name_of i) ≡ false
      → get_elem? handlers i ≡ some h
      → execute_redispatch_handlers name_of (name_of i) v 0 none handlers w ≡ h v w
  execute_redispatch_handlers-named name_of v i handlers h w inj named at_i =
      runs_one name_of (name_of i) v 0 i handlers h w inj named (ap name_of (ground arith)) at_i
