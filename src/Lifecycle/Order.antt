-- ===== src/Lifecycle/Order.antt =====
-- lifecycle.go: the order in which hooks run. It is fixed by the orders and names alone, whatever
-- order the runtime visits the map in.
use mathlib.Core.List.Permᴰ
use mathlib.Core.List.{Permᴰ, reverse}
use springo.Base.{
  ◌≡◌, ◌≢◌, ap, ◌∙◌, true, false, ◌⊎◌, [], ◌∷◌, map, Text, arith, text_key, text_ltb-asym,
  text_ltb-cotrans, text_ltb-connected, All, IsMap, sort_stable, Separated, WeakOrder, Iteration,
}
use springo.Base.Sorting.Laws.{sort_stable-eq_of_perm, sort_stable-opposite, Separated-perm}
use springo.Lifecycle.{
  Registration, Registry, snapshot, ascending, descending, run, run_forward, run_initializers,
  run_ready, run_shutdown,
}
use springo.Lifecycle.Registering.{IsWellFormed, Filed}

module _ {C W : Type 0} where
  pub ascending-WeakOrder : WeakOrder (ascending {C = C} {W = W})
  unfolding ascending
  ascending-WeakOrder = record {
    asym = λ a b h. ground (arith, text_ltb-asym a.name b.name, text_ltb-asym b.name a.name);
    cotrans = λ a b c h k. ground (arith, text_ltb-cotrans a.name b.name c.name);
  }

  descending-WeakOrder : WeakOrder (descending {C = C} {W = W})
  unfolding descending
  descending-WeakOrder = record {
    asym = λ a b h. ground (arith, text_ltb-asym b.name a.name);
    cotrans = λ a b c h k. ground (
      arith,
      text_ltb-asym b.name a.name,
      text_ltb-connected a.name b.name,
      text_ltb-cotrans c.name b.name a.name,
    );
  }

  descending_opposite : (a b : Registration C W) → descending a b ≡ ascending b a
  unfolding ascending descending
  descending_opposite a b = ground arith

  -- Registrations of different names are told apart.
  Separated-of_names :
      (r : Registry C W) → IsMap r → All Filed r → Separated ascending (map (λ p. p.1) r)
  unfolding ascending
  Separated-of_names [] u f = tt
  Separated-of_names (p ∷ r) u f = (apart p r f.0 u.0 f.1, Separated-of_names r u.1 f.1)
    where
      apart :
          (p : Text × Registration C W) (r : Registry C W)
          → Filed p
          → All (λ q. p.0 ≢ q.0) r
          → All Filed r
          → All (λ y. (ascending p.1 y ≡ true) ⊎ (ascending y p.1 ≡ true)) (map (λ q. q.1) r)
      apart p [] f a g = tt
      apart p (q ∷ r) f a g =
          (ground (arith, text_ltb-connected p.1.name q.1.name), apart p r f a.1 g.1)

  snapshot-Separated :
      (it : Iteration (Registration C W)) (r : Registry C W)
      → IsWellFormed r
      → Separated ascending (snapshot it r)
  unfolding snapshot
  snapshot-Separated it r v =
      Separated-perm ascending ascending-WeakOrder (Permᴰ.symm (it.visit-perm _))
        (Separated-of_names r v.unique v.filed)

  same_order :
      (it it' : Iteration (Registration C W)) (r : Registry C W)
      → IsWellFormed r
      → sort_stable ascending (snapshot it r) ≡ sort_stable ascending (snapshot it' r)
  unfolding snapshot
  same_order it it' r v =
      sort_stable-eq_of_perm ascending ascending-WeakOrder
        (Permᴰ.trans (it.visit-perm _) (Permᴰ.symm (it'.visit-perm _))) (snapshot-Separated it r v)

  -- Startup and ready hooks do the same whatever order the runtime visits the registry in.
  pub run_forward-iteration :
      (it it' : Iteration (Registration C W)) (ctx : C) (r : Registry C W) (w : W)
      → IsWellFormed r
      → (run_initializers it ctx r w ≡ run_initializers it' ctx r w)
        × (run_ready it ctx r w ≡ run_ready it' ctx r w)
  unfolding run_initializers run_ready run_forward
  run_forward-iteration it it' ctx r w v = (rw (same_order it it' r v), rw (same_order it it' r v))

  -- Shutdown runs the hooks in exactly the reverse of the startup order, and does not stop at an
  -- error.
  pub run_shutdown-reverse :
      (it it' : Iteration (Registration C W)) (ctx : C) (r : Registry C W) (w : W)
      → IsWellFormed r
      → run_shutdown it ctx r w ≡ run ctx (reverse (sort_stable ascending (snapshot it' r))) false w
  unfolding run_shutdown
  run_shutdown-reverse it it' ctx r w v =
      ap (λ hooks. run ctx hooks false w)
        (sort_stable-opposite ascending descending ascending-WeakOrder descending-WeakOrder
            descending_opposite (snapshot it r) (snapshot-Separated it r v)
          ∙ ap reverse (same_order it it' r v))
