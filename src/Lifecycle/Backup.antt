-- ===== src/Lifecycle/Backup.antt =====
-- lifecycle.go: BackupRegistrations clears the registries and puts them back.
use mathlib.Core.List.Permᴰ
use mathlib.Core.List.{Permᴰ}
use springo.Base.{
  ◌≡◌, refl, ◌≢◌, sym, ap, ◌∙◌, Bool, true, ◌⊎◌, List, [], ◌∷◌, map, Option, none, some, Text,
  arith, ◌==◌, text_key, text_eqb_iff, text_ltb, text_ltb-asym, text_ltb-cotrans,
  text_ltb-connected, text_ltb_irrefl, All, IsMap, lookup, insert, lookup-insert, if◌then◌else◌,
  Separated, WeakOrder, Iteration,
}
use springo.Base.Sorting.Laws.{Separated-perm}
use springo.Lifecycle.{
  Registration, Registry, Registries, snapshot, replace, store_all, backup_registrations,
}
use springo.Lifecycle.Registering.{IsWellFormed, Filed}

module _ {C W : Type 0} where
  abbrev by_name : Registration C W → Registration C W → Bool
  by_name a b = text_ltb a.name b.name

  by_name-WeakOrder : WeakOrder by_name
  by_name-WeakOrder = record {
    asym = λ a b h. text_ltb-asym a.name b.name h;
    cotrans = λ a b c h k. text_ltb-cotrans a.name b.name c.name h k;
  }

  find_named : Text → List (Registration C W) → Option (Registration C W)
  find_named k [] = none
  find_named k (x ∷ xs) = if x.name == k then some x else find_named k xs

  find_named_absent :
      (k : Text) (x : Registration C W) (xs : List (Registration C W))
      → x.name ≡ k
      → All (λ y. (by_name x y ≡ true) ⊎ (by_name y x ≡ true)) xs
      → find_named k xs ≡ none
  unfolding find_named
  find_named_absent k x [] e a = refl
  find_named_absent k x (y ∷ ys) e a =
      ground (arith, text_eqb_iff y.name k, text_ltb_irrefl k, find_named_absent k x ys e a.1)

  find_named-perm :
      (k : Text) {xs ys : List (Registration C W)}
      → Permᴰ xs ys
      → Separated by_name xs
      → find_named k xs ≡ find_named k ys
  unfolding find_named
  find_named-perm k Permᴰ.nil h = refl
  find_named-perm k (Permᴰ.cons {b = b} e p) h =
      rw e (ap (λ rest. if b.name == k then some b else rest) (find_named-perm k p h.1))
  find_named-perm k (Permᴰ.swap {a = a} {b = b} {l = l} e d) h =
      rw (← e, ← d)
        (ground (arith, text_eqb_iff a.name k, text_eqb_iff b.name k, text_ltb_irrefl k, h.0.0))
  find_named-perm k (Permᴰ.trans p q) h =
      find_named-perm k p h ∙ find_named-perm k q (Separated-perm by_name by_name-WeakOrder p h)

  lookup-store_all :
      (k : Text) (r : Registry C W) (items : List (Registration C W))
      → Separated by_name items
      → lookup k (store_all r items)
        ≡ elim (find_named k items) [ none ↦ lookup k r | some x ↦ some x ]
  unfolding store_all find_named
  lookup-store_all k r [] h = refl
  lookup-store_all k r (x ∷ xs) h = ground (
    arith,
    text_eqb_iff x.name k,
    lookup-store_all k (insert x.name x r) xs h.1,
    lookup-insert x.name k x r,
    find_named_absent k x xs,
    h.0,
  )

  find_named-values :
      (k : Text) (r : Registry C W) → All Filed r → find_named k (map (λ p. p.1) r) ≡ lookup k r
  unfolding find_named lookup
  find_named-values k [] f = refl
  find_named-values k ((j, x) ∷ r) f = rw (f.0.0, find_named-values k r f.1)

  Separated-by_name :
      (r : Registry C W) → IsMap r → All Filed r → Separated by_name (map (λ p. p.1) r)
  Separated-by_name [] u f = tt
  Separated-by_name (p ∷ r) u f = (apart p r f.0 u.0 f.1, Separated-by_name r u.1 f.1)
    where
      apart :
          (p : Text × Registration C W) (r : Registry C W)
          → Filed p
          → All (λ q. p.0 ≢ q.0) r
          → All Filed r
          → All (λ y. (by_name p.1 y ≡ true) ⊎ (by_name y p.1 ≡ true)) (map (λ q. q.1) r)
      apart p [] f a g = tt
      apart p (q ∷ r) f a g = (
        text_ltb-connected p.1.name q.1.name (λ e. a.0 (f.0 ∙ e ∙ sym g.0.0)),
        apart p r f a.1 g.1,
      )

  replace-snapshot :
      (it : Iteration (Registration C W)) (r : Registry C W) (k : Text)
      → IsWellFormed r
      → lookup k (replace (snapshot it r)) ≡ lookup k r
  unfolding replace snapshot lookup
  replace-snapshot it r k v =
      let values = map (λ p. p.1) r in
      let apart = Separated-by_name r v.unique v.filed in
      let moved = Permᴰ.symm (it.visit-perm values) in
      lookup-store_all k [] (it.visit values) (Separated-perm by_name by_name-WeakOrder moved apart)
      ∙ ap (λ (o : Option (Registration C W)). elim o [ none ↦ lookup k [] | some x ↦ some x ])
          (sym (find_named-perm k moved apart) ∙ find_named-values k r v.filed)
      ∙ same (lookup k r)
    where
      same : (o : Option (Registration C W)) → elim o [ none ↦ lookup k [] | some x ↦ some x ] ≡ o
      same none = refl
      same (some x) = refl

  -- The backup leaves three empty registries, and the function that it returns puts back every
  -- registration, whatever was registered in between and whatever order the maps are visited in.
  pub backup_registrations-restores :
      (it : Iteration (Registration C W)) (s later : Registries C W) (k : Text)
      → IsWellFormed s.initializers
      → IsWellFormed s.ready_hooks
      → IsWellFormed s.shutdown_hooks
      → let (cleared, restore) = backup_registrations it s in
        (cleared ≡ record { initializers = []; ready_hooks = []; shutdown_hooks = [] })
        × (lookup k (restore later).initializers ≡ lookup k s.initializers)
        × (lookup k (restore later).ready_hooks ≡ lookup k s.ready_hooks)
        × (lookup k (restore later).shutdown_hooks ≡ lookup k s.shutdown_hooks)
  unfolding backup_registrations
  backup_registrations-restores it s later k u v w = (
    refl,
    replace-snapshot it s.initializers k u,
    replace-snapshot it s.ready_hooks k v,
    replace-snapshot it s.shutdown_hooks k w,
  )
