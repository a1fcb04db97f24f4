-- ===== src/Lifecycle/Running.antt =====
-- lifecycle.go: what `run` does on errors and panics.
use mathlib.Core.List.{append-nil, append_assoc}
use springo.Base.{
  ◌≡◌, refl, ap, true, false, ◌⊎◌, inl, inr, List, [], ◌∷◌, ◌++◌, none, some, arith, Option-cases,
  Option,
}
use springo.Lifecycle.{
  Registration, HookError, Cause, Outcome, succeeds, fails, panics, returned, recovered, wrap, join,
  invoke, run_from, run,
}

-- Why a hook that ended in this way failed, where it did.
abbrev pub why : Outcome → Option Cause
why succeeds = none
why (fails e) = some (returned e)
why (panics e) = some (recovered e)

module _ {C W : Type 0} (ctx : C) where
  -- How the hook ended, and the state that it left.
  abbrev pub outcome_of : Registration C W → W → Outcome
  outcome_of item w = (item.hook ctx w).0

  abbrev pub after : Registration C W → W → W
  after item w = (item.hook ctx w).1

  invoke-why :
      (item : Registration C W) (w : W)
      → invoke ctx item w ≡ (why (outcome_of item w), after item w)
  unfolding invoke
  invoke-why item w = ap (λ cause. (cause, after item w)) (at (outcome_of item w))
    where
      at :
          (ended : Outcome)
          → (elim ended as (λ _. Option Cause) [
            | succeeds ↦ none
            | fails e ↦ some (returned e)
            | panics e ↦ some (recovered e)
          ])
            ≡ why ended
      at succeeds = refl
      at (fails e) = refl
      at (panics e) = refl

  -- The state after the hooks `items`, each run to its end.
  pub effects : List (Registration C W) → W → W
  effects [] w = w
  effects (item ∷ items) w = effects items (after item w)

  -- The errors of the hooks `items`, in their order.
  pub failures : List (Registration C W) → W → List HookError
  failures [] w = []
  failures (item ∷ items) w =
      let rest = failures items (after item w) in
      elim (why (outcome_of item w)) [ none ↦ rest | some cause ↦ wrap item cause ∷ rest ]

  run_from-collects :
      (errs : List HookError) (items : List (Registration C W)) (w : W)
      → run_from ctx false errs items w ≡ (join (errs ++ failures items w), effects items w)
  unfolding run_from failures effects
  run_from-collects errs [] w = rw append-nil
  run_from-collects errs (item ∷ items) w = ground (
    arith,
    invoke-why item w,
    run_from-collects errs items (after item w),
    run_from-collects (errs ++ failure) items (after item w),
    append_assoc errs failure (failures items (after item w)),
  )
    where
      failure : List HookError
      failure = elim (why (outcome_of item w)) [ none ↦ [] | some cause ↦ wrap item cause ∷ [] ]

  -- Without fail-fast every hook runs, also after errors and panics, and the result lists exactly
  -- the errors, in the order of the hooks; it is nil where there is none.
  pub run-collects :
      (items : List (Registration C W)) (w : W)
      → run ctx items false w ≡ (join (failures items w), effects items w)
  unfolding run
  run-collects items w = run_from-collects [] items w

  abbrev pub FailsFast : List (Registration C W) → W → Type 0
  FailsFast items w =
      ((before : List (Registration C W)) × (item : Registration C W) × (later : List
          (Registration C W))
        × (cause : Cause) × (items ≡ before ++ item ∷ later)
        × (failures before w ≡ [])
        × (why (outcome_of item (effects before w)) ≡ some cause)
        × (run ctx items true w ≡ (some (wrap item cause ∷ []), effects (before ++ item ∷ []) w)))
      ⊎ ((failures items w ≡ []) × (run ctx items true w ≡ (none, effects items w)))

  -- With fail-fast the run stops at the first hook that returns an error or panics: those before it
  -- succeeded, those behind it did not run, and its error alone is returned. Otherwise every hook ran
  -- and succeeded.
  pub run-fail_fast : (items : List (Registration C W)) (w : W) → FailsFast items w
  unfolding run run_from failures effects
  run-fail_fast [] w = inr (refl, refl)
  run-fail_fast (item ∷ items) w = elim (Option-cases (why (outcome_of item w))) [
    | inr (cause, e) ↦
        let i = invoke-why item w in inl ([], item, items, cause, refl, refl, e, ground arith)
    | inl e ↦
        let i = invoke-why item w in
        elim (run-fail_fast items (after item w)) [
          | inr (clean, same) ↦ inr (ground arith, ground arith)
          | inl (before, bad, later, cause, split, clean, hit, same) ↦
              inl (item ∷ before, bad, later, cause, ground arith, ground arith, hit, ground arith)
        ]
  ]
