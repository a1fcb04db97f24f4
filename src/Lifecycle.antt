-- ===== src/Lifecycle.antt =====
-- framework/lifecycle/lifecycle.go: the registries of startup, ready and shutdown hooks. A hook is a
-- function of the context that acts on the state `W` of the program around it; a panic is one of
-- its outcomes. The mutex of a registry is left out: each operation holds it throughout.
pub mod Registering
pub mod Order
pub mod Running
pub mod Backup
mod Tests
use springo.Base.{
  ◌≡◌, Bool, true, false, List, [], ◌∷◌, ◌++◌, map, Option, none, some, Text, ◌==◌, text_key,
  text_ltb, lookup, insert, if◌then◌else◌, sort_stable, ℤ, ltb_ℤ, eqb_ℤ, Iteration,
}

-- What calling a hook comes to.
pub data Outcome : Type 0 where
  succeeds : Outcome
  fails panics : Text → Outcome

abbrev pub Hook : Type 0 → Type 0 → Type 0
Hook C W = C → W → Outcome × W

pub record Registration (C W : Type 0) : Type 0 where
  pub name : Text
  pub order : ℤ
  pub hook : Hook C W

-- The map `hooks`.
abbrev pub Registry : Type 0 → Type 0 → Type 0
Registry C W = List (Text × Registration C W)

pub data Misuse : Type 0 where
  name_required nil_hook : Misuse
  already_registered : Text → Misuse

pub data Registered (C W : Type 0) : Type 0 where
  registered : Registry C W → Registered C W
  panicked : Misuse → Registered C W

pub data Cause : Type 0 where
  returned recovered : Text → Cause

-- "lifecycle hook %q failed: %w"
pub record HookError : Type 0 where
  pub hook_name : Text
  pub cause : Cause

-- errors.Join: nil where no error was collected.
abbrev pub join : List HookError → Option (List HookError)
join [] = none
join (e ∷ es) = some (e ∷ es)

module _ {C W : Type 0} where
  unfoldable pub new_registry : Registry C W
  new_registry = []

  unfoldable pub add_hook : Text → ℤ → Hook C W → Registry C W → Registered C W
  add_hook name order hook r = elim (lookup name r) [
    | some _ ↦ panicked (already_registered name)
    | none ↦ registered (insert name (record { name = name; order = order; hook = hook }) r)
  ]

  -- `none` is the nil hook.
  unfoldable pub register : Text → ℤ → Option (Hook C W) → Registry C W → Registered C W
  unfolding add_hook
  register name order hook r =
      if name == []
      then panicked name_required
      else (elim hook [ none ↦ panicked nil_hook | some h ↦ add_hook name order h r ])

  unfoldable pub invoke : C → Registration C W → W → Option Cause × W
  invoke ctx item w =
      let (outcome, w') = item.hook ctx w in
      (
        elim outcome [
          | succeeds ↦ none
          | fails e ↦ some (returned e)
          | panics e ↦ some (recovered e)
        ],
        w',
      )

  abbrev pub wrap : Registration C W → Cause → HookError
  wrap item cause = record { hook_name = item.name; cause = cause }

  -- The loop of `run`; `errs` are the errors so far, newest last.
  unfoldable pub run_from :
      C → Bool → List HookError → List (Registration C W) → W → Option (List HookError) × W
  run_from ctx fail_fast errs [] w = (join errs, w)
  run_from ctx fail_fast errs (item ∷ items) w =
      let (failure, w') = invoke ctx item w in
      elim failure [
        | none ↦ run_from ctx fail_fast errs items w'
        | some cause ↦ elim fail_fast [
          | true ↦ (some (wrap item cause ∷ []), w')
          | false ↦ run_from ctx fail_fast (errs ++ wrap item cause ∷ []) items w'
        ]
      ]

  unfoldable pub run : C → List (Registration C W) → Bool → W → Option (List HookError) × W
  run ctx hooks fail_fast = run_from ctx fail_fast [] hooks

  unfoldable pub snapshot : Iteration (Registration C W) → Registry C W → List (Registration C W)
  snapshot it r = it.visit (map (λ p. p.1) r)

  -- The comparators of runForward and RunShutdown.
  unfoldable pub ascending : Registration C W → Registration C W → Bool
  ascending a b = if eqb_ℤ a.order b.order then text_ltb a.name b.name else ltb_ℤ a.order b.order

  unfoldable pub descending : Registration C W → Registration C W → Bool
  descending a b = if eqb_ℤ a.order b.order then text_ltb b.name a.name else ltb_ℤ b.order a.order

  unfoldable pub run_forward : C → List (Registration C W) → Bool → W → Option (List HookError) × W
  unfolding ascending
  run_forward ctx hooks fail_fast = run ctx (sort_stable ascending hooks) fail_fast

  -- The registry's own operations, on the registry of their phase.
  unfoldable pub run_initializers :
      Iteration (Registration C W) → C → Registry C W → W → Option (List HookError) × W
  unfolding run_forward snapshot
  run_initializers it ctx r = run_forward ctx (snapshot it r) true

  unfoldable pub run_ready :
      Iteration (Registration C W) → C → Registry C W → W → Option (List HookError) × W
  unfolding run_forward snapshot
  run_ready it ctx r = run_forward ctx (snapshot it r) false

  unfoldable pub run_shutdown :
      Iteration (Registration C W) → C → Registry C W → W → Option (List HookError) × W
  unfolding descending snapshot
  run_shutdown it ctx r = run ctx (sort_stable descending (snapshot it r)) false

  -- The loop of `replace`: a later item of the same name wins.
  unfoldable pub store_all : Registry C W → List (Registration C W) → Registry C W
  store_all r [] = r
  store_all r (item ∷ rest) = store_all (insert item.name item r) rest

  unfoldable pub replace : List (Registration C W) → Registry C W
  unfolding store_all
  replace items = store_all [] items

-- The three package-level registries.
pub record Registries (C W : Type 0) : Type 0 where
  pub initializers : Registry C W
  pub ready_hooks : Registry C W
  pub shutdown_hooks : Registry C W

-- BackupRegistrations: the cleared registries, and what the returned function puts back.
unfoldable pub backup_registrations :
    {C W : Type 0}
    → Iteration (Registration C W)
    → Registries C W
    → Registries C W × (Registries C W → Registries C W)
unfolding snapshot replace
backup_registrations it s =
    let saved_initializers = snapshot it s.initializers in
    let saved_ready = snapshot it s.ready_hooks in
    let saved_shutdown = snapshot it s.shutdown_hooks in
    (
      record { initializers = replace []; ready_hooks = replace []; shutdown_hooks = replace [] },
      λ _. record {
        initializers = replace saved_initializers;
        ready_hooks = replace saved_ready;
        shutdown_hooks = replace saved_shutdown;
      },
    )
