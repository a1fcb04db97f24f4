-- ===== src/Transaction/Joined.antt =====
-- transaction.go: scopes that join a new physical transaction.
use springo.Base.{
  ℕ, ◌<◌, ◌≡◌, ◌≢◌, ◌⊎◌, inl, inr, Option, none, some, Bool, true, false, [], ◌++◌, codes, arith,
}
use springo.Transaction.{
  TxConfig, Propagation, required, requires_new, mandatory, Result, succeeds, fails, panics,
  Context, World, Environment, Body, add_error, suspend, execute_in_active_tx, inside,
  execute_in_new_tx, transactional, add_event_to_transaction, execute_in_nested_tx, nested,
  supports, not_supported, never, unknown, no_active, active_found, unknown_mode,
}
use springo.Transaction.Code.{Code, returns, adds, scopes, perform}
use springo.Transaction.Growth.{add_event_to_transaction-Later}
use springo.Transaction.Scopes.{perform-Later, transactional-Growing}
use springo.Transaction.Ending.{prepared}
use springo.Transaction.Marks.{
  joins, IsPrefix-nonempty, add_error-marks, joined-marks, execute_in_new_tx-aborts, prepared-next,
}

module _ (env : Environment) where
  next_there :
      (conf : TxConfig) (body : Code) (id : ℕ) (ro : Bool) (w : World)
      → id < w.next
      → id < (transactional env conf (perform env body) (inside env id ro) w).1.next
  next_there conf body id ro w l =
      let m =
        (transactional-Growing env conf (perform env body) (perform-Later env body)
          (inside env id ro) w).more in
      ground arith

  -- Somewhere the code opens a scope that joins its transaction and whose own code fails or panics,
  -- or does so in a scope that joins it, at any depth.
  abbrev pub JoinedFails : Code → Context → World → Type 0
  JoinedFails (returns r) ctx w = ⊥
  JoinedFails (adds e rest) ctx w = JoinedFails rest ctx (add_event_to_transaction e ctx w).1
  JoinedFails (scopes conf body rest) ctx w =
      ((joins conf.propagation ≡ true)
        × (((perform env body ctx w).0 ≢ succeeds) ⊎ JoinedFails body ctx w))
      ⊎ JoinedFails (rest (transactional env conf (perform env body) ctx w).0) ctx
          (transactional env conf (perform env body) ctx w).1

  execute_in_active_tx-keeps :
      (fn : Body) (id : ℕ) (ctx : Context) (w : World)
      → ((fn ctx w).1.handles id).errors ≢ []
      → ((execute_in_active_tx id fn ctx w).1.handles id).errors ≢ []
  unfolding execute_in_active_tx
  execute_in_active_tx-keeps fn id ctx w m = at (fn ctx w).0
    where
      w' : World
      w' = (fn ctx w).1

      at :
          (r : Result)
          → ((elim r as (λ _. Result × World) [
            | succeeds ↦ (succeeds, w')
            | fails e ↦ (fails e, add_error id e w')
            | panics e ↦ (panics e, add_error id (codes "transaction panic: " ++ e) w')
          ]).1.handles
              id).errors
            ≢ []
      at succeeds = m
      at (fails e) = add_error-marks id e w'
      at (panics e) = add_error-marks id _ w'

  joined-keeps :
      (conf : TxConfig) (fn : Body) (id : ℕ) (ro : Bool) (w : World)
      → joins conf.propagation ≡ true
      → ((fn (inside env id ro) w).1.handles id).errors ≢ []
      → ((transactional env conf fn (inside env id ro) w).1.handles id).errors ≢ []
  unfolding transactional
  joined-keeps conf fn id ro w j m = at conf.propagation j
    where
      at :
          (p : Propagation)
          → joins p ≡ true
          → ((transactional env
                (record { propagation = p; read_only = conf.read_only })
                fn
                (inside env id ro)
                w).1.handles
              id).errors
            ≢ []
      at required j = execute_in_active_tx-keeps fn id _ w m
      at mandatory j = execute_in_active_tx-keeps fn id _ w m
      at _ j = absurd (ground arith)

  -- A mark that a scope leaves stays, whatever the code does after it.
  rest-marks :
      (conf : TxConfig) (body : Code) (rest : Result → Code) (id : ℕ) (ro : Bool) (w : World)
      → id < w.next
      → ((transactional env conf (perform env body) (inside env id ro) w).1.handles id).errors ≢ []
      → ((perform env (scopes conf body rest) (inside env id ro) w).1.handles id).errors ≢ []
  unfolding perform
  rest-marks conf body rest id ro w l m =
      let out = transactional env conf (perform env body) (inside env id ro) w in
      let there = next_there conf body id ro w l in
      IsPrefix-nonempty _ _
        ((perform-Later env (rest out.0) (inside env id ro) out.1).grown id there).1 m

  JoinedFails-marks :
      (code : Code) (id : ℕ) (ro : Bool) (w : World)
      → id < w.next
      → JoinedFails code (inside env id ro) w
      → ((perform env code (inside env id ro) w).1.handles id).errors ≢ []
  unfolding perform
  JoinedFails-marks (returns r) id ro w l h = absurd h
  JoinedFails-marks (adds e rest) id ro w l h =
      let m = (add_event_to_transaction-Later e (inside env id ro) w).more in
      JoinedFails-marks rest id ro (add_event_to_transaction e (inside env id ro) w).1
        (ground arith) h
  JoinedFails-marks (scopes conf body rest) id ro w l (inl (j, inl f)) =
      rest-marks conf body rest id ro w l
        (joined-marks env conf.propagation conf.read_only ro body id w j f)
  JoinedFails-marks (scopes conf body rest) id ro w l (inl (j, inr h)) =
      rest-marks conf body rest id ro w l
        (joined-keeps conf (perform env body) id ro w j (JoinedFails-marks body id ro w l h))
  JoinedFails-marks (scopes conf body rest) id ro w l (inr h) =
      let out = transactional env conf (perform env body) (inside env id ro) w in
      JoinedFails-marks (rest out.0) id ro out.1 (next_there conf body id ro w l) h

  -- The propagation opens a new transaction in the context.
  abbrev pub opens : Propagation → Context → Bool
  opens p ctx = elim p [
    | requires_new ↦ true
    | required ↦ elim ctx.tx [ none ↦ true | some _ ↦ false ]
    | nested ↦ elim ctx.tx [ none ↦ true | some _ ↦ false ]
    | _ ↦ false
  ]

  -- Where the code of a new transaction somewhere opens a scope that joins it (REQUIRED or MANDATORY,
  -- at any depth of such scopes) and that scope fails or panics, the transaction does not succeed,
  -- whatever the code makes of the failure and does before and afterwards. The transaction is one of
  -- REQUIRES_NEW, or of REQUIRED or NESTED where none is active.
  pub joined-aborts :
      (p : Propagation) (ro : Bool) (code : Code) (ctx : Context) (w : World)
      → opens p ctx ≡ true
      → JoinedFails code (inside env w.next ro) (prepared env ro w).1
      → (transactional env (record { propagation = p; read_only = ro }) (perform env code) ctx w).0
        ≢ succeeds
  unfolding transactional
  joined-aborts p ro code ctx w o f = at p ctx.tx o
    where
      m :
          ((perform env code (inside env w.next ro) (prepared env ro w).1).1.handles w.next).errors
          ≢ []
      m = JoinedFails-marks code w.next ro (prepared env ro w).1 (prepared-next env ro w) f

      fn : Body
      fn = perform env code

      at :
          (p : Propagation) (tx : Option ℕ)
          → (elim p as (λ _. Bool) [
            | requires_new ↦ true
            | required ↦ elim tx [ none ↦ true | some _ ↦ false ]
            | nested ↦ elim tx [ none ↦ true | some _ ↦ false ]
            | _ ↦ false
          ])
            ≡ true
          → (elim p as (λ _. Result × World) [
            | required ↦ elim tx [
              | some id ↦ execute_in_active_tx id fn ctx w
              | none ↦ execute_in_new_tx env fn ro ctx w
            ]
            | requires_new ↦ execute_in_new_tx env fn ro (suspend ctx) w
            | nested ↦ elim tx [
              | some id ↦ execute_in_nested_tx env id fn ctx w
              | none ↦ execute_in_new_tx env fn ro ctx w
            ]
            | supports ↦ fn ctx w
            | not_supported ↦ fn (suspend ctx) w
            | mandatory ↦ elim tx [
              | some id ↦ execute_in_active_tx id fn ctx w
              | none ↦ (fails no_active, w)
            ]
            | never ↦ elim tx [ some _ ↦ (fails active_found, w) | none ↦ fn ctx w ]
            | unknown _ ↦ (fails unknown_mode, w)
          ]).0
            ≢ succeeds
      at requires_new tx o = execute_in_new_tx-aborts env fn ro (suspend ctx) w m
      at required none o = execute_in_new_tx-aborts env fn ro ctx w m
      at nested none o = execute_in_new_tx-aborts env fn ro ctx w m
      at _ _ o = absurd (ground arith)
