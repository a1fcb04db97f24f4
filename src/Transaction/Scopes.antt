-- ===== src/Transaction/Scopes.antt =====
-- transaction.go: no scope takes from the transactions that are open around it.
use springo.Transaction.{
  no_database, begin_failed, read_only_failed, get_read_only_tx_sql, no_active, active_found,
  unknown_mode, save_point, rollback_to, rollback, commit, begin_tx, rollback_failed, aborted,
  commit_failed,
}
use springo.Base.{
  not, inl, inr, ℕ, suc, ◌<◌, ◌≡◌, Bool, true, false, List, [], ◌∷◌, Option, none, some, Text,
  arith, length, nat_eqb, Bool-cases, if◌then◌else◌,
}
use springo.Transaction.{
  TxConfig, Propagation, required, requires_new, nested, supports, not_supported, mandatory, never,
  unknown, Result, succeeds, fails, panics, Context, World, Environment, Answer, Body, set_handle,
  is_done, suspend, execute_in_active_tx, trim, buffered, issue, execute_in_nested_tx, inside,
  apply_read_only_mode, post_commit, run_hook, finish_tx, execute_in_new_tx, transactional,
}
use springo.Transaction.Code.{Code, returns, adds, scopes, perform}
use springo.Transaction.Growth.{
  Grown, Grown-refl, Later, Later-refl, Later-trans, Growing, issue-Later,
  add_event_to_transaction-Later, execute_in_active_tx-Growing, trim-Later,
}

module _ (env : Environment) where
  execute_in_nested_tx-Growing :
      (id : ℕ) (fn : Body) → Growing fn → Growing (execute_in_nested_tx env id fn)
  unfolding execute_in_nested_tx
  execute_in_nested_tx-Growing id fn g ctx w = elim (Bool-cases (is_done saved)) [
    | inl went ↦ rw went (at (fn ctx w1).0)
    | inr failed ↦ rw failed l1
  ]
    where
      saved : Answer
      saved = (issue env (save_point id (length w.log)) w).0

      w1 : World
      w1 = (issue env (save_point id (length w.log)) w).1

      w2 : World
      w2 = (fn ctx w1).1

      l1 : Later w w1
      l1 = issue-Later env (save_point id (length w.log)) w

      undone : Answer
      undone = (issue env (rollback_to id (length w.log)) w2).0

      w3 : World
      w3 = (issue env (rollback_to id (length w.log)) w2).1

      l3 : Later w1 w3
      l3 = Later-trans w1 w2 w3 (g ctx w1) (issue-Later env (rollback_to id (length w.log)) w2)

      at :
          (r : Result)
          → Later w
              (elim r as (λ _. Result × World) [
                | succeeds ↦ (succeeds, w2)
                | fails e ↦
                    if is_done undone
                    then (fails e, trim ctx.events (buffered ctx.events w1) w3)
                    else (fails rollback_failed, w3)
                | panics e ↦ (panics e, trim ctx.events (buffered ctx.events w1) w3)
              ]).1
      at succeeds = Later-trans w w1 w2 l1 (g ctx w1)
      at (fails e) = elim (Bool-cases (is_done undone)) [
        | inl went ↦ rw went (Later-trans w w1 _ l1 (trim-Later ctx.events w1 w3 l3))
        | inr failed ↦ rw failed (Later-trans w w1 w3 l1 l3)
      ]
      at (panics e) = Later-trans w w1 _ l1 (trim-Later ctx.events w1 w3 l3)

  post_commit-Later : (id : ℕ) (w : World) → Later w (post_commit env id w).1
  unfolding post_commit
  post_commit-Later id w = elim (Bool-cases env.has_hook) [
    | inl hook ↦ rw hook (record { more = ground arith; grown = λ id _. Grown-refl _ })
    | inr none_set ↦ rw none_set (Later-refl w)
  ]

  run_hook-Later : (id : ℕ) (w : World) → Later w (run_hook env id w).1
  unfolding run_hook
  run_hook-Later id w = at (post_commit env id w).0
    where
      w' : World
      w' = (post_commit env id w).1

      at :
          (panic : Option Text)
          → Later w
              (elim panic as (λ _. Result × World) [
                | none ↦ (succeeds, w')
                | some e ↦ (panics e, (issue env (rollback id) w').1)
              ]).1
      at none = post_commit-Later id w
      at (some e) = Later-trans w w' _ (post_commit-Later id w) (issue-Later env _ w')

  finish_tx-Later : (id : ℕ) (r : Result) (w : World) → Later w (finish_tx env id (r, w)).1
  unfolding finish_tx
  finish_tx-Later id (fails e) w = issue-Later env _ w
  finish_tx-Later id (panics e) w = issue-Later env _ w
  finish_tx-Later id succeeds w = at (w.handles id).errors
    where
      committed : Answer
      committed = (issue env (commit id) w).0

      w' : World
      w' = (issue env (commit id) w).1

      at :
          (es : List Text)
          → Later w
              (elim es as (λ _. Result × World) [
                | _ ∷ _ ↦ (fails aborted, (issue env (rollback id) w).1)
                | [] ↦
                    if is_done committed
                    then run_hook env id w'
                    else (fails commit_failed, (issue env (rollback id) w').1)
              ]).1
      at (e ∷ es) = issue-Later env _ w
      at [] = elim (Bool-cases (is_done committed)) [
        | inl went ↦ rw went (Later-trans w w' _ (issue-Later env _ w) (run_hook-Later id w'))
        | inr failed ↦ rw failed (Later-trans w w' _ (issue-Later env _ w) (issue-Later env _ w'))
      ]

  pub apply_read_only_mode-Later : (id : ℕ) (w : World) → Later w (apply_read_only_mode env id w).1
  unfolding apply_read_only_mode
  apply_read_only_mode-Later id w = elim (Bool-cases (get_read_only_tx_sql env.dialect)) [
    | inl known ↦ rw known (issue-Later env _ w)
    | inr unsupported ↦ rw unsupported (Later-refl w)
  ]

  -- The handle of a new transaction is none that there was.
  fresh-Later :
      (w : World)
      → Later w
          (set_handle w.next (record { errors = []; buffer = [] }) (record w { next = suc w.next }))
  fresh-Later w = record { more = ground arith; grown = λ j l. at j l }
    where
      at :
          (j : ℕ)
          → j < w.next
          → Grown
              (w.handles j)
              (if nat_eqb j w.next then record { errors = []; buffer = [] } else w.handles j)
      at j l = let old : nat_eqb j w.next ≡ false = ground arith in rw old (Grown-refl _)

  execute_in_new_tx-Later :
      (fn : Body) (ro : Bool)
      → Growing fn
      → (ctx : Context) (w : World) → Later w (execute_in_new_tx env fn ro ctx w).1
  unfolding execute_in_new_tx
  execute_in_new_tx-Later fn ro g ctx w = at env.has_db (is_done begun) set.0
    where
      id : ℕ
      id = w.next

      fresh : World
      fresh = set_handle id (record { errors = []; buffer = [] }) (record w { next = suc id })

      begun : Answer
      begun = (issue env (begin_tx id ro) fresh).0

      w1 : World
      w1 = (issue env (begin_tx id ro) fresh).1

      l1 : Later w w1
      l1 = Later-trans w fresh w1 (fresh-Later w) (issue-Later env (begin_tx id ro) fresh)

      set : Bool × World
      set = if ro then apply_read_only_mode env id w1 else (true, w1)

      chosen : (b : Bool) → Later w1 (if b then apply_read_only_mode env id w1 else (true, w1)).1
      chosen true = apply_read_only_mode-Later id w1
      chosen false = Later-refl w1

      l2 : Later w set.1
      l2 = Later-trans w w1 set.1 l1 (chosen ro)

      ran : Result × World
      ran = fn (inside env id ro) set.1

      at :
          (db begins applied : Bool)
          → Later w
              (if not db
                then (fails no_database, w)
                else if not begins
                then (fails begin_failed, w1)
                else if not applied
                then (fails read_only_failed, (issue env (rollback id) set.1).1)
                else finish_tx env id ran).1
      at false begins applied = Later-refl w
      at true false applied = l1
      at true true false = Later-trans w set.1 _ l2 (issue-Later env _ set.1)
      at true true true =
          Later-trans w set.1 _ l2 (
            Later-trans set.1 ran.1 _ (g (inside env id ro) set.1) (finish_tx-Later id ran.0 ran.1))

  pub transactional-Growing :
      (conf : TxConfig) (fn : Body) → Growing fn → Growing (transactional env conf fn)
  unfolding transactional
  transactional-Growing conf fn g ctx w = at conf.propagation ctx.tx
    where
      at :
          (p : Propagation) (tx : Option ℕ)
          → Later w
              (elim p as (λ _. Result × World) [
                | required ↦ elim tx [
                  | some id ↦ execute_in_active_tx id fn ctx w
                  | none ↦ execute_in_new_tx env fn conf.read_only ctx w
                ]
                | requires_new ↦ execute_in_new_tx env fn conf.read_only (suspend ctx) w
                | nested ↦ elim tx [
                  | some id ↦ execute_in_nested_tx env id fn ctx w
                  | none ↦ execute_in_new_tx env fn conf.read_only ctx w
                ]
                | supports ↦ fn ctx w
                | not_supported ↦ fn (suspend ctx) w
                | mandatory ↦ elim tx [
                  | some id ↦ execute_in_active_tx id fn ctx w
                  | none ↦ (fails no_active, w)
                ]
                | never ↦ elim tx [ some _ ↦ (fails active_found, w) | none ↦ fn ctx w ]
                | unknown _ ↦ (fails unknown_mode, w)
              ]).1
      at required none = execute_in_new_tx-Later fn conf.read_only g ctx w
      at required (some id) = execute_in_active_tx-Growing id fn g ctx w
      at requires_new tx = execute_in_new_tx-Later fn conf.read_only g (suspend ctx) w
      at nested none = execute_in_new_tx-Later fn conf.read_only g ctx w
      at nested (some id) = execute_in_nested_tx-Growing id fn g ctx w
      at supports tx = g ctx w
      at not_supported tx = g (suspend ctx) w
      at mandatory none = Later-refl w
      at mandatory (some id) = execute_in_active_tx-Growing id fn g ctx w
      at never none = g ctx w
      at never (some id) = Later-refl w
      at (unknown n) tx = Later-refl w

  -- Whatever code runs, in whatever scopes, the transactions that were there before keep their
  -- buffered events and their errors, in their order, and at most get more of them.
  pub perform-Later : (code : Code) (ctx : Context) (w : World) → Later w (perform env code ctx w).1
  unfolding perform
  perform-Later (returns r) ctx w = Later-refl w
  perform-Later (adds e rest) ctx w =
      Later-trans w _ _ (add_event_to_transaction-Later e ctx w) (perform-Later rest ctx _)
  perform-Later (scopes conf body rest) ctx w =
      let out = transactional env conf (perform env body) ctx w in
      Later-trans w out.1 _
        (transactional-Growing conf (perform env body) (perform-Later body) ctx w)
        (perform-Later (rest out.0) ctx out.1)
