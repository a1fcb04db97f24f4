-- ===== src/Transaction/Marks.antt =====
-- transaction.go: the errors that a failed scope leaves on the handle of its transaction, which then
-- does not succeed.
use springo.Base.{
  ℕ, suc, ◌<◌, ◌≤◌, ◌≡◌, ◌≢◌, refl, Bool, true, false, List, [], ◌∷◌, ◌++◌, Text, codes, arith,
  nat_eqb, if◌then◌else◌, not,
}
use springo.Transaction.{
  Propagation, required, mandatory, Result, succeeds, fails, panics, Context, World, Environment,
  Answer, Body, set_handle, add_error, is_done, execute_in_active_tx, issue, inside, run_hook,
  finish_tx, execute_in_new_tx, transactional, begin_tx, commit, rollback, aborted, commit_failed,
  begin_failed, read_only_failed, no_database,
}
use springo.Transaction.Code.{Code, perform}
use springo.Transaction.Growth.{IsPrefix, issue-Later}
use springo.Transaction.Scopes.{apply_read_only_mode-Later}
use springo.Transaction.Ending.{failed, panicked, opened, prepared}

-- The propagations that take part in the transaction that is there.
abbrev pub joins : Propagation → Bool
joins required = true
joins mandatory = true
joins _ = false

nonempty : (es : List Text) (e : Text) → es ++ e ∷ [] ≢ []
nonempty [] e q = absurd (ground arith)
nonempty (x ∷ xs) e q = absurd (ground arith)

pub IsPrefix-nonempty : (es fs : List Text) → IsPrefix es fs → es ≢ [] → fs ≢ []
IsPrefix-nonempty [] fs p ne q = ne refl
IsPrefix-nonempty (e ∷ es) [] (rest, p) ne q = absurd (ground arith)
IsPrefix-nonempty (e ∷ es) (f ∷ fs) p ne q = absurd (ground arith)

pub add_error-marks : (id : ℕ) (e : Text) (w : World) → ((add_error id e w).handles id).errors ≢ []
unfolding add_error
add_error-marks id e w =
    let same : nat_eqb id id ≡ true = ground arith in rw same (nonempty (w.handles id).errors e)

module _ (env : Environment) where
  execute_in_active_tx-marks :
      (fn : Body) (id : ℕ) (ctx : Context) (w : World)
      → (fn ctx w).0 ≢ succeeds
      → ((execute_in_active_tx id fn ctx w).1.handles id).errors ≢ []
  unfolding execute_in_active_tx
  execute_in_active_tx-marks fn id ctx w f = at (fn ctx w) f
    where
      at :
          (out : Result × World)
          → out.0 ≢ succeeds
          → ((elim out.0 as (λ _. Result × World) [
            | succeeds ↦ (succeeds, out.1)
            | fails e ↦ (fails e, add_error id e out.1)
            | panics e ↦ (panics e, add_error id (codes "transaction panic: " ++ e) out.1)
          ]).1.handles
              id).errors
            ≢ []
      at (succeeds, w') ne = absurd (ne refl)
      at (fails e, w') ne = add_error-marks id e w'
      at (panics e, w') ne = add_error-marks id _ w'

  pub joined-marks :
      (p : Propagation) (ro ro' : Bool) (inner : Code) (id : ℕ) (w : World)
      → joins p ≡ true
      → (perform env inner (inside env id ro') w).0 ≢ succeeds
      → (((transactional env
            (record { propagation = p; read_only = ro })
            (perform env inner)
            (inside env id ro')
            w).1.handles
          id).errors)
        ≢ []
  unfolding transactional
  joined-marks required ro ro' inner id w j f = execute_in_active_tx-marks _ id _ w f
  joined-marks mandatory ro ro' inner id w j f = execute_in_active_tx-marks _ id _ w f
  joined-marks _ ro ro' inner id w j f = absurd (ground arith)

  finish_tx-aborts :
      (id : ℕ) (r : Result) (w : World)
      → (w.handles id).errors ≢ []
      → (finish_tx env id (r, w)).0 ≢ succeeds
  unfolding finish_tx
  finish_tx-aborts id (fails e) w m = failed env e
  finish_tx-aborts id (panics e) w m = panicked env e
  finish_tx-aborts id succeeds w m = at (w.handles id).errors m
    where
      committed : Answer
      committed = (issue env (commit id) w).0

      w' : World
      w' = (issue env (commit id) w).1

      at :
          (es : List Text)
          → es ≢ []
          → (elim es as (λ _. Result × World) [
            | _ ∷ _ ↦ (fails aborted, (issue env (rollback id) w).1)
            | [] ↦
                if is_done committed
                then run_hook env id w'
                else (fails commit_failed, (issue env (rollback id) w').1)
          ]).0
            ≢ succeeds
      at (e ∷ es) ne = failed env _
      at [] ne = absurd (ne refl)

  pub execute_in_new_tx-aborts :
      (fn : Body) (ro : Bool) (ctx : Context) (w : World)
      → ((fn (inside env w.next ro) (prepared env ro w).1).1.handles w.next).errors ≢ []
      → (execute_in_new_tx env fn ro ctx w).0 ≢ succeeds
  unfolding execute_in_new_tx
  execute_in_new_tx-aborts fn ro ctx w m = at env.has_db (is_done begun) (prepared env ro w).0
    where
      begun : Answer
      begun =
          (issue env (begin_tx w.next ro) (
            set_handle w.next (record { errors = []; buffer = [] })
              (record w { next = suc w.next }))).0

      ran : Result × World
      ran = fn (inside env w.next ro) (prepared env ro w).1

      at :
          (db begins applied : Bool)
          → (if not db
              then (fails no_database, w)
              else if not begins
              then (fails begin_failed, opened env ro w)
              else if not applied
              then (fails read_only_failed, (issue env (rollback w.next) (prepared env ro w).1).1)
              else finish_tx env w.next ran).0
            ≢ succeeds
      at false begins applied = failed env _
      at true false applied = failed env _
      at true true false = failed env _
      at true true true = finish_tx-aborts w.next ran.0 ran.1 m

  opened-next : (ro : Bool) (w : World) → w.next < (opened env ro w).next
  opened-next ro w =
      let fresh : World =
        set_handle w.next (record { errors = []; buffer = [] }) (record w { next = suc w.next }) in
      let m : suc w.next ≤ (opened env ro w).next =
        (issue-Later env (begin_tx w.next ro) fresh).more in
      ground arith

  -- The handle of the new transaction is one that there is.
  pub prepared-next : (ro : Bool) (w : World) → w.next < (prepared env ro w).1.next
  prepared-next true w =
      let a = opened-next true w in
      let b = (apply_read_only_mode-Later env w.next (opened env true w)).more in ground arith
  prepared-next false w = opened-next false w
