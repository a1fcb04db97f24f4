-- ===== src/Transaction/Tests.antt =====
-- A nested scope that fails after an event, and a joined scope whose failure the code ignores.
use springo.Base.{executable, ◌≡◌, ◌≢◌, inl, inr, refl, true, false, [], ◌∷◌, none, codes, arith}
use springo.Transaction.{
  TxConfig, Propagation, required, nested, requires_new, mandatory, succeeds, fails, World, Context,
  Environment, done, add_error, suspend, execute_in_active_tx, trim, buffered, issue,
  execute_in_nested_tx, apply_read_only_mode, post_commit, run_hook, finish_tx, execute_in_new_tx,
  transactional, add_event_to_transaction, get_read_only_tx_sql, inside,
}
use springo.Transaction.Code.{Code, returns, adds, scopes, perform}
use springo.Transaction.Nested.{Restores, nested-Restores}
use springo.Transaction.Joined.{joined-aborts}
use springo.Transaction.Growth.{Later}
use springo.Transaction.Scopes.{perform-Later}

program : Unit {0}
unfolding executable add_error suspend execute_in_active_tx trim buffered issue execute_in_nested_tx
    apply_read_only_mode post_commit run_hook finish_tx execute_in_new_tx transactional
    add_event_to_transaction get_read_only_tx_sql perform
program = tt

-- A database that does everything.
abbrev env : Environment
env = record {
  answer = λ log c. done;
  has_db = true;
  dialect = codes "sqlite";
  has_hook = true;
  hook_panics = λ _. none;
}

abbrev w0 : World
w0 = record {
  next = 1;
  handles = λ _. record { errors = []; buffer = codes "first" ∷ [] };
  log = [];
  published = [];
}

abbrev top : Context
top = record { tx = none; events = none; is_read_only = false }

abbrev conf : Propagation → TxConfig
conf p = record { propagation = p; read_only = false }

-- Adds an event and fails.
abbrev broken : Code
broken = adds (codes "lost") (returns (fails (codes "boom")))

nested-Restores_example :
    Restores env
      (perform env broken)
      0
      false
      w0
      (transactional env (conf nested) (perform env broken) (inside env 0 false) w0)
nested-Restores_example = nested-Restores env broken 0 false false w0 (ground arith)

-- A joined scope in a joined scope, behind an event; each failure is ignored.
abbrev deep : Code
deep = adds (codes "a") (
    scopes (conf required) (scopes (conf mandatory) broken (λ _. returns succeeds))
      (λ _. returns succeeds))

joined-aborts_example : (transactional env (conf required) (perform env deep) top w0).0 ≢ succeeds
unfolding program
joined-aborts_example =
    joined-aborts env required false deep top w0 refl
      (inl (refl, inr (inl (refl, inl (λ e. absurd (ground arith))))))

-- A caught failure of a nested scope lets the events around it through to the hook.
delivered :
    (transactional env
      (conf requires_new)
      (perform env
        (adds (codes "a") (scopes (conf nested) broken (λ _. adds (codes "b") (returns succeeds)))))
      top
      w0).1.published
    ≡ (1, codes "a" ∷ codes "b" ∷ []) ∷ []
unfolding program
delivered = refl

perform-Later_example : Later w0 (perform env broken (inside env 0 false) w0).1
perform-Later_example = perform-Later env broken (inside env 0 false) w0
