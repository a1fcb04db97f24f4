-- ===== src/Transaction/Code.antt =====
-- transaction.go: the code of a service between calls of the package: it adds events, opens
-- transactional scopes, and goes on as it likes with their results, panics included.
use springo.Base.{Text}
use springo.Transaction.{
  TxConfig, Result, Context, World, Environment, add_event_to_transaction, transactional,
}

pub data Code : Type 0 where
  returns : Result → Code
  adds : Text → Code → Code
  scopes : TxConfig → Code → (Result → Code) → Code

unfoldable pub perform : Environment → Code → Context → World → Result × World
unfolding add_event_to_transaction
perform env (returns r) ctx w = (r, w)
perform env (adds e rest) ctx w = perform env rest ctx (add_event_to_transaction e ctx w).1
perform env (scopes conf body rest) ctx w =
    let (result, w') = transactional env conf (perform env body) ctx w in
    perform env (rest result) ctx w'
