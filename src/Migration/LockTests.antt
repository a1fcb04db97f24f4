-- ===== src/Migration/LockTests.antt =====
-- The lock of another instance, fresh and stale.
use springo.Base.{
  ℕ, zero, suc, ◌+◌, ◌*◌, ◌≡◌, ◌≢◌, refl, ap, true, List, [], ◌∷◌, ◌++◌, map, none, some, codes,
  executable, length, arith,
}
use springo.Migration.Lock.{
  MigrationLock, heartbeats, updates, LockCall, busy, acquire_lock, Poll, waiting, wait_for_lock,
  poll_interval,
}
use springo.Migration.Holding.{Refused, acquire_lock-Refused}
use springo.Migration.Waiting.{
  quiet_poll, HasLock, Paced, wait_for_lock-HasLock, wait_for_lock-ne_waiting,
}

program : Unit {0}
unfolding executable acquire_lock wait_for_lock
program = tt

-- Seconds.
abbrev s : ℕ
s = 1000000000

abbrev held : MigrationLock
held = record { locked = true; locked_at = 100 * s; locked_by = codes "a" }

-- Another instance calls 200 seconds later, while a third one tries and the holder beats.
abbrev call : LockCall
call = record {
  auto_migrate = none;
  first = none;
  create = none;
  update = none;
  first_again = none;
  break_ = none;
  before_first = [];
  before_create = [];
  before_update = updates (299 * s) (codes "c") ∷ [];
  before_again = heartbeats (300 * s) (codes "a") ∷ [];
  before_break = [];
  created_at = 300 * s;
  now = 300 * s;
}

acquire_lock-Refused_example :
    Refused (codes "a") (100 * s) (acquire_lock call (300 * s) (codes "b") (some held))
acquire_lock-Refused_example =
    acquire_lock-Refused (codes "a") (100 * s) (300 * s) call (codes "b") (some held)
      (tt, tt, (tt, tt), (omega arith, tt), tt, omega arith) (refl, refl, omega arith)

answers_busy : (acquire_lock call (300 * s) (codes "b") (some held)).0 ≡ busy
unfolding program
answers_busy = refl

wait_for_lock-HasLock_example : HasLock (codes "b") (
    wait_for_lock
      (398 * s)
      (300 * s)
      (codes "b")
      (map quiet_poll ((398 * s, 399 * s) ∷ [] ++ (400 * s, 401 * s) ∷ []))
      (some held))
wait_for_lock-HasLock_example =
    wait_for_lock-HasLock (398 * s) (300 * s) (codes "b") ((398 * s, 399 * s) ∷ []) [] (400 * s)
      (401 * s) held (omega arith, tt) (omega arith) (ground arith)

-- Turns every two seconds.
abbrev turns : ℕ → ℕ → List Poll
turns t zero = []
turns t (suc n) = quiet_poll (t, t) ∷ turns (t + poll_interval) n

turns-Paced : (t n : ℕ) → Paced t (turns t n)
turns-Paced t zero = tt
turns-Paced t (suc n) = (omega arith, turns-Paced (t + poll_interval) n)

length-turns : (t n : ℕ) → length (turns t n) ≡ n
length-turns t zero = refl
length-turns t (suc n) = ap suc (length-turns (t + poll_interval) n)

wait_for_lock-ne_waiting_example :
    (wait_for_lock (100 * s) (300 * s) (codes "b") (turns (100 * s) 61) (some held)).0 ≢ waiting
wait_for_lock-ne_waiting_example =
    wait_for_lock-ne_waiting (100 * s) (300 * s) (codes "b") (turns (100 * s) 61) (some held)
      (turns-Paced (100 * s) 61) (let n = length-turns (100 * s) 61 in ground arith)
