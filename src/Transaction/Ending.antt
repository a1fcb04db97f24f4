-- ===== src/Transaction/Ending.antt =====
-- transaction.go: how a new physical transaction ends.
use springo.Base.{
  ℕ, suc, ◌≡◌, ◌≢◌, refl, ◌⊎◌, Bool, true, false, List, [], ◌∷◌, Text, codes, arith, if◌then◌else◌,
}
use springo.Transaction.{
  Result, succeeds, fails, panics, World, Environment, Call, Answer, done, refused, marked,
  set_handle, add_error, subject, is_done, issue, apply_read_only_mode, begin_tx, commit, rollback,
}

module _ (env : Environment) where
  -- Its commit was done, or what failed was rolled back.
  abbrev pub Closes : ℕ → Result × World → Type 0
  Closes id (r, w) =
      ((r ≡ succeeds)
        × (rest : List Call) × (w.log ≡ commit id ∷ rest)
        × (env.answer rest (commit id) ≡ done))
      ⊎ ((r ≢ succeeds) × (rest : List Call) × (w.log ≡ rollback id ∷ rest))

  -- How a new transaction ends, `before` being the calls before it: it began and was closed, or there
  -- was no database and nothing was called, or it did not begin and nothing was called after that.
  abbrev pub Ends : ℕ → Bool → List Call → Result × World → Type 0
  Ends id ro before (r, w) =
      ((env.has_db ≡ true) × (env.answer before (begin_tx id ro) ≡ done) × Closes id (r, w))
      ⊎ ((r ≢ succeeds) × (env.has_db ≡ false) × (w.log ≡ before))
      ⊎ ((r ≢ succeeds)
          × (env.answer before (begin_tx id ro) ≢ done)
          × (w.log ≡ begin_tx id ro ∷ before))

  pub issue-log : (c : Call) (w : World) → (issue env c w).1.log ≡ c ∷ w.log
  unfolding issue add_error
  issue-log c w = at (env.answer w.log c)
    where
      at :
          (a : Answer)
          → (elim a as (λ _. World) [
            | marked ↦ add_error (subject c) (codes "gorm") (record w { log = c ∷ w.log })
            | _ ↦ record w { log = c ∷ w.log }
          ]).log
            ≡ c ∷ w.log
      at done = refl
      at refused = refl
      at marked = refl

  pub issue-answer : (c : Call) (w : World) → (issue env c w).0 ≡ env.answer w.log c
  unfolding issue
  issue-answer c w = refl

  pub failed : (e : Text) → fails e ≢ succeeds
  failed e q = absurd (ground arith)

  pub panicked : (e : Text) → panics e ≢ succeeds
  panicked e q = absurd (ground arith)

  pub missed : (a : Answer) → is_done a ≡ false → a ≢ done
  missed done e q = absurd (ground arith)
  missed refused e q = absurd (ground arith)
  missed marked e q = absurd (ground arith)

  -- The world in which the code of a new transaction runs, and whether it was set read-only.
  abbrev pub opened : Bool → World → World
  opened ro w =
      (issue env (begin_tx w.next ro) (
        set_handle w.next (record { errors = []; buffer = [] }) (record w { next = suc w.next }))).1

  abbrev pub prepared : Bool → World → Bool × World
  prepared ro w = if ro then apply_read_only_mode env w.next (opened ro w) else (true, opened ro w)
