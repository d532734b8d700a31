-- ===== src/Push/Transaction/Auto.antt =====
-- A push with `--execute`.
use migra_go.Prelude.{
  ℕ, suc, String, Bool, true, false, List, [], ◌∷◌, ◌≡◌, refl, some, arith, if_ind,
}
use migra_go.Context.{Context, err}
use migra_go.Diff.Operation.{Operation}
use migra_go.Push.Session.{
  Event, commit, commit_failed, close, Database, PushError, Outcome, done, interrupted,
  no_transaction, non_transactional, failed, Session, roll_back, fail_with_rollback,
  commit_transaction,
}
use migra_go.Push.Execute.{
  PushConfig, auto_step, execute_auto, execute_plan, poll, or_roll_back, no_statement, blocked,
  deferred,
}
use migra_go.Push.Protocol.{idle, closed, follow, follow-append_one}
use migra_go.Push.Transaction.{
  IsOpen, IsUnfinished, IsCommitted, IsOpen-IsUnfinished, roll_back-IsUnfinished, IsOpen-emit_exec,
  IsOpen-poll, IsOpen-first_session,
}

-- After automatic execution: a commit exactly where no error is returned.
pub AutoPost : Outcome × Session → Type 0
AutoPost (done, s) = IsCommitted s
AutoPost (failed e, s) = IsUnfinished s

commit_transaction-AutoPost :
    (db : Database) (s : Session) → IsOpen s → AutoPost (commit_transaction db s)
unfolding AutoPost commit_transaction
commit_transaction-AutoPost db s h = ground (
  arith,
  follow-append_one (some idle) s.log commit,
  follow-append_one (some idle) s.log commit_failed,
)

module _ (render : Operation → String) (is_non_transactional : String → Bool) (db : Database)
    (cfg : PushConfig) where
  fail-AutoPost : (e : PushError) (s : Session) → IsOpen s → AutoPost (fail_with_rollback e s)
  unfolding AutoPost fail_with_rollback
  fail-AutoPost e s h = (roll_back-IsUnfinished s (IsOpen-IsUnfinished s h)).1

  or_roll_back-AutoPost :
      (r : Outcome × Session) (rest : Session → Outcome × Session)
      → ((t : Session) → IsOpen t → AutoPost (rest t))
      → IsOpen r.1
      → AutoPost (or_roll_back r rest)
  or_roll_back-AutoPost (done, s) rest ih h = ih s h
  or_roll_back-AutoPost (failed e, s) rest ih h = fail-AutoPost e s h

  auto_step-AutoPost :
      (i : ℕ) (op : Operation) (s : Session) (rest : Session → Outcome × Session)
      → ((t : Session) → IsOpen t → AutoPost (rest t))
      → IsOpen s
      → AutoPost (auto_step render is_non_transactional db cfg i op s rest)
  unfolding auto_step
  auto_step-AutoPost i op s rest ih h =
      let p : IsOpen (poll s) = IsOpen-poll s h in
      if_ind AutoPost (err s.ctx) (λ _. fail-AutoPost interrupted (poll s) p)
        λ _.
          if_ind AutoPost (no_statement (render op)) (λ _. ih (poll s) p)
            λ _.
              if_ind AutoPost (is_non_transactional (render op))
                (λ _. fail-AutoPost (non_transactional (suc i)) (poll s) p)
                λ _.
                  if_ind AutoPost (blocked cfg op) (λ _. ih (poll s) p)
                    λ _.
                      or_roll_back-AutoPost _ rest ih
                        (IsOpen-emit_exec (poll s) (suc i) (render op) db p)

  execute_auto-AutoPost :
      (ops : List Operation) (i : ℕ) (s : Session)
      → IsOpen s
      → AutoPost (execute_auto render is_non_transactional db cfg i ops s)
  unfolding execute_auto
  execute_auto-AutoPost [] i s h = commit_transaction-AutoPost db s h
  execute_auto-AutoPost (op ∷ ops) i s h =
      auto_step-AutoPost i op s _ (execute_auto-AutoPost ops (suc i)) h

abbrev succeeded : Outcome → Bool
succeeded done = true
succeeded (failed e) = false

-- The events follow the protocol up to the closed connection, and the transaction was committed
-- exactly if no error is returned.
pub EndsAuto : Outcome × List Event → Type 0
EndsAuto (outcome, log) = follow (some idle) log ≡ some (closed (succeeded outcome))

deferred-EndsAuto : (r : Outcome × Session) → AutoPost r → EndsAuto (deferred r)
unfolding AutoPost EndsAuto roll_back
deferred-EndsAuto (done, s) h =
    ground (arith, follow-append_one (some idle) (roll_back s).log close)
deferred-EndsAuto (failed e, s) h =
    let p = roll_back-IsUnfinished s h in
    ground (arith, follow-append_one (some idle) (roll_back s).log close)

no_transaction-EndsAuto : EndsAuto (failed no_transaction, close ∷ [])
unfolding EndsAuto follow
no_transaction-EndsAuto = refl

module _ (render : Operation → String) (is_non_transactional : String → Bool) (db : Database)
    (cfg : PushConfig) (ctx : Context) (input : List (List ℕ)) (ops : List Operation) where
  -- With `--execute`, once the connection stands, what the database sees follows the protocol up to
  -- the closed connection, and the transaction was committed exactly if no error is returned.
  pub execute_plan-EndsAuto :
      cfg.execute ≡ true
      → db.connect_fails ≡ false
      → EndsAuto (execute_plan render is_non_transactional db cfg ctx input ops)
  unfolding execute_plan
  execute_plan-EndsAuto auto connected =
      if_ind EndsAuto db.connect_fails (λ e. cc)
        λ _.
          if_ind EndsAuto db.begin_fails (λ _. no_transaction-EndsAuto)
            λ _. deferred-EndsAuto _ (
              if_ind AutoPost cfg.execute
                (λ _.
                  execute_auto-AutoPost render is_non_transactional db cfg ops 0 _
                    (IsOpen-first_session ctx input))
                (λ e. cc))
