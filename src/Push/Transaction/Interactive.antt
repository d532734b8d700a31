-- ===== src/Push/Transaction/Interactive.antt =====
-- A push that asks before each statement.
use migra_go.Prelude.{
  ℕ, suc, String, Bool, true, false, List, [], ◌∷◌, ◌≡◌, refl, ◌⊎◌, inl, inr, some, arith, if_ind,
}
use migra_go.Context.{Context, err}
use migra_go.Diff.Operation.{Operation}
use migra_go.Push.Session.{
  Event, commit, commit_failed, close, Database, PushError, Outcome, done, interrupted,
  no_transaction, non_transactional, failed, Session, roll_back, fail_with_rollback, execute_one,
  commit_transaction,
}
use migra_go.Push.Answer.{read_answer}
use migra_go.Push.Execute.{
  PushConfig, ask, prompt_and_execute, execute_interactive, execute_plan, poll, while_active,
  no_statement, blocked, deferred,
}
use migra_go.Push.Protocol.{idle, closed, follow, follow-append_one}
use migra_go.Push.Transaction.{
  IsOpen, IsUnfinished, IsCommitted, IsOpen-IsUnfinished, roll_back-IsUnfinished, IsOpen-emit_exec,
  Answer-cases, IsOpen-poll, IsOpen-read, IsOpen-flag, IsOpen-both, IsOpen-first_session,
}

-- After interactive execution, which the user may also have cancelled.
pub InteractivePost : Outcome × Session → Type 0
InteractivePost (done, s) = IsCommitted s ⊎ (s.active ≡ false) × IsUnfinished s
InteractivePost (failed e, s) = IsUnfinished s

-- After one statement.
StatementPost : Outcome × Session → Type 0
StatementPost (done, s) = IsOpen s ⊎ (s.active ≡ false) × IsUnfinished s
StatementPost (failed e, s) = IsOpen s

module _ (render : Operation → String) (is_non_transactional : String → Bool) (db : Database)
    (cfg : PushConfig) where
  execute_one-StatementPost :
      (idx : ℕ) (op : Operation) (s : Session)
      → IsOpen s
      → StatementPost (execute_one db idx (render op) s)
  unfolding StatementPost execute_one
  execute_one-StatementPost idx op s h =
      let q : IsOpen (execute_one db idx (render op) s).1 =
        IsOpen-emit_exec s idx (render op) db h in
      ground arith

  cancelled-StatementPost : (s : Session) → IsOpen s → StatementPost (done, roll_back s)
  unfolding StatementPost
  cancelled-StatementPost s h = inr (roll_back-IsUnfinished s (IsOpen-IsUnfinished s h))

  skipped-StatementPost : (s : Session) → IsOpen s → StatementPost (done, s)
  unfolding StatementPost
  skipped-StatementPost s h = inl h

  ask-StatementPost :
      (idx : ℕ) (op : Operation) (lines : List (List ℕ)) (s : Session)
      → IsOpen s
      → StatementPost (ask render is_non_transactional db cfg idx op lines s)
  unfolding ask
  ask-StatementPost idx op [] s h =
      cancelled-StatementPost (record s { input = [] }) (IsOpen-read s [] h)
  ask-StatementPost idx op (line ∷ lines) s h =
      Answer-cases StatementPost (read_answer line)
        (if_ind StatementPost (blocked cfg op) (λ _. ask-StatementPost idx op lines s h)
          (λ _. execute_one-StatementPost idx op _ (IsOpen-read s lines h)))
        (cancelled-StatementPost (record s { input = lines }) (IsOpen-read s lines h))
        (if_ind StatementPost (blocked cfg op)
          (λ _. ask-StatementPost idx op lines (record s { apply_all = false }) (IsOpen-flag s h))
          (λ _. execute_one-StatementPost idx op _ (IsOpen-both s lines h)))
        (skipped-StatementPost (record s { input = lines }) (IsOpen-read s lines h))
        (ask-StatementPost idx op lines s h)

  prompt_and_execute-StatementPost :
      (i : ℕ) (op : Operation) (s : Session)
      → IsOpen s
      → StatementPost (prompt_and_execute render is_non_transactional db cfg i op s)
  unfolding prompt_and_execute
  prompt_and_execute-StatementPost i op s h =
      if_ind StatementPost s.apply_all
        (λ _.
          if_ind StatementPost (blocked cfg op)
            (λ _. ask-StatementPost (suc i) op s.input _ (IsOpen-flag s h))
            (λ _. execute_one-StatementPost (suc i) op s h))
        (λ _. ask-StatementPost (suc i) op s.input s h)

  fail-InteractivePost :
      (e : PushError) (s : Session) → IsOpen s → InteractivePost (fail_with_rollback e s)
  unfolding InteractivePost fail_with_rollback
  fail-InteractivePost e s h = (roll_back-IsUnfinished s (IsOpen-IsUnfinished s h)).1

  commit-InteractivePost : (s : Session) → IsOpen s → InteractivePost (commit_transaction db s)
  unfolding InteractivePost commit_transaction
  commit-InteractivePost s h = ground (
    arith,
    follow-append_one (some idle) s.log commit,
    follow-append_one (some idle) s.log commit_failed,
  )

  while_active-InteractivePost :
      (r : Outcome × Session) (rest : Session → Outcome × Session)
      → ((t : Session) → IsOpen t → InteractivePost (rest t))
      → StatementPost r
      → InteractivePost (while_active r rest)
  unfolding InteractivePost StatementPost
  while_active-InteractivePost (failed e, s) rest ih h = IsOpen-IsUnfinished s h
  while_active-InteractivePost (done, s) rest ih (inl h) =
      if_ind InteractivePost s.active (λ _. ih s h) (λ e. cc (h.is_active))
  while_active-InteractivePost (done, s) rest ih (inr h) =
      if_ind InteractivePost s.active (λ e. cc (h.0)) (λ _. inr h)

  execute_interactive-InteractivePost :
      (ops : List Operation) (i : ℕ) (s : Session)
      → IsOpen s
      → InteractivePost (execute_interactive render is_non_transactional db cfg i ops s)
  unfolding execute_interactive
  execute_interactive-InteractivePost [] i s h = commit-InteractivePost s h
  execute_interactive-InteractivePost (op ∷ ops) i s h =
      let p : IsOpen (poll s) = IsOpen-poll s h in
      let ih = execute_interactive-InteractivePost ops (suc i) in
      if_ind InteractivePost (err s.ctx) (λ _. fail-InteractivePost interrupted (poll s) p)
        λ _.
          if_ind InteractivePost (no_statement (render op)) (λ _. ih (poll s) p)
            λ _.
              if_ind InteractivePost (is_non_transactional (render op))
                (λ _. fail-InteractivePost (non_transactional (suc i)) (poll s) p)
                λ _.
                  while_active-InteractivePost _ _ ih
                    (prompt_and_execute-StatementPost i op (poll s) p)

-- The events follow the protocol up to the closed connection, and if the transaction was committed,
-- no error is returned.
pub EndsInteractive : Outcome × List Event → Type 0
EndsInteractive (outcome, log) =
    (outcome ≡ done) × (follow (some idle) log ≡ some (closed true))
    ⊎ (follow (some idle) log ≡ some (closed false))

deferred-EndsInteractive :
    (r : Outcome × Session) → InteractivePost r → EndsInteractive (deferred r)
unfolding InteractivePost EndsInteractive roll_back
deferred-EndsInteractive (done, s) (inl h) =
    inl (refl, ground (arith, follow-append_one (some idle) (roll_back s).log close))
deferred-EndsInteractive (done, s) (inr h) =
    inr (ground (arith, follow-append_one (some idle) (roll_back s).log close))
deferred-EndsInteractive (failed e, s) h =
    let p = roll_back-IsUnfinished s h in
    inr (ground (arith, follow-append_one (some idle) (roll_back s).log close))

no_transaction-EndsInteractive : EndsInteractive (failed no_transaction, close ∷ [])
unfolding EndsInteractive follow
no_transaction-EndsInteractive = inr refl

module _ (render : Operation → String) (is_non_transactional : String → Bool) (db : Database)
    (cfg : PushConfig) (ctx : Context) (input : List (List ℕ)) (ops : List Operation) where
  -- Without `--execute`, once the connection stands, what the database sees follows the protocol up
  -- to the closed connection: either the transaction was committed and no error is returned, or it
  -- was not committed.
  pub execute_plan-EndsInteractive :
      cfg.execute ≡ false
      → db.connect_fails ≡ false
      → EndsInteractive (execute_plan render is_non_transactional db cfg ctx input ops)
  unfolding execute_plan
  execute_plan-EndsInteractive interactive connected =
      if_ind EndsInteractive db.connect_fails (λ e. cc)
        λ _.
          if_ind EndsInteractive db.begin_fails (λ _. no_transaction-EndsInteractive)
            λ _. deferred-EndsInteractive _ (
              if_ind InteractivePost cfg.execute (λ e. cc)
                (λ _.
                  execute_interactive-InteractivePost render is_non_transactional db cfg ops 0 _
                    (IsOpen-first_session ctx input)))
