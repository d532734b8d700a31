-- ===== src/Push/Execute.antt =====
-- internal/app/push/push_service.go: the two ways to execute a plan. The renderer and the test for
-- non-transactional statements are arguments, so that what is proved holds for any.
use migra_go.Prelude.{
  ℕ, suc, String, Bool, true, false, not, ◌&&◌, ◌||◌, List, [], ◌∷◌, str_eq, if◌then◌else◌,
}
use text.Mathlib.Text.{starts_with}
use migra_go.Context.{Context, err, polled}
use migra_go.Diff.Operation.{Operation, is_destructive}
use migra_go.Push.Session.{
  Event, begin, close, Database, no_connection, no_transaction, interrupted, non_transactional,
  Outcome, done, failed, Session, emit, roll_back, fail_with_rollback, execute_one,
  commit_transaction,
}
use migra_go.Push.Answer.{yes_once, cancel, apply_all, skip, invalid, read_answer}

-- PushConfig, as far as `ExecutePlan` reads it.
pub record PushConfig : Type 0 where
  pub unsafe_drop : Bool
  pub execute : Bool

abbrev pub poll : Session → Session
poll s = record s { ctx = polled s.ctx }

-- sql == "" || strings.HasPrefix(sql, "-- Unknown")
abbrev pub no_statement : String → Bool
no_statement sql = str_eq sql "" || starts_with sql "-- Unknown"

abbrev pub blocked : PushConfig → Operation → Bool
blocked cfg op = is_destructive op && not cfg.unsafe_drop

-- A branch of an `if err := …; err != nil { return s.failWithRollback(…) }`
abbrev pub or_roll_back : Outcome × Session → (Session → Outcome × Session) → Outcome × Session
or_roll_back (done, s) rest = rest s
or_roll_back (failed e, s) rest = fail_with_rollback e s

-- if err := …; err != nil { return err }, and the test whether the user cancelled.
abbrev pub while_active : Outcome × Session → (Session → Outcome × Session) → Outcome × Session
while_active (failed e, s) rest = (failed e, s)
while_active (done, s) rest = if s.active then rest s else (done, s)

-- The deferred calls: `ts.rollback`, then `conn.Close`.
abbrev pub deferred : Outcome × Session → Outcome × List Event
deferred (outcome, s) = (outcome, (emit close (roll_back s)).log)

abbrev pub first_session : Context → List (List ℕ) → Session
first_session ctx input = record {
  ctx = ctx;
  log = begin ∷ [];
  active = true;
  apply_all = false;
  input = input;
}

module _ (render : Operation → String) (is_non_transactional : String → Bool) (db : Database)
    (cfg : PushConfig) where
  unfoldable pub auto_step :
      ℕ → Operation → Session → (Session → Outcome × Session) → Outcome × Session
  unfolding fail_with_rollback execute_one
  auto_step i op s rest =
      if err s.ctx
      then fail_with_rollback interrupted (poll s)
      else if no_statement (render op)
      then rest (poll s)
      else if is_non_transactional (render op)
      then fail_with_rollback (non_transactional (suc i)) (poll s)
      else if blocked cfg op
      then rest (poll s)
      else or_roll_back (execute_one db (suc i) (render op) (poll s)) rest

  -- `executeAuto`, from the i-th operation on.
  unfoldable pub execute_auto : ℕ → List Operation → Session → Outcome × Session
  unfolding auto_step commit_transaction
  execute_auto i [] s = commit_transaction db s
  execute_auto i (op ∷ ops) s = auto_step i op s (execute_auto (suc i) ops)

  -- The `for` loop of `promptAndExecute`, over the lines that are left. At the end of the input
  -- `readUserInput` answers "n".
  unfoldable pub ask : ℕ → Operation → List (List ℕ) → Session → Outcome × Session
  unfolding roll_back execute_one
  ask idx op [] s = (done, roll_back (record s { input = [] }))
  ask idx op (line ∷ lines) s = elim (read_answer line) [
    | yes_once ↦
        if blocked cfg op
        then ask idx op lines s
        else execute_one db idx (render op) (record s { input = lines })
    | cancel ↦ (done, roll_back (record s { input = lines }))
    | apply_all ↦
        if blocked cfg op
        then ask idx op lines (record s { apply_all = false })
        else execute_one db idx (render op) (record s { input = lines; apply_all = true })
    | skip ↦ (done, record s { input = lines })
    | invalid ↦ ask idx op lines s
  ]

  unfoldable pub prompt_and_execute : ℕ → Operation → Session → Outcome × Session
  unfolding ask
  prompt_and_execute i op s =
      if s.apply_all
      then if blocked cfg op
        then ask (suc i) op s.input (record s { apply_all = false })
        else execute_one db (suc i) (render op) s
      else ask (suc i) op s.input s

  unfoldable pub interactive_step :
      ℕ → Operation → Session → (Session → Outcome × Session) → Outcome × Session
  unfolding fail_with_rollback prompt_and_execute
  interactive_step i op s rest =
      if err s.ctx
      then fail_with_rollback interrupted (poll s)
      else if no_statement (render op)
      then rest (poll s)
      else if is_non_transactional (render op)
      then fail_with_rollback (non_transactional (suc i)) (poll s)
      else while_active (prompt_and_execute i op (poll s)) rest

  unfoldable pub execute_interactive : ℕ → List Operation → Session → Outcome × Session
  unfolding interactive_step commit_transaction
  execute_interactive i [] s = commit_transaction db s
  execute_interactive i (op ∷ ops) s = interactive_step i op s (execute_interactive (suc i) ops)

  -- The outcome, and what the database has seen.
  unfoldable pub execute_plan : Context → List (List ℕ) → List Operation → Outcome × List Event
  unfolding execute_auto execute_interactive roll_back
  execute_plan ctx input ops =
      if db.connect_fails
      then (failed no_connection, [])
      else if db.begin_fails
      then (failed no_transaction, close ∷ [])
      else deferred (
          if cfg.execute
          then execute_auto 0 ops (first_session ctx input)
          else execute_interactive 0 ops (first_session ctx input))
