-- ===== src/Push/Session.antt =====
-- internal/app/push/push_service.go: the transaction of one push, and what it did to the database.
use migra_go.Prelude.{ℕ, String, Bool, false, List, [], ◌∷◌, ◌++◌, if◌then◌else◌}
use migra_go.Context.{Context}

-- What the database sees.
pub data Event : Type 0 where
  begin : Event
  exec : (idx : ℕ) → (sql : String) → Event
  commit : Event
  commit_failed : Event
  rollback : Event
  close : Event

-- The answers of the database, which may depend on all that it has seen.
pub record Database : Type 0 where
  pub connect_fails : Bool
  pub begin_fails : Bool
  pub exec_fails : List Event → String → Bool
  pub commit_fails : List Event → Bool

pub data PushError : Type 0 where
  no_connection : PushError
  no_transaction : PushError
  interrupted : PushError
  non_transactional : ℕ → PushError
  exec_error : ℕ → PushError
  commit_error : PushError

pub data Outcome : Type 0 where
  done : Outcome
  failed : PushError → Outcome

-- `transactionState`, the flag `applyAll`, and the lines that standard input has left.
pub record Session : Type 0 where
  pub ctx : Context
  pub log : List Event
  pub active : Bool
  pub apply_all : Bool
  pub input : List (List ℕ)

abbrev pub emit : Event → Session → Session
emit e s = record s { log = s.log ++ e ∷ [] }

unfoldable pub roll_back : Session → Session
roll_back s = if s.active then record (emit rollback s) { active = false } else s

unfoldable pub fail_with_rollback : PushError → Session → Outcome × Session
unfolding roll_back
fail_with_rollback e s = (failed e, roll_back s)

unfoldable pub execute_one : Database → ℕ → String → Session → Outcome × Session
execute_one db idx sql s =
    (if db.exec_fails s.log sql then failed (exec_error idx) else done, emit (exec idx sql) s)

unfoldable pub commit_transaction : Database → Session → Outcome × Session
commit_transaction db s =
    if db.commit_fails s.log
    then (failed commit_error, emit commit_failed s)
    else (done, record (emit commit s) { active = false })
