-- ===== src/Push/Transaction.antt =====
-- Every push is one transaction that ends before the connection does: the states between two
-- statements.
pub mod Auto
pub mod Interactive
use migra_go.Prelude.{
  ℕ, suc, String, Bool, true, false, List, [], ◌∷◌, ◌≡◌, refl, ◌⊎◌, inl, inr, some, arith,
  if◌then◌else◌, if_ind, Bool-cases,
}
use migra_go.Context.{Context, err}
use migra_go.Diff.Operation.{Operation}
use migra_go.Push.Session.{
  Event, begin, exec, commit, commit_failed, rollback, close, Database, PushError, Outcome, done,
  interrupted, no_transaction, non_transactional, failed, Session, roll_back, fail_with_rollback,
  execute_one, commit_transaction,
}
use migra_go.Push.Answer.{Answer, yes_once, cancel, apply_all, skip, invalid, read_answer}
use migra_go.Push.Execute.{
  PushConfig, auto_step, execute_auto, ask, prompt_and_execute, interactive_step,
  execute_interactive, execute_plan, poll, or_roll_back, while_active, no_statement, blocked,
  deferred, first_session,
}
use migra_go.Push.Protocol.{
  idle, open_phase, committed, rolled_back, closed, follow, follow-append_one,
}

-- The transaction is open.
pub record IsOpen (s : Session) : Type 0 where
  pub is_active : s.active ≡ true
  pub at_open : follow (some idle) s.log ≡ some open_phase

-- The transaction is open, or it was rolled back.
abbrev pub IsUnfinished : Session → Type 0
IsUnfinished s = follow (some idle) s.log ≡ some (if s.active then open_phase else rolled_back)

abbrev pub IsCommitted : Session → Type 0
IsCommitted s = (s.active ≡ false) × (follow (some idle) s.log ≡ some committed)

pub IsOpen-IsUnfinished : (s : Session) → IsOpen s → IsUnfinished s
IsOpen-IsUnfinished s h = ground arith

pub roll_back-IsUnfinished :
    (s : Session) → IsUnfinished s → ((roll_back s).active ≡ false) × IsUnfinished (roll_back s)
unfolding roll_back
roll_back-IsUnfinished s h = ground (arith, follow-append_one (some idle) s.log rollback)

pub IsOpen-emit_exec :
    (s : Session) (idx : ℕ) (sql : String) (db : Database)
    → IsOpen s
    → IsOpen (execute_one db idx sql s).1
unfolding execute_one
IsOpen-emit_exec s idx sql db h = record {
  is_active = h.is_active;
  at_open = ground (arith, follow-append_one (some idle) s.log (exec idx sql));
}

pub Answer-cases :
    (P : Outcome × Session → Type 0) (a : Answer) {r t u v w : Outcome × Session}
    → P r
    → P t
    → P u
    → P v
    → P w
    → P (elim a [ yes_once ↦ r | cancel ↦ t | apply_all ↦ u | skip ↦ v | invalid ↦ w ])
Answer-cases P yes_once x y z v w = x
Answer-cases P cancel x y z v w = y
Answer-cases P apply_all x y z v w = z
Answer-cases P skip x y z v w = v
Answer-cases P invalid x y z v w = w

pub IsOpen-poll : (s : Session) → IsOpen s → IsOpen (poll s)
IsOpen-poll s h = record { is_active = h.is_active; at_open = h.at_open }

pub IsOpen-read : (s : Session) (l : List (List ℕ)) → IsOpen s → IsOpen (record s { input = l })
IsOpen-read s l h = record { is_active = h.is_active; at_open = h.at_open }

pub IsOpen-flag : (s : Session) → IsOpen s → IsOpen (record s { apply_all = false })
IsOpen-flag s h = record { is_active = h.is_active; at_open = h.at_open }

pub IsOpen-both :
    (s : Session) (l : List (List ℕ)) → IsOpen s → IsOpen (record s { input = l; apply_all = true })
IsOpen-both s l h = record { is_active = h.is_active; at_open = h.at_open }

pub IsOpen-first_session :
    (ctx : Context) (input : List (List ℕ)) → IsOpen (first_session ctx input)
unfolding follow
IsOpen-first_session ctx input = record { is_active = refl; at_open = refl }
