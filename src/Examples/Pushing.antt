-- ===== src/Examples/Pushing.antt =====
-- Pushing a concrete plan.
use migra_go.Prelude.{ℕ, String, Bool, true, false, List, [], ◌∷◌, refl, if◌then◌else◌}
use migra_go.Diff.Operation.{Operation, is_destructive}
use migra_go.Push.Session.{Database}
use migra_go.Push.Execute.{PushConfig, execute_plan}
use migra_go.Push.Transaction.Auto.{EndsAuto, execute_plan-EndsAuto}
use migra_go.Push.Transaction.Interactive.{EndsInteractive, execute_plan-EndsInteractive}
use migra_go.Examples.{calm, sample_ops}

abbrev render : Operation → String
render op = if is_destructive op then "DROP" else "ALTER"

abbrev always_transactional : String → Bool
always_transactional sql = false

-- A database on which everything works.
abbrev database : Database
database = record {
  connect_fails = false;
  begin_fails = false;
  exec_fails = λ log sql. false;
  commit_fails = λ log. false;
}

abbrev auto : PushConfig
auto = record { unsafe_drop = false; execute = true }

abbrev interactive : PushConfig
interactive = record { unsafe_drop = false; execute = false }

-- The user answers "y", "s" and "a".
abbrev answers : List (List ℕ)
answers = (b'y' ∷ []) ∷ (b's' ∷ []) ∷ (b'A' ∷ b' ' ∷ []) ∷ []

execute_plan-EndsAuto_example :
    EndsAuto (execute_plan render always_transactional database auto calm [] sample_ops)
execute_plan-EndsAuto_example =
    execute_plan-EndsAuto render always_transactional database auto calm [] sample_ops refl refl

execute_plan-EndsInteractive_example :
    EndsInteractive
      (execute_plan render always_transactional database interactive calm answers sample_ops)
execute_plan-EndsInteractive_example =
    execute_plan-EndsInteractive render always_transactional database interactive calm answers
      sample_ops refl refl
