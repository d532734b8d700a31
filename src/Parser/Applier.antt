-- ===== src/Parser/Applier.antt =====
-- internal/parser/applier.go: applying the mutations of a statement.
pub mod Accounting
pub mod Rejected
use migra_go.Prelude.{ℕ, List, [], ◌∷◌, ◌++◌, length}
use migra_go.Model.Store.{State}
use migra_go.Parser.Outcome.{ApplyError, Outcome, applied, rejected, panicked}
use migra_go.Parser.Mutation.{Mutation}
use migra_go.Parser.Apply.{apply}

pub record MutationError : Type 0 where
  pub mutation : Mutation
  pub cause : ApplyError

pub record MutationApplier : Type 0 where
  pub errors : List MutationError

-- `nil`; the error with its two counts and the first error; or a panic of a mutation, which goes on.
pub data Report : Type 0 where
  succeeded : Report
  failed : (mutations errors : ℕ) → (first : MutationError) → Report
  aborted : Report

abbrev pub report_of : ℕ → List MutationError → Report
report_of n [] = succeeded
report_of n (e ∷ es) = failed n (length (e ∷ es)) e

-- The loop; `n` is the number of all mutations.
unfoldable pub apply_from :
    ℕ → List MutationError → List Mutation → State → Report × MutationApplier × State
unfolding apply
apply_from n errors [] s = (report_of n errors, record { errors = errors }, s)
apply_from n errors (m ∷ ms) s =
    let (outcome, s') = apply m s in
    elim outcome [
      | applied ↦ apply_from n errors ms s'
      | rejected e ↦ apply_from n (errors ++ record { mutation = m; cause = e } ∷ []) ms s'
      | panicked ↦ (aborted, record { errors = errors }, s')
    ]

-- Errors of an earlier call are dropped.
unfoldable pub apply_mutations :
    MutationApplier → State → List Mutation → Report × MutationApplier × State
unfolding apply_from
apply_mutations a s ms = apply_from (length ms) [] ms s
