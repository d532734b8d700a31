-- ===== src/Push/Guard.antt =====
-- Which statements a push sends to the database.
use migra_go.Prelude.{ℕ, suc, ◌+◌, String, Bool, false, List, ◌≡◌, some, All, get_elem?}
use migra_go.Context.{Context}
use migra_go.Diff.Operation.{Operation}
use migra_go.Push.Session.{Event, exec, Database, Outcome, Session}
use migra_go.Push.Execute.{PushConfig, blocked}

module _ (render : Operation → String) (is_non_transactional : String → Bool) (cfg : PushConfig)
    (ops : List Operation) where
  -- The statement with this number renders the operation at its place in the plan, which is not
  -- destructive unless --unsafe-drop is given, and it is not one that refuses a transaction.
  pub record IsAllowed (idx : ℕ) (sql : String) : Type 0 where
    pub place : ℕ
    pub op : Operation
    pub planned : get_elem? ops place ≡ some op
    pub numbered : idx ≡ suc place
    pub rendered : sql ≡ render op
    pub safe : blocked cfg op ≡ false
    pub in_transaction : is_non_transactional sql ≡ false

  abbrev pub EventIsAllowed : Event → Type 0
  EventIsAllowed (exec idx sql) = IsAllowed idx sql
  EventIsAllowed _ = Unit

  -- Every statement that the database has seen is allowed.
  pub IsGuarded : Session → Type 0
  IsGuarded s = All EventIsAllowed s.log

  GuardPost : Outcome × Session → Type 0
  GuardPost (outcome, s) = IsGuarded s

  module _ (db : Database) where
    -- `rest` is what the plan holds from the i-th operation on.
    abbrev FromPlace : ℕ → List Operation → Type 0
    FromPlace i rest = (j : ℕ) → get_elem? ops (j + i) ≡ get_elem? rest j

    LogIsAllowed : Outcome × List Event → Type 0
    LogIsAllowed r = All EventIsAllowed r.1
