-- ===== src/Diff/Public.antt =====
-- internal/diff: the schema "public" is never dropped. Here: the operations and the states that
-- spare it, and the statements that keep such a state.
pub mod Tables
pub mod Objects
pub mod Schemas
use migra_go.Prelude.{
  String, Bool, true, false, Option, none, some, List, [], ◌∷◌, ◌≢◌, All, All-append, Map, get,
  if_ind, if◌then◌else◌,
}
use migra_go.Diff.Operation.{Operation, Payload, schema_op}
use migra_go.Diff.Payload.{drop_schema_op}
use migra_go.Diff.Context.{DiffContext, Statement, ◌>>◌, check_cancelled, add_op, warnf}
use migra_go.Diff.Context.Keeps.{
  Keeps, IsPollable, Keeps-then, Keeps-check, Keeps-for_each, Keeps-with_entry,
}
use migra_go.Diff.Names.{for_names, for_polled}

-- The operation does not drop the schema "public".
abbrev pub Spares : Payload → Type 0
Spares (schema_op (drop_schema_op name)) = name ≢ "public"
Spares _ = Unit

unfoldable pub IsSparing : DiffContext → Type 0
IsSparing c = All (λ op. Spares op.payload) c.ops

IsSafe-poll : IsPollable IsSparing
unfolding IsSparing
IsSafe-poll c s = s

-- A statement that adds only operations which spare it.
abbrev pub IsSafe : Statement → Type 0
IsSafe = Keeps IsSparing

pub IsSafe-add : (op : Operation) → Spares op.payload → IsSafe (add_op op)
unfolding add_op IsSparing
IsSafe-add op h = record {
  kept = λ c s. All-append (λ o. Spares o.payload) c.ops (op ∷ []) s (h, tt);
}

pub IsSafe-warn : (text : String) → IsSafe (warnf text)
unfolding warnf IsSparing
IsSafe-warn text = record { kept = λ c s. s }

pub IsSafe-check : IsSafe check_cancelled
IsSafe-check = Keeps-check IsSafe-poll

pub IsSafe-if : (b : Bool) {x y : Statement} → IsSafe x → IsSafe y → IsSafe (if b then x else y)
IsSafe-if b h k = if_ind IsSafe b (λ _. h) (λ _. k)

pub IsSafe-names {ℓ} :
    {V : Type ℓ} (names : List String) (m : Map V) {body : String → V → Statement}
    → ((name : String) (v : V) → IsSafe (body name v))
    → IsSafe (for_names names m body)
unfolding for_names
IsSafe-names names m h =
    Keeps-for_each names (λ name. Keeps-with_entry (get name m) (λ v _. h name v))

pub IsSafe-polled {ℓ} :
    {V : Type ℓ} (names : List String) (m : Map V) {body : String → V → Statement}
    → ((name : String) (v : V) → IsSafe (body name v))
    → IsSafe (for_polled names m body)
unfolding for_polled
IsSafe-polled names m h =
    Keeps-for_each names
      (λ name. Keeps-then IsSafe-check (Keeps-with_entry (get name m) (λ v _. h name v)))
