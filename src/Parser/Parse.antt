-- ===== src/Parser/Parse.antt =====
-- internal/parser/parser.go: from the statements that pg_query finds to the schema. A syntax tree is
-- anything; the registry and its handlers are arguments, as they are of `NewParserWith`. A text is
-- the list of its bytes.
pub mod Snippet
pub mod Sound
use migra_go.Prelude.{
  ℕ, zero, suc, ◌+◌, ◌-◌, String, Bool, true, false, ◌||◌, not, Option, none, some, List, [], ◌∷◌,
  ◌++◌, length, ltb, leb, if◌then◌else◌,
}
use migra_go.Prelude.Int.{ℤ, pos, negsuc}
use migra_go.Model.Store.{State, Store, new_schema}
use migra_go.Parser.Mutation.{Mutation}
use migra_go.Parser.Applier.{
  MutationApplier, MutationError, Report, succeeded, failed, aborted, apply_mutations,
}

-- What `Handle` of a handler does.
pub data Handling : Type 0 where
  mutations : List Mutation → Handling
  unhandled : (message : String) → Handling
  handler_panics : Handling

pub data Message : Type 0 where
  unsupported_statement : Message
  handler_error : String → Message
  apply_error : (mutations errors : ℕ) → (first : MutationError) → Message
  recovered_from_panic : Message

pub record ParseError : Type 0 where
  pub message : Message
  pub position : ℤ
  pub statement : List ℕ

abbrev pub take : ℕ → List ℕ → List ℕ
take zero l = []
take (suc n) [] = []
take (suc n) (x ∷ l) = x ∷ take n l

abbrev pub drop : ℕ → List ℕ → List ℕ
drop zero l = l
drop (suc n) [] = []
drop (suc n) (x ∷ l) = drop n l

-- s[lo:hi], or `none` where Go panics
abbrev pub slice : ℕ → ℕ → List ℕ → Option (List ℕ)
slice lo hi s = if ltb hi lo || ltb (length s) hi then none else some (take (hi - lo) (drop lo s))

abbrev pub snippet_end : ℕ → ℕ → ℕ
snippet_end n len = if ltb len (n + 100) then len else n + 100

unfoldable pub get_statement_snippet : List ℕ → ℤ → Option (List ℕ)
get_statement_snippet sql (negsuc n) = some []
get_statement_snippet sql (pos n) =
    if leb (length sql) n then some [] else slice n (snippet_end n (length sql)) sql

abbrev pub recovered : ParseError
recovered = record { message = recovered_from_panic; position = negsuc 0; statement = [] }

abbrev with_snippet : Message → ℤ → Option (List ℕ) → ParseError
with_snippet message position none = recovered
with_snippet message position (some statement) = record {
  message = message;
  position = position;
  statement = statement;
}

unfoldable pub error_at : List ℕ → ℤ → Message → ParseError
unfolding get_statement_snippet
error_at sql position message = with_snippet message position (get_statement_snippet sql position)

pub record RawStmt (Node : Type 0) : Type 0 where
  pub stmt : Node
  pub stmt_location : ℤ

-- The parser's own state, and what it builds.
pub record Parsing : Type 0 where
  pub applier : MutationApplier
  pub schema : State

module _ {Node : Type 0} (registry : Node → Option (Node → Handling)) (sql : List ℕ) where
  abbrev pub after_apply : ℤ → Report × MutationApplier × State → Option ParseError × Parsing
  after_apply position (succeeded, a, s) = (none, record { applier = a; schema = s })
  after_apply position (failed n errors first, a, s) = (
    some (error_at sql position (apply_error n errors first)),
    record { applier = a; schema = s },
  )
  after_apply position (aborted, a, s) = (some recovered, record { applier = a; schema = s })

  abbrev pub after_handle : ℤ → Parsing → Handling → Option ParseError × Parsing
  after_handle position p (mutations ms) =
      after_apply position (apply_mutations p.applier p.schema ms)
  after_handle position p (unhandled e) = (some (error_at sql position (handler_error e)), p)
  after_handle position p handler_panics = (some recovered, p)

  abbrev pub with_handler :
      Node → ℤ → Parsing → Option (Node → Handling) → Option ParseError × Parsing
  with_handler stmt position p none = (some (error_at sql position unsupported_statement), p)
  with_handler stmt position p (some handle) = after_handle position p (handle stmt)

  unfoldable pub visit_node : Parsing → RawStmt Node → Option ParseError × Parsing
  unfolding error_at apply_mutations
  visit_node p raw = with_handler raw.stmt raw.stmt_location p (registry raw.stmt)

  abbrev pub add_error : Option ParseError → List ParseError → List ParseError
  add_error none errs = errs
  add_error (some e) errs = errs ++ e ∷ []

  -- The loop over the statements, with the errors so far.
  unfoldable pub visit_all :
      List ParseError → Parsing → List (RawStmt Node) → List ParseError × Parsing
  unfolding visit_node
  visit_all errs p [] = (errs, p)
  visit_all errs p (raw ∷ raws) =
      let (e, p') = visit_node p raw in visit_all (add_error e errs) p' raws

  -- The number of errors and the first, beside the schema; or that there is no syntax tree.
  abbrev pub summary : List ParseError → Option (ℕ × ParseError)
  summary [] = none
  summary (e ∷ es) = some (length (e ∷ es), e)

  abbrev pub parsed : List ParseError × Parsing → Option (ℕ × ParseError) × State
  parsed (errs, p) = (summary errs, p.schema)

  -- `tree` is what pg_query.Parse returns for the text.
  unfoldable pub parse_sql :
      MutationApplier
      → Store
      → Option (List (RawStmt Node))
      → Option (Option (ℕ × ParseError) × State)
  unfolding visit_all new_schema
  parse_sql a st none = none
  parse_sql a st (some raws) =
      some (parsed (visit_all [] (record { applier = a; schema = new_schema st }) raws))
