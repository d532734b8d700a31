-- ===== src/Examples/Parsing.antt =====
-- A parser with one handler, on a text of three statements.
use migra_go.Prelude.{
  ℕ, String, true, none, some, Option, List, [], ◌∷◌, ◌≡◌, refl, str_eq, if◌then◌else◌,
}
use migra_go.Prelude.Int.{pos}
use migra_go.Model.Store.{State, Store, new_schema}
use migra_go.Parser.Mutation.{create_table_mutation}
use migra_go.Parser.Applier.{MutationApplier}
use migra_go.Parser.Sound.{IsSound}
use migra_go.Parser.Parse.{
  Handling, mutations, unhandled, handler_panics, ParseError, RawStmt, Parsing,
  get_statement_snippet, summary, parsed, visit_all, parse_sql,
}
use migra_go.Parser.Parse.Snippet.{SnippetPost, get_statement_snippet-SnippetPost}
use migra_go.Parser.Parse.Sound.{Visits, parse_sql-Visits, parse_sql-IsSound}
use migra_go.Examples.{column_ref}

abbrev handle : String → Handling
handle stmt =
    if str_eq stmt "CREATE"
    then mutations (
        create_table_mutation "public" "accounts" (column_ref "id" "bigint" true ∷ []) none [] ∷ [])
    else if str_eq stmt "EMPTY"
    then unhandled "no name"
    else handler_panics

abbrev registry : String → Option (String → Handling)
registry stmt = if str_eq stmt "SELECT" then none else some handle

abbrev text : List ℕ
text = b'C' ∷ b';' ∷ b'C' ∷ b';' ∷ b'S' ∷ []

abbrev raws : List (RawStmt String)
raws =
    record { stmt = "CREATE"; stmt_location = pos 0 }
    ∷ record { stmt = "CREATE"; stmt_location = pos 2 }
    ∷ record { stmt = "SELECT"; stmt_location = pos 4 }
    ∷ []

abbrev fresh : Store
fresh = record { cell = λ p. column_ref "" "" true; next = 0; text = λ a. ""; next_text = 0 }

abbrev idle : MutationApplier
idle = record { errors = [] }

get_statement_snippet-SnippetPost_example :
    SnippetPost text (pos 2) (get_statement_snippet text (pos 2))
get_statement_snippet-SnippetPost_example = get_statement_snippet-SnippetPost text (pos 2)

parse_sql-Visits_example :
    (es : List ParseError) × (p : Parsing) × Visits registry text
      (record { applier = idle; schema = new_schema fresh })
      raws
      es
      p
    × (parse_sql registry text idle fresh (some raws) ≡ some (summary registry text es, p.schema))
parse_sql-Visits_example = parse_sql-Visits registry text idle fresh raws

abbrev result : Option (ℕ × ParseError) × State
result =
    parsed registry text
      (visit_all registry text [] (record { applier = idle; schema = new_schema fresh }) raws)

parse_sql-IsSound_example : IsSound result.1
parse_sql-IsSound_example =
    parse_sql-IsSound registry text idle fresh raws result (unfold parse_sql in refl)
