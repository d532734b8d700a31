-- ===== src/Diff/Render/Index.antt =====
-- internal/diff/operation_index.go: the statements.
use migra_go.Prelude.{String, Bool, ◌||◌, List, [], ◌∷◌, concat, join, map, str_eq, if◌then◌else◌}
use migra_go.Model.Objects.{IndexElem}
use migra_go.Util.{quote_identifier, quote_qualified_identifier}
use migra_go.Diff.Payload.{IndexOp, create_index_op, drop_index_op}
use migra_go.Diff.Render.Statement.{statement, if_exists_prefix}

abbrev when_set : String → List String → String
when_set text clause = if str_eq text "" then "" else concat clause

unfoldable pub render_index_elem : IndexElem → String
unfolding quote_identifier
render_index_elem elem = concat (
    (if str_eq elem.name ""
      then when_set elem.expr ("(" ∷ elem.expr ∷ ")" ∷ [])
      else quote_identifier elem.name)
    ∷ when_set elem.collation (" COLLATE " ∷ quote_identifier elem.collation ∷ [])
    ∷ when_set elem.opclass (" " ∷ elem.opclass ∷ [])
    ∷ (if str_eq elem.ordering "ASC" || str_eq elem.ordering "DESC"
        then concat (" " ∷ elem.ordering ∷ [])
        else "")
    ∷ (if str_eq elem.nulls_ordering "FIRST" || str_eq elem.nulls_ordering "LAST"
        then concat (" NULLS " ∷ elem.nulls_ordering ∷ [])
        else "")
    ∷ [])

abbrev elem_items : List IndexElem → List String
elem_items [] = []
elem_items (e ∷ es) =
    let rest = elem_items es in
    let s = render_index_elem e in if str_eq s "" then rest else s ∷ rest

abbrev index_items : List IndexElem → List String → List String
index_items [] columns = map quote_identifier columns
index_items (e ∷ es) columns = elem_items (e ∷ es)

unfoldable pub render_index_op : Bool → IndexOp → String
unfolding render_index_elem quote_identifier quote_qualified_identifier
render_index_op use_if_exists (create_index_op schema idx) = statement "add_index" "low" (
    "CREATE "
    ∷ (if idx.unique then "UNIQUE " else "")
    ∷ (if idx.concurrent then "CONCURRENTLY " else "")
    ∷ (if idx.if_not_exists then "IF NOT EXISTS " else "")
    ∷ "INDEX "
    ∷ quote_identifier idx.name
    ∷ " ON "
    ∷ quote_qualified_identifier schema idx.table
    ∷ when_set idx.method (" USING " ∷ idx.method ∷ [])
    ∷ " ("
    ∷ join ", " (index_items idx.elements idx.columns)
    ∷ ")"
    ∷ when_set idx.where_clause (" WHERE " ∷ idx.where_clause ∷ [])
    ∷ [])
render_index_op use_if_exists (drop_index_op schema name) =
    statement "drop_index" "medium"
      ("DROP INDEX " ∷ if_exists_prefix use_if_exists ∷ quote_qualified_identifier schema name ∷ [])
