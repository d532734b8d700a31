-- ===== src/Model/Store/Find.antt =====
-- internal/parser/mutation.go: `resolveColumn`, and finding objects in general.
use migra_go.Prelude.{ℕ, String, Option, none, some, get}
use migra_go.Model.Store.{TableRef, NamespaceRef, State}

abbrev pub table_of : String → Option NamespaceRef → Option TableRef
table_of table none = none
table_of table (some ns) = get table ns.tables

abbrev pub address_of : String → Option TableRef → Option ℕ
address_of column none = none
address_of column (some t) = get column t.column_by_name

-- schema.Schemas[schema].Tables[table], where both exist
unfoldable pub find_table : String → String → State → Option TableRef
find_table schema table s = table_of table (get schema s.schemas)

-- `resolveColumn`: the address of the column, or `none` for each of its three errors.
unfoldable pub resolve_column : String → String → String → State → Option ℕ
unfolding find_table
resolve_column schema table column s = address_of column (find_table schema table s)
