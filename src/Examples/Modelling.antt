-- ===== src/Examples/Modelling.antt =====
-- Columns of a concrete table.
use migra_go.Prelude.{true, false, none, ◌≡◌, refl, get, put}
use migra_go.Model.Objects.{Table}
use migra_go.Model.Columns.{new_table, add_column, remove_column}
use migra_go.Model.Columns.Consistent.{
  IsConsistent, new_table-IsConsistent, add_column-IsConsistent,
}
use migra_go.Model.Columns.Remove.{RemovePost, remove_column-RemovePost}
use migra_go.Examples.{column}

abbrev one_column : Table
one_column = add_column (column "id" "bigint" false) (new_table "public" "accounts")

abbrev two_columns : Table
two_columns = add_column (column "balance" "integer" true) one_column

one_column-IsConsistent : IsConsistent one_column
one_column-IsConsistent =
    add_column-IsConsistent (column "id" "bigint" false) (new_table "public" "accounts")
      (unfold new_table get in refl) (new_table-IsConsistent "public" "accounts")

balance_is_new : get "balance" one_column.column_index ≡ none
unfolding new_table add_column get put
balance_is_new = refl

two_columns-IsConsistent_example : IsConsistent two_columns
two_columns-IsConsistent_example =
    add_column-IsConsistent (column "balance" "integer" true) one_column balance_is_new
      one_column-IsConsistent

two_columns-IsConsistent : IsConsistent two_columns
two_columns-IsConsistent =
    add_column-IsConsistent (column "balance" "integer" true) one_column balance_is_new
      one_column-IsConsistent

remove_column_example : RemovePost "id" two_columns (remove_column "id" two_columns)
remove_column_example = remove_column-RemovePost "id" two_columns two_columns-IsConsistent
