-- ===== src/Diff/Tables/Indexes.antt =====
-- internal/diff/diff_tables.go: the indexes of a table that both namespaces have.

use migra_go.Prelude.{String, Bool, true, false, not, ◌&&◌, List, [], ◌∷◌, get, str_eq, xor}
use migra_go.Model.Objects.{IndexElem, Index, Table}
use migra_go.Diff.Context.{Statement, ◌>>◌, add_op, when, with_entry}
use migra_go.Diff.Create.{new_create_index_op, new_drop_index_op}
use migra_go.Diff.Names.{only_in, in_both, for_names}

abbrev pub same_elem : IndexElem → IndexElem → Bool
same_elem a b =
    str_eq a.name b.name
    && str_eq a.index_col_name b.index_col_name
    && str_eq a.collation b.collation
    && str_eq a.expr b.expr
    && str_eq a.opclass b.opclass
    && str_eq a.ordering b.ordering
    && str_eq a.nulls_ordering b.nulls_ordering

-- The test of the lengths and the loop over the elements.
unfoldable pub same_elements : List IndexElem → List IndexElem → Bool
same_elements [] [] = true
same_elements [] (b ∷ bs) = false
same_elements (a ∷ rest) [] = false
same_elements (a ∷ rest) (b ∷ bs) = same_elem a b && same_elements rest bs

unfoldable pub same_index_content : Index → Index → Bool
unfolding same_elements
same_index_content a b =
    not (xor a.unique b.unique)
    && str_eq a.method b.method
    && str_eq a.where_clause b.where_clause
    && same_elements a.elements b.elements

unfoldable pub diff_table_indexes : String → Table → Table → Statement
diff_table_indexes schema source target = do
  for_names (only_in target.indexes source.indexes) target.indexes
      (λ name index. add_op (new_create_index_op schema index))
  for_names (only_in source.indexes target.indexes) source.indexes
      (λ name index. add_op (new_drop_index_op schema name))
  for_names (in_both target.indexes source.indexes) target.indexes (λ name tgt.
      with_entry (get name source.indexes) (λ src.
        when (not (same_index_content src tgt))
          (do add_op (new_drop_index_op schema name); add_op (new_create_index_op schema tgt))))
