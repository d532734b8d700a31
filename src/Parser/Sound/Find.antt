-- ===== src/Parser/Sound/Find.antt =====
-- Where columns are found after a table has been put back.
use migra_go.Prelude.{
  String, some, ◌≡◌, inl, inr, refl, sym, get, get-put, str_eq, eq_iff, if◌then◌else◌, Bool-cases,
  Option-cases,
}
use migra_go.Model.Store.{
  TableRef, NamespaceRef, State, new_namespace, get_or_create_namespace, put_namespace,
}
use migra_go.Model.Store.Find.{find_table}
use migra_go.Parser.Apply.Table.{put_table}

-- A table is found in the namespace that is there or would be created.
find_table-created :
    (schema table : String) (s : State)
    → find_table schema table s ≡ get table (get_or_create_namespace schema s).tables
unfolding find_table get_or_create_namespace new_namespace get
find_table-created schema table s = elim (Option-cases (get schema s.schemas)) [
  | inl absent ↦ rw absent refl
  | inr (ns, at) ↦ rw at refl
]

find_table-put_namespace :
    (schema at_schema table : String) (ns : NamespaceRef) (s : State)
    → find_table schema table (put_namespace at_schema ns s)
      ≡ (if str_eq at_schema schema then get table ns.tables else find_table schema table s)
unfolding find_table put_namespace
find_table-put_namespace schema at_schema table ns s =
    rw (get-put at_schema schema ns s.schemas) (elim (Bool-cases (str_eq at_schema schema)) [
      | inl same ↦ rw same refl
      | inr other ↦ rw other refl
    ])

-- The table put back is found under its name, and every other as before.
pub find_table-put_table :
    (schema table at_schema at_table : String) (t : TableRef) (s : State)
    → find_table schema table (put_table at_schema at_table t s) ≡ (
        if str_eq at_schema schema
        then (if str_eq at_table table then some t else find_table schema table s)
        else find_table schema table s)
unfolding put_table
find_table-put_table schema table at_schema at_table t s =
    elim (Bool-cases (str_eq at_schema schema)) [
      | inl same ↦
          rw
            (
              find_table-put_namespace schema at_schema table _ s,
              same,
              get-put at_table table t (get_or_create_namespace at_schema s).tables,
              find_table-created schema table s,
              (eq_iff at_schema schema).0 same,
            )
            refl
      | inr other ↦ rw (find_table-put_namespace schema at_schema table _ s, other) refl
    ]

-- A namespace put back with the tables that it has changes no table.
pub find_table-same_tables :
    (schema table at_schema : String) (ns : NamespaceRef) (s : State)
    → ns.tables ≡ (get_or_create_namespace at_schema s).tables
    → find_table schema table (put_namespace at_schema ns s) ≡ find_table schema table s
find_table-same_tables schema table at_schema ns s e = elim (Bool-cases (str_eq at_schema schema)) [
  | inl same ↦
      rw
        (
          find_table-put_namespace schema at_schema table ns s,
          same,
          e,
          (eq_iff at_schema schema).0 same,
        )
        (sym (find_table-created schema table s))
  | inr other ↦ rw (find_table-put_namespace schema at_schema table ns s, other) refl
]
