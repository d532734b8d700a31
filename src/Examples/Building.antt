-- ===== src/Examples/Building.antt =====
-- Statements applied to a concrete schema.
use migra_go.Prelude.{true, false, none, some, List, [], ◌∷◌, ◌≡◌, refl, inl, get, put}
use migra_go.Model.Store.{
  TableRef, State, new_schema, new_namespace, get_or_create_namespace, put_namespace, write,
  allocate, new_table_ref, add_column_ref,
}
use migra_go.Model.Store.Find.{find_table, resolve_column}
use migra_go.Parser.Outcome.{applied, rejected, already_exists}
use migra_go.Parser.Mutation.{
  Mutation, create_table_mutation, alter_column_type_mutation, rename_column_mutation,
  drop_column_mutation,
}
use migra_go.Parser.Apply.{apply}
use migra_go.Parser.Apply.Table.{
  put_table, apply_table_metadata, add_columns, merge_columns, apply_create_table,
}
use migra_go.Parser.Sound.{IsSound}
use migra_go.Parser.Sound.Preserved.{new_schema-IsSound, apply-IsSound}
use migra_go.Parser.Applier.{MutationApplier, apply_mutations}
use migra_go.Parser.Applier.Accounting.{
  Accounted, apply_mutations-Accounted, apply_mutations-IsSound,
}
use migra_go.Parser.Applier.Rejected.{SameTables, apply-SameTables}
use migra_go.Parser.Effects.{RetypedAt, alter_column_type-RetypedAt, drop_column-rename_column}
use migra_go.Examples.{column_ref}

abbrev empty : State
empty =
    new_schema
      (record { cell = λ p. column_ref "" "" true; next = 0; text = λ a. ""; next_text = 0 })

abbrev create_accounts : Mutation
create_accounts =
    create_table_mutation "public" "accounts"
      (column_ref "id" "bigint" false ∷ column_ref "balance" "integer" true ∷ []) none []

abbrev accounts : State
accounts = (apply create_accounts empty).1

accounts-IsSound : IsSound accounts
accounts-IsSound = apply-IsSound create_accounts empty (new_schema-IsSound _)

abbrev widen : Mutation
widen = alter_column_type_mutation "public" "accounts" "balance" "" "bigint" ""

apply-IsSound_example : IsSound (apply widen accounts).1
apply-IsSound_example = apply-IsSound widen accounts accounts-IsSound

balance_found : resolve_column "public" "accounts" "balance" accounts ≡ some 1
unfolding apply apply_create_table find_table resolve_column put_table put_namespace
    get_or_create_namespace new_namespace new_schema new_table_ref add_columns add_column_ref
    allocate write apply_table_metadata get put
balance_found = refl

id_found : resolve_column "public" "accounts" "id" accounts ≡ some 0
unfolding apply apply_create_table find_table resolve_column put_table put_namespace
    get_or_create_namespace new_namespace new_schema new_table_ref add_columns add_column_ref
    allocate write apply_table_metadata get put
id_found = refl

alter_column_type-RetypedAt_example :
    ((apply widen accounts).0 ≡ applied)
    × (resolve_column "public" "accounts" "id" (apply widen accounts).1 ≡ some 0)
    × RetypedAt false "bigint" 0 accounts (apply widen accounts).1
alter_column_type-RetypedAt_example =
    alter_column_type-RetypedAt "public" "accounts" "balance" "" "bigint" "" "public" "accounts"
      "id" accounts 1 0 accounts-IsSound balance_found (inl refl) id_found

abbrev statements : List Mutation
statements = create_accounts ∷ create_accounts ∷ widen ∷ []

abbrev idle : MutationApplier
idle = record { errors = [] }

apply_mutations-Accounted_example :
    Accounted 3 [] statements empty (apply_mutations idle empty statements)
apply_mutations-Accounted_example = apply_mutations-Accounted idle empty statements

apply_mutations-IsSound_example : IsSound (apply_mutations idle empty statements).2
apply_mutations-IsSound_example =
    apply_mutations-IsSound idle empty statements (new_schema-IsSound _)

created_twice : (apply create_accounts accounts).0 ≡ rejected already_exists
unfolding apply apply_create_table find_table resolve_column put_table put_namespace
    get_or_create_namespace new_namespace new_schema new_table_ref add_columns add_column_ref
    allocate write apply_table_metadata get put merge_columns
created_twice = refl

apply-SameTables_example : SameTables accounts (apply create_accounts accounts).1
apply-SameTables_example =
    apply-SameTables create_accounts accounts already_exists created_twice (λ e. absurd (cc e))

abbrev accounts_table : TableRef
accounts_table = record (new_table_ref "public" "accounts") {
  columns = 0 ∷ 1 ∷ [];
  column_by_name = ("id", 0) ∷ ("balance", 1) ∷ [];
  column_index = ("id", 0) ∷ ("balance", 1) ∷ [];
}

accounts_found : find_table "public" "accounts" accounts ≡ some accounts_table
unfolding apply apply_create_table find_table resolve_column put_table put_namespace
    get_or_create_namespace new_namespace new_schema new_table_ref add_columns add_column_ref
    allocate write apply_table_metadata get put
accounts_found = refl

abbrev rename : Mutation
rename = rename_column_mutation "public" "accounts" "balance" "amount"

abbrev drop : Mutation
drop = drop_column_mutation "public" "accounts" "amount"

drop_column-rename_column_example :
    ((apply rename accounts).0 ≡ applied)
    × ((apply drop (apply rename accounts).1).0 ≡ applied)
    × (find_table "public" "accounts" (apply drop (apply rename accounts).1).1
        ≡ find_table "public" "accounts" (apply rename accounts).1)
    × (resolve_column "public" "accounts" "amount" (apply drop (apply rename accounts).1).1
        ≡ some 1)
drop_column-rename_column_example =
    drop_column-rename_column "public" "accounts" "balance" "amount" accounts accounts_table 1
      accounts_found (unfold new_table_ref in refl) (unfold get in refl) (unfold get in refl)
      (unfold get in refl)
