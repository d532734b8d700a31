-- ===== src/Examples/Diffing.antt =====
-- Comparing at concrete schemas.
use migra_go.Prelude.{
  ◌↔◌, ◌||◌, String, Bool, true, false, none, some, [], ◌∷◌, ◌≡◌, refl, All, get, str_eq,
  if◌then◌else◌, subst,
}
use migra_go.Model.Objects.{Column, Table, Namespace}
use migra_go.Diff.Operation.{Operation}
use migra_go.Diff.Context.{new_diff_context}
use migra_go.Diff.Objects.{diff_enum_type}
use migra_go.Diff.Objects.Types.Append.{EnumPost, diff_enum_type-EnumPost}
use migra_go.Diff.Public.{Spares}
use migra_go.Diff.Public.Schemas.{diff-Spares}
use migra_go.Diff.Schemas.{diff}
use migra_go.Diff.Tables.{same_constraint_content, same_constraint_semantics}
use migra_go.Diff.Tables.Constraints.Same.{SameMeaning, same_constraint_semantics-SameMeaning}
use migra_go.Diff.Unchanged.Schemas.{SchemaIsListed, diff-same}
use migra_go.Diff.Unchanged.Tables.{TablesAreListed, ColumnsAreListed}
use migra_go.Examples.{
  calm, column, check_positive, old_accounts, new_accounts, status, namespace_of, schema_of,
}

abbrev old_balance : Column
old_balance = column "balance" "integer" true

abbrev new_balance : Column
new_balance = column "balance" "bigint" false

diff_enum_type_example :
    EnumPost "public" "status"
      (status ("open" ∷ []))
      (status ("open" ∷ "closed" ∷ []))
      (new_diff_context calm)
      (diff_enum_type "public" "status"
        (status ("open" ∷ []))
        (status ("open" ∷ "closed" ∷ []))
        (new_diff_context calm))
diff_enum_type_example =
    diff_enum_type-EnumPost "public" "status" (status ("open" ∷ []))
      (status ("open" ∷ "closed" ∷ [])) (new_diff_context calm)

same_constraint_semantics_example :
    ((same_constraint_semantics check_positive check_positive ≡ true)
      ↔ SameMeaning check_positive check_positive)
    × ((same_constraint_content check_positive check_positive
          || same_constraint_semantics check_positive check_positive)
        ≡ same_constraint_semantics check_positive check_positive)
same_constraint_semantics_example =
    same_constraint_semantics-SameMeaning check_positive check_positive

-- The only entry of a map.
the_entry {ℓ} : {V : Type ℓ} (k j : String) (v w : V) → get j ((k, v) ∷ []) ≡ some w → v ≡ w
unfolding get
the_entry k j v w = entry (str_eq k j)
  where
    entry : (b : Bool) → (if b then some v else none) ≡ some w → v ≡ w
    entry true e = cc e
    entry false e = cc e

abbrev public_namespace : Namespace
public_namespace = namespace_of "public" old_accounts

accounts_listed : SchemaIsListed (schema_of "public" old_accounts)
unfolding get
accounts_listed name ns e name' t e' = at_namespace ns (the_entry "public" name _ ns e) name' t e'
  where
    at_table : (u : Table) → old_accounts ≡ u → ColumnsAreListed u
    at_table u q = subst ColumnsAreListed q (refl, (refl, tt))

    at_namespace : (m : Namespace) → public_namespace ≡ m → TablesAreListed m
    at_namespace m p = subst TablesAreListed p (λ j u q. at_table u (the_entry "accounts" j _ u q))

diff_same_example :
    ((diff calm (schema_of "public" old_accounts) (schema_of "public" old_accounts)).ops ≡ [])
    × ((diff calm (schema_of "public" old_accounts) (schema_of "public" old_accounts)).warnings
        ≡ [])
diff_same_example = diff-same calm (schema_of "public" old_accounts) accounts_listed

diff-Spares_example :
    All
      (λ op. Spares op.payload)
      (diff calm (schema_of "public" old_accounts) (schema_of "app" new_accounts)).ops
diff-Spares_example =
    diff-Spares calm (schema_of "public" old_accounts) (schema_of "app" new_accounts)
