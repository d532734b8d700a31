-- ===== src/Diff/Tables/Constraints/Same.antt =====
-- When two constraints count as the same, and that the comparison of their content adds nothing.
use migra_go.Prelude.{
  String, true, ◌||◌, List, [], ◌∷◌, ◌≡◌, ◌↔◌, refl, ap, ◌∙◌, arith, str_eq, eq_iff, if◌then◌else◌,
  if_ind, sym,
}
use migra_go.Model.Objects.{Constraint}
use migra_go.Diff.Names.{same_string_slice, same_string_slice_refl}
use migra_go.Diff.Tables.Constraints.{
  same_constraint_content, same_constraint_semantics, same_reference,
}

-- The same columns of the same table under the same actions.
pub record SameReference (a b : Constraint) : Type 0 where
  pub ref_schema : a.ref_schema ≡ b.ref_schema
  pub ref_table : a.ref_table ≡ b.ref_table
  pub ref_columns : a.ref_columns ≡ b.ref_columns
  pub on_delete : a.on_delete ≡ b.on_delete
  pub on_update : a.on_update ≡ b.on_update

-- The same type and columns; for a foreign key also what it refers to, for a check its expression.
pub record SameMeaning (a b : Constraint) : Type 0 where
  pub type : a.type ≡ b.type
  pub columns : a.columns ≡ b.columns
  pub reference : a.type ≡ "foreign_key" → SameReference a b
  pub expression : a.type ≡ "check" → a.expression ≡ b.expression

same_string_slice→eq : (l m : List String) → same_string_slice l m ≡ true → l ≡ m
unfolding same_string_slice
same_string_slice→eq [] [] e = refl
same_string_slice→eq [] (y ∷ m) e = cc e
same_string_slice→eq (x ∷ l) [] e = cc e
same_string_slice→eq (x ∷ l) (y ∷ m) e =
    ap (λ z. z ∷ l) ((eq_iff x y).0 (ground (arith, e)))
    ∙ ap (λ n. y ∷ n) (same_string_slice→eq l m (ground (arith, e)))

slices_eq_iff : (l m : List String) → (same_string_slice l m ≡ true) ↔ (l ≡ m)
slices_eq_iff l m =
    (same_string_slice→eq l m, λ e. ap (same_string_slice l) (sym e) ∙ same_string_slice_refl l)

same_reference-SameReference : (a b : Constraint) → (same_reference a b ≡ true) ↔ SameReference a b
same_reference-SameReference a b =
    let schemas = eq_iff a.ref_schema b.ref_schema in
    let tables = eq_iff a.ref_table b.ref_table in
    let columns = slices_eq_iff a.ref_columns b.ref_columns in
    let deletes = eq_iff a.on_delete b.on_delete in
    let updates = eq_iff a.on_update b.on_update in
    (
      λ e. record {
        ref_schema = schemas.0 (ground (arith, e));
        ref_table = tables.0 (ground (arith, e));
        ref_columns = columns.0 (ground (arith, e));
        on_delete = deletes.0 (ground (arith, e));
        on_update = updates.0 (ground (arith, e));
      },
      λ r.
          rw
            (
              schemas.1 r.ref_schema,
              tables.1 r.ref_table,
              columns.1 r.ref_columns,
              deletes.1 r.on_delete,
              updates.1 r.on_update,
            )
            refl,
    )

-- The second comparison is true exactly for two constraints with the same meaning: the same type and
-- columns, for a foreign key the same reference with the same actions, for a check the same
-- expression. It is true wherever the comparison of the content is, so where the two stand side by
-- side the second alone decides.
pub same_constraint_semantics-SameMeaning :
    (a b : Constraint)
    → ((same_constraint_semantics a b ≡ true) ↔ SameMeaning a b)
      × ((same_constraint_content a b || same_constraint_semantics a b)
          ≡ same_constraint_semantics a b)
unfolding same_constraint_semantics same_constraint_content
same_constraint_semantics-SameMeaning a b =
    let types = eq_iff a.type b.type in
    let columns = slices_eq_iff a.columns b.columns in
    let references = same_reference-SameReference a b in
    let expressions = eq_iff a.expression b.expression in
    (
      (
        λ e. record {
          type = types.0 (ground (arith, e));
          columns = columns.0 (ground (arith, e));
          reference = λ is_key.
              let key : str_eq a.type "foreign_key" ≡ true =
                (eq_iff a.type "foreign_key").1 is_key in
              references.0 (ground (arith, e, key));
          expression = λ is_check.
              let check : str_eq a.type "check" ≡ true = (eq_iff a.type "check").1 is_check in
              expressions.0 (ground (arith, e, check));
        },
        λ m.
            let key : (if str_eq a.type "foreign_key" then same_reference a b else true) ≡ true =
              if_ind (λ t. t ≡ true) (str_eq a.type "foreign_key")
                (λ k. references.1 (m.reference ((eq_iff a.type "foreign_key").0 k))) (λ _. refl) in
            let check : (if str_eq a.type "check" then str_eq a.expression b.expression else true)
                ≡ true =
              if_ind (λ t. t ≡ true) (str_eq a.type "check")
                (λ k. expressions.1 (m.expression ((eq_iff a.type "check").0 k))) (λ _. refl) in
            rw (types.1 m.type, columns.1 m.columns, key, check) refl,
      ),
      ground arith,
    )
