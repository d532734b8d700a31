-- ===== src/Parser/Sound/Rename.antt =====
-- Soundness and internal/parser/rename_column_mutation.go.
use migra_go.Model.Store.{ColumnRef}
use migra_go.Prelude.{
  ℕ, String, none, some, ◌≡◌, ◌≢◌, ◌⊎◌, inl, inr, refl, sym, ap, ◌∙◌, arith, subst, get, get-put,
  get-delete, delete, str_eq, eq_iff, nat_eq, if◌then◌else◌, Bool-cases,
}
use migra_go.Model.Store.{TableRef, State, write}
use migra_go.Model.Store.Find.{find_table, resolve_column}
use migra_go.Parser.Apply.Table.{put_table}
use migra_go.Parser.Apply.Column.{assign, renamed_ref}
use migra_go.Parser.Sound.{IsSound}
use migra_go.Parser.Sound.Steps.{resolve_column-put_table, Stands}

abbrev renamed : String → ColumnRef → ColumnRef
renamed new_name c = record c { name = new_name }

module _ (schema table old_name new_name : String) (s : State) (t : TableRef) (p : ℕ)
    (h : IsSound s) (stands : Stands schema table t s)
    (at : get old_name t.column_by_name ≡ some p) where
  abbrev t' : TableRef
  t' = renamed_ref old_name new_name p t

  abbrev written : State
  written = assign (renamed new_name) s p

  abbrev s' : State
  s' = put_table schema table t' written

  get-renamed :
      (k : String)
      → get k t'.column_by_name ≡ (
          if str_eq new_name k
          then some p
          else (if str_eq old_name k then none else get k t.column_by_name))
  get-renamed k =
      rw
        (
          get-put new_name k p (delete old_name t.column_by_name),
          get-delete old_name k t.column_by_name,
        )
        refl

  unwritten :
      (schema' table' column : String)
      → resolve_column schema' table' column written ≡ resolve_column schema' table' column s
  unfolding resolve_column find_table
  unwritten schema' table' column = refl

  name_elsewhere : (q : ℕ) → q ≢ p → (s'.store.cell q).name ≡ (s.store.cell q).name
  unfolding put_table write
  name_elsewhere q other = elim (Bool-cases (nat_eq q p)) [
    | inl same ↦ absurd (other (ground (arith, same)))
    | inr differs ↦ rw differs refl
  ]

  name_here : (s'.store.cell p).name ≡ new_name
  unfolding put_table write
  name_here = elim (Bool-cases (nat_eq p p)) [
    | inl same ↦ rw same refl
    | inr differs ↦ absurd (ground (arith, differs))
  ]

  same_next : s'.store.next ≡ s.store.next
  unfolding put_table write
  same_next = refl

  -- A column found afterwards is the renamed one, or another found under the same name before.
  abbrev MayStand : String → String → String → ℕ → Type 0
  MayStand schema' table' k q =
      ((schema ≡ schema') × (table ≡ table') × (q ≡ p) × (new_name ≡ k))
      ⊎ ((q ≢ p) × (resolve_column schema' table' k s ≡ some q))

  after_in_table :
      (k : String) (q : ℕ) → get k t'.column_by_name ≡ some q → MayStand schema table k q
  after_in_table k q e =
      let e' = sym (get-renamed k) ∙ e in
      elim (Bool-cases (str_eq new_name k)) [
        | inl same ↦ inl (refl, refl, ground (arith, e'), (eq_iff new_name k).0 same)
        | inr differs ↦
            let old : get k t.column_by_name ≡ some q = ground (arith, e') in
            inr (
              λ same. ground (
                arith,
                eq_iff old_name k,
                h.named schema table k q (stands k q old),
                h.named schema table old_name p (stands old_name p at),
              ),
              stands k q old,
            )
      ]

  after :
      (schema' table' k : String) (q : ℕ)
      → resolve_column schema' table' k s' ≡ some q
      → MayStand schema' table' k q
  after schema' table' k q e =
      elim (resolve_column-put_table schema table t' written schema' table' k q e) [
        | inl (same_schema, same_table, found) ↦
            subst (λ x. MayStand x table' k q) same_schema
              (subst (λ x. MayStand schema x k q) same_table (after_in_table k q found))
        | inr (elsewhere, found) ↦
            let old = sym (unwritten schema' table' k) ∙ found in
            inr (
              λ same.
                  let (is_schema, is_table) =
                    h.owned schema table old_name schema' table' k p (stands old_name p at)
                      (old ∙ ap some same) in
                  elsewhere is_schema is_table,
              old,
            )
      ]

  -- Where a column found afterwards was found before.
  before :
      (schema' table' k : String) (q : ℕ)
      → resolve_column schema' table' k s' ≡ some q
      → (j : String) × (resolve_column schema' table' j s ≡ some q)
  before schema' table' k q e = elim (after schema' table' k q e) [
    | inl (same_schema, same_table, same, _) ↦ (
      old_name,
      subst (λ x. resolve_column x table' old_name s ≡ some q) same_schema
          (subst (λ x. resolve_column schema x old_name s ≡ some q) same_table
            (stands old_name p at ∙ ap some (sym same))),
    )
    | inr (_, old) ↦ (k, old)
  ]

  pub rename-IsSound : IsSound s'
  rename-IsSound = record {
    named = λ schema' table' k q e. elim (after schema' table' k q e) [
      | inl (_, _, same, name) ↦ ap (λ x. (s'.store.cell x).name) same ∙ name_here ∙ name
      | inr (other, old) ↦ name_elsewhere q other ∙ h.named schema' table' k q old
    ];
    bounded = λ schema' table' k q e.
        let (j, old) = before schema' table' k q e in
        omega (arith, h.bounded schema' table' j q old, same_next);
    owned = λ schema₁ table₁ k₁ schema₂ table₂ k₂ q e₁ e₂.
        let (j₁, old₁) = before schema₁ table₁ k₁ q e₁ in
        let (j₂, old₂) = before schema₂ table₂ k₂ q e₂ in
        h.owned schema₁ table₁ j₁ schema₂ table₂ j₂ q old₁ old₂;
  }
