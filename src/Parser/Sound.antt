-- ===== src/Parser/Sound.antt =====
-- When a schema under construction (internal/parser) is sound: the predicate, and how it is carried
-- from one state to a later one.
pub mod Grows
pub mod Find
pub mod Steps
pub mod Rename
pub mod Tables
pub mod Columns
pub mod Preserved
use migra_go.Prelude.{
  ℕ, ◌<◌, ◌≤◌, String, Option, some, ◌≡◌, ◌⊎◌, inl, inr, sym, ap, ◌∙◌, arith, subst,
}
use migra_go.Model.Store.{State}
use migra_go.Model.Store.Find.{resolve_column}

pub record IsSound (s : State) : Type 0 where
  pub named :
      (schema table column : String) (p : ℕ)
      → resolve_column schema table column s ≡ some p
      → (s.store.cell p).name ≡ column
  pub bounded :
      (schema table column : String) (p : ℕ)
      → resolve_column schema table column s ≡ some p
      → p < s.store.next
  pub owned :
      (schema table column schema' table' column' : String) (p : ℕ)
      → resolve_column schema table column s ≡ some p
      → resolve_column schema' table' column' s ≡ some p
      → (schema ≡ schema') × (table ≡ table')

-- Where each column of a later state comes from: it was found there before, or it is new and stands
-- in the one table that has new columns.
abbrev pub Origin : State → State → String → String → Type 0
Origin s s' at_schema at_table =
    (schema table column : String) (p : ℕ)
    → resolve_column schema table column s' ≡ some p
    → (resolve_column schema table column s ≡ some p)
      ⊎ ((at_schema ≡ schema)
          × (at_table ≡ table)
          × (s.store.next ≤ p)
          × (p < s'.store.next)
          × ((s'.store.cell p).name ≡ column))

pub Origin-IsSound :
    (s s' : State) (at_schema at_table : String)
    → IsSound s
    → s.store.next ≤ s'.store.next
    → ((p : ℕ) → p < s.store.next → (s'.store.cell p).name ≡ (s.store.cell p).name)
    → Origin s s' at_schema at_table
    → IsSound s'
Origin-IsSound s s' at_schema at_table h grows kept origin = record {
  named = λ schema table column p e. elim (origin schema table column p e) [
    | inl old ↦ kept p (h.bounded schema table column p old) ∙ h.named schema table column p old
    | inr (_, _, _, _, name) ↦ name
  ];
  bounded = λ schema table column p e. elim (origin schema table column p e) [
    | inl old ↦ omega (arith, h.bounded schema table column p old)
    | inr (_, _, _, below, _) ↦ below
  ];
  owned = λ schema table column schema' table' column' p e e'.
      elim (origin schema table column p e) [
        | inl old ↦ elim (origin schema' table' column' p e') [
          | inl old' ↦ h.owned schema table column schema' table' column' p old old'
          | inr (_, _, above, _, _) ↦ absurd (omega (arith, h.bounded schema table column p old))
        ]
        | inr (same_schema, same_table, above, _, _) ↦ elim (origin schema' table' column' p e') [
          | inl old' ↦ absurd (omega (arith, h.bounded schema' table' column' p old'))
          | inr (same_schema', same_table', _, _, _) ↦
              (sym same_schema ∙ same_schema', sym same_table ∙ same_table')
        ]
      ];
}
