-- ===== src/Parser/Sound/Steps.antt =====
-- Soundness and the ways in which a mutation of internal/parser changes the state.
use migra_go.Model.Store.{ColumnRef}
use migra_go.Prelude.{
  ℕ, String, some, ◌≡◌, ◌≢◌, ◌⊎◌, inl, inr, refl, sym, ap, ◌∙◌, arith, subst, get, str_eq, eq_iff,
  nat_eq, Bool-cases,
}
use migra_go.Model.Store.{
  TableRef, NamespaceRef, Store, State, write, get_or_create_namespace, put_namespace,
}
use migra_go.Model.Store.Find.{find_table, address_of, resolve_column}
use migra_go.Parser.Apply.Table.{put_table}
use migra_go.Parser.Apply.Column.{assign}
use migra_go.Parser.Sound.{IsSound, Origin-IsSound}
use migra_go.Parser.Sound.Grows.{Grows}
use migra_go.Parser.Sound.Find.{find_table-put_table, find_table-same_tables}

resolve_column-find :
    (schema table column : String) (s : State)
    → resolve_column schema table column s ≡ address_of column (find_table schema table s)
unfolding resolve_column
resolve_column-find schema table column s = refl

-- Where a column is found after a table has been put back.
abbrev pub PutBack : String → String → TableRef → State → String → String → String → ℕ → Type 0
PutBack at_schema at_table t s schema table column p =
    ((at_schema ≡ schema) × (at_table ≡ table) × (get column t.column_by_name ≡ some p))
    ⊎ ((at_schema ≡ schema → at_table ≢ table) × (resolve_column schema table column s ≡ some p))

pub resolve_column-put_table :
    (at_schema at_table : String) (t : TableRef) (s : State) (schema table column : String) (p : ℕ)
    → resolve_column schema table column (put_table at_schema at_table t s) ≡ some p
    → PutBack at_schema at_table t s schema table column p
resolve_column-put_table at_schema at_table t s schema table column p e =
    let found = find_table-put_table schema table at_schema at_table t s in
    let s' = put_table at_schema at_table t s in
    let e' = sym (resolve_column-find schema table column (put_table at_schema at_table t s)) ∙ e in
    elim (Bool-cases (str_eq at_schema schema)) [
      | inl same_schema ↦ elim (Bool-cases (str_eq at_table table)) [
        | inl same_table ↦
            let here : find_table schema table s' ≡ some t =
              rw (found, same_schema, same_table) refl in
            inl (
              (eq_iff at_schema schema).0 same_schema,
              (eq_iff at_table table).0 same_table,
              sym (ap (address_of column) here) ∙ e',
            )
        | inr other ↦
            let as_before : find_table schema table s' ≡ find_table schema table s =
              rw (found, same_schema, other) refl in
            inr (
              λ _ q. ground (arith, eq_iff at_table table),
              resolve_column-find schema table column s
                  ∙ sym (ap (address_of column) as_before)
                  ∙ e',
            )
      ]
      | inr other ↦
          let as_before : find_table schema table s' ≡ find_table schema table s =
            rw (found, other) refl in
          inr (
            λ q _. ground (arith, eq_iff at_schema schema),
            resolve_column-find schema table column s ∙ sym (ap (address_of column) as_before) ∙ e',
          )
    ]

-- The table in this place finds nothing else than the state does.
abbrev pub Stands : String → String → TableRef → State → Type 0
Stands schema table t s =
    (k : String) (p : ℕ)
    → get k t.column_by_name ≡ some p
    → resolve_column schema table k s ≡ some p

pub put_grown-IsSound :
    (schema table : String) (s : State) (t t' : TableRef) (st' : Store)
    → IsSound s
    → Stands schema table t s
    → Grows s.store t st' t'
    → IsSound (put_table schema table t' (record s { store = st' }))
unfolding put_table put_namespace
put_grown-IsSound schema table s t t' st' h stands g =
    Origin-IsSound s (put_table schema table t' (record s { store = st' })) schema table h
      g.next_grows g.names_kept
      (λ schema' table' column p e.
        elim (resolve_column-put_table schema table t' (record s { store = st' }) schema' table'
          column p e) [
            | inl (same_schema, same_table, at) ↦ elim (g.found column p at) [
              | inl old ↦ inl (
                  subst (λ x. resolve_column x table' column s ≡ some p) same_schema
                    (subst (λ x. resolve_column schema x column s ≡ some p) same_table
                      (stands column p old)))
              | inr (above, under, name) ↦ inr (same_schema, same_table, above, under, name)
            ]
            | inr (_, old) ↦ inl (unstored schema' table' column s st' ∙ old)
          ])
  where
    unstored :
        (schema table column : String) (s : State) (st' : Store)
        → resolve_column schema table column s
          ≡ resolve_column schema table column (record s { store = st' })
    unstored schema table column s st' = unfold resolve_column find_table in refl

pub same_tables-IsSound :
    (schema : String) (ns : NamespaceRef) (s : State)
    → ns.tables ≡ (get_or_create_namespace schema s).tables
    → IsSound s
    → IsSound (put_namespace schema ns s)
unfolding put_namespace
same_tables-IsSound schema ns s e h =
    Origin-IsSound s (put_namespace schema ns s) schema "" h (omega arith) (λ p lt. refl)
      (λ schema' table column p found. inl (
        resolve_column-find schema' table column s
        ∙ sym (ap (address_of column) (find_table-same_tables schema' table schema ns s e))
        ∙ sym (resolve_column-find schema' table column (put_namespace schema ns s))
        ∙ found))

pub assign-IsSound :
    (f : ColumnRef → ColumnRef) (s : State) (p : ℕ)
    → ((c : ColumnRef) → (f c).name ≡ c.name)
    → IsSound s
    → IsSound (assign f s p)
unfolding write resolve_column find_table
assign-IsSound f s p names h =
    Origin-IsSound s (assign f s p) "" "" h (omega arith)
      (λ q lt. elim (Bool-cases (nat_eq q p)) [
        | inl same ↦
            let here : q ≡ p = ground (arith, same) in
            rw same (names (s.store.cell p) ∙ ap (λ x. (s.store.cell x).name) (sym here))
        | inr other ↦ rw other refl
      ])
      (λ schema table column q e. inl e)
