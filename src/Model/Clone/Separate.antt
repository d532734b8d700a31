-- ===== src/Model/Clone/Separate.antt =====
-- About `Clone` of tables: what a copy is.
use migra_go.Prelude.{
  ℕ, String, some, List, [], ◌∷◌, ◌≡◌, inl, inr, refl, sym, ap, ◌∙◌, subst, map, Map, All, get, has,
  true,
}
use migra_go.Model.Store.{TableRef, Store}
use migra_go.Model.Store.Allocate.{
  IsBelow, Preserves, Preserves-refl, Preserves-trans, Preserves-map, Preserves-IsBelow, column_at,
}
use migra_go.Model.Clone.Same.{
  map_values-same, clone_primary_key-same, clone_constraint-same, clone_index-same,
}
use migra_go.Model.Clone.New.{IsNew, IsNew-IsBelow, IsNew-widen}
use migra_go.Model.Clone.Maps.{Agrees, Agrees-later}
use migra_go.Model.Clone.Columns.{
  frame, IsNew-All, clone_columns-Extends, clone_columns-has_names, old_names,
}
use migra_go.Model.Clone.{clone_columns, clone_frame, clone_table, clone_tables}

-- The copy has the same column values in the same order, all behind new addresses. Its maps have the
-- names of these columns, find them and their places, and nothing that is not new. All else is equal.
pub record Copy (st : Store) (t : TableRef) (st' : Store) (t' : TableRef) : Type 0 where
  pub same_values : map (column_at st') t'.columns ≡ map (column_at st) t.columns
  pub all_new : All (IsNew st st') t'.columns
  pub found_new : (k : String) (p : ℕ) → get k t'.column_by_name ≡ some p → IsNew st st' p
  pub agrees : Agrees st' t'
  pub all_found : All (λ p. has (st.cell p).name t'.column_index ≡ true) t.columns
  pub same_frame : frame t' ≡ frame t

clone_frame-same : (t : TableRef) → frame (clone_frame t) ≡ frame t
unfolding clone_frame
clone_frame-same t =
    rw
      (
        clone_primary_key-same t.primary_key,
        map_values-same _ t.constraints clone_constraint-same,
        map_values-same _ t.indexes clone_index-same,
      )
      refl

clone_table-Copy :
    (st : Store) (t : TableRef)
    → All (IsBelow st) t.columns
    → Preserves st (clone_table st t).0 × Copy st t (clone_table st t).0 (clone_table st t).1
unfolding clone_table
clone_table-Copy st t h =
    let e = clone_columns-Extends 0 t.columns st (clone_frame t) h (unfold clone_frame in refl) in
    let st' = (clone_columns 0 t.columns st (clone_frame t)).0 in
    let columns = e.appended ∙ unfold clone_frame in refl in
    (
      e.preserves,
      record {
        same_values = ap (map (column_at st')) columns ∙ e.same_values;
        all_new = subst (All (IsNew st st')) (sym columns) e.all_new;
        found_new = λ k p at. elim (e.found_new k p at) [
          | inl old ↦ absurd (no_name k p old)
          | inr new ↦ new
        ];
        agrees = e.agrees no_entries;
        all_found = clone_columns-has_names 0 t.columns st (clone_frame t) h;
        same_frame = e.same_frame ∙ clone_frame-same t;
      },
    )
  where
    no_name : (k : String) (p : ℕ) → get k (clone_frame t).column_by_name ≡ some p → ⊥
    no_name k p e = unfold clone_frame get in cc e

    no_place : (k : String) (i : ℕ) → get k (clone_frame t).column_index ≡ some i → ⊥
    no_place k i e = unfold clone_frame get in cc e

    no_entries : Agrees st (clone_frame t)
    no_entries = record {
      placed = λ k i e. absurd (no_place k i e);
      found = λ k p e. absurd (no_name k p e);
    }

upper_bounds : (st st' : Store) (ps : List ℕ) → All (IsNew st st') ps → All (IsBelow st') ps
upper_bounds st st' [] h = tt
upper_bounds st st' (p ∷ ps) h = (IsNew-IsBelow st st' p h.0, upper_bounds st st' ps h.1)

-- A copy stays one while more is copied, and is one of what stood there before.
Copy-later :
    (st : Store) (t : TableRef) (st₁ st₂ : Store) (t' : TableRef)
    → Preserves st₁ st₂
    → Copy st t st₁ t'
    → Copy st t st₂ t'
Copy-later st t st₁ st₂ t' g c = record {
  same_values =
      Preserves-map st₁ st₂ t'.columns g (upper_bounds st st₁ t'.columns c.all_new) ∙ c.same_values;
  all_new = IsNew-All st st st₁ st₂ t'.columns (Preserves-refl st) g c.all_new;
  found_new = λ k p e. IsNew-widen st st st₁ st₂ p (Preserves-refl st) g (c.found_new k p e);
  agrees = Agrees-later st₁ st₂ t' g c.agrees;
  all_found = c.all_found;
  same_frame = c.same_frame;
}

Copy-earlier :
    (st st₁ : Store) (t : TableRef) (st₂ : Store) (t' : TableRef)
    → Preserves st st₁
    → All (IsBelow st) t.columns
    → Copy st₁ t st₂ t'
    → Copy st t st₂ t'
Copy-earlier st st₁ t st₂ t' g h c = record {
  same_values = c.same_values ∙ Preserves-map st st₁ t.columns g h;
  all_new = IsNew-All st st₁ st₂ st₂ t'.columns g (Preserves-refl st₂) c.all_new;
  found_new = λ k p e. IsNew-widen st st₁ st₂ st₂ p g (Preserves-refl st₂) (c.found_new k p e);
  agrees = c.agrees;
  all_found = old_names st st₁ t.columns t'.column_index g h c.all_found;
  same_frame = c.same_frame;
}

-- Every column of the tables stands in the store.
abbrev pub TablesBelow : Store → Map TableRef → Type 0
TablesBelow st m = All (λ e. All (IsBelow st) e.1.columns) m

-- Name by name, in order, a copy.
abbrev pub TablesCopy : Store → Map TableRef → Store → Map TableRef → Type 0
TablesCopy st [] st' [] = Unit {0}
TablesCopy st ((name, t) ∷ m) st' ((name', t') ∷ m') =
    (name' ≡ name) × Copy st t st' t' × TablesCopy st m st' m'
TablesCopy st [] st' (_ ∷ _) = ⊥
TablesCopy st (_ ∷ _) st' [] = ⊥

pub TablesBelow-later :
    (st st₁ : Store) (m : Map TableRef) → Preserves st st₁ → TablesBelow st m → TablesBelow st₁ m
TablesBelow-later st st₁ [] g h = tt
TablesBelow-later st st₁ ((name, t) ∷ m) g h =
    (Preserves-IsBelow st st₁ t.columns g h.0, TablesBelow-later st st₁ m g h.1)

pub TablesCopy-later :
    (st : Store) (m : Map TableRef) (st₁ st₂ : Store) (m' : Map TableRef)
    → Preserves st₁ st₂
    → TablesCopy st m st₁ m'
    → TablesCopy st m st₂ m'
TablesCopy-later st [] st₁ st₂ [] g c = tt
TablesCopy-later st [] st₁ st₂ (_ ∷ m') g c = elim c [ ]
TablesCopy-later st ((name, t) ∷ m) st₁ st₂ [] g c = elim c [ ]
TablesCopy-later st ((name, t) ∷ m) st₁ st₂ ((name', t') ∷ m') g (same, copy, rest) =
    (same, Copy-later st t st₁ st₂ t' g copy, TablesCopy-later st m st₁ st₂ m' g rest)

pub TablesCopy-earlier :
    (st st₁ : Store) (m : Map TableRef) (st₂ : Store) (m' : Map TableRef)
    → Preserves st st₁
    → TablesBelow st m
    → TablesCopy st₁ m st₂ m'
    → TablesCopy st m st₂ m'
TablesCopy-earlier st st₁ [] st₂ [] g h c = tt
TablesCopy-earlier st st₁ [] st₂ (_ ∷ m') g h c = elim c [ ]
TablesCopy-earlier st st₁ ((name, t) ∷ m) st₂ [] g h c = elim c [ ]
TablesCopy-earlier st st₁ ((name, t) ∷ m) st₂ ((name', t') ∷ m') g h (same, copy, rest) =
    (same, Copy-earlier st st₁ t st₂ t' g h.0 copy, TablesCopy-earlier st st₁ m st₂ m' g h.1 rest)

pub clone_tables-TablesCopy :
    (st : Store) (m : Map TableRef)
    → TablesBelow st m
    → Preserves st (clone_tables st m).0
      × TablesCopy st m (clone_tables st m).0 (clone_tables st m).1
unfolding clone_tables
clone_tables-TablesCopy st [] h = (Preserves-refl st, tt)
clone_tables-TablesCopy st ((name, t) ∷ m) h =
    let st₁ = (clone_table st t).0 in
    let st₂ = (clone_tables st₁ m).0 in
    let (first, copy) = clone_table-Copy st t h.0 in
    let (rest, copies) = clone_tables-TablesCopy st₁ m (TablesBelow-later st st₁ m first h.1) in
    (
      Preserves-trans st st₁ st₂ first rest,
      (
        refl,
        Copy-later st t st₁ st₂ _ rest copy,
        TablesCopy-earlier st st₁ m st₂ _ first h.1 copies,
      ),
    )
