-- ===== src/Model/Clone/Deep.antt =====
-- `Clone` of a whole schema.
use migra_go.Prelude.{[], ◌∷◌, ◌≡◌, refl, Map, All}
use migra_go.Model.Store.{NamespaceRef, Store}
use migra_go.Model.Store.Allocate.{Preserves, Preserves-refl, Preserves-trans}
use migra_go.Model.Clone.Values.{clone_view, clone_sequence, clone_extension}
use migra_go.Model.Clone.Same.{map_values-same, clone_enum_type-same}
use migra_go.Model.Clone.Separate.{
  TablesBelow, TablesCopy, TablesBelow-later, TablesCopy-later, TablesCopy-earlier,
  clone_tables-TablesCopy,
}
use migra_go.Model.Clone.{clone_namespace, clone_schema}

-- A namespace without its tables.
abbrev pub namespace_frame : NamespaceRef → NamespaceRef
namespace_frame ns = record ns { tables = [] }

-- Every column of the schema stands in the store.
abbrev pub SchemaBelow : Store → Map NamespaceRef → Type 0
SchemaBelow st m = All (λ e. TablesBelow st e.1.tables) m

-- Namespace by namespace, in order, copies of the tables, and all else equal.
abbrev pub SchemaCopy : Store → Map NamespaceRef → Store → Map NamespaceRef → Type 0
SchemaCopy st [] st' [] = Unit {0}
SchemaCopy st ((name, ns) ∷ m) st' ((name', ns') ∷ m') =
    (name' ≡ name)
    × (namespace_frame ns' ≡ namespace_frame ns)
    × TablesCopy st ns.tables st' ns'.tables
    × SchemaCopy st m st' m'
SchemaCopy st [] st' (_ ∷ _) = ⊥
SchemaCopy st (_ ∷ _) st' [] = ⊥

pub SchemaBelow-later :
    (st st₁ : Store) (m : Map NamespaceRef)
    → Preserves st st₁
    → SchemaBelow st m
    → SchemaBelow st₁ m
SchemaBelow-later st st₁ [] g h = tt
SchemaBelow-later st st₁ ((name, ns) ∷ m) g h =
    (TablesBelow-later st st₁ ns.tables g h.0, SchemaBelow-later st st₁ m g h.1)

SchemaCopy-earlier :
    (st st₁ : Store) (m : Map NamespaceRef) (st₂ : Store) (m' : Map NamespaceRef)
    → Preserves st st₁
    → SchemaBelow st m
    → SchemaCopy st₁ m st₂ m'
    → SchemaCopy st m st₂ m'
SchemaCopy-earlier st st₁ [] st₂ [] g h c = tt
SchemaCopy-earlier st st₁ [] st₂ (_ ∷ m') g h c = elim c [ ]
SchemaCopy-earlier st st₁ ((name, ns) ∷ m) st₂ [] g h c = elim c [ ]
SchemaCopy-earlier st st₁ ((name, ns) ∷ m) st₂ ((name', ns') ∷ m') g h
      (same, same_frame, tables, rest) =
    (
      same,
      same_frame,
      TablesCopy-earlier st st₁ ns.tables st₂ ns'.tables g h.0 tables,
      SchemaCopy-earlier st st₁ m st₂ m' g h.1 rest,
    )

pub SchemaCopy-later :
    (st : Store) (m : Map NamespaceRef) (st₁ st₂ : Store) (m' : Map NamespaceRef)
    → Preserves st₁ st₂
    → SchemaCopy st m st₁ m'
    → SchemaCopy st m st₂ m'
SchemaCopy-later st [] st₁ st₂ [] g c = tt
SchemaCopy-later st [] st₁ st₂ (_ ∷ m') g c = elim c [ ]
SchemaCopy-later st ((name, ns) ∷ m) st₁ st₂ [] g c = elim c [ ]
SchemaCopy-later st ((name, ns) ∷ m) st₁ st₂ ((name', ns') ∷ m') g
      (same, same_frame, tables, rest) =
    (
      same,
      same_frame,
      TablesCopy-later st ns.tables st₁ st₂ ns'.tables g tables,
      SchemaCopy-later st m st₁ st₂ m' g rest,
    )

clone_namespace-frame :
    (st : Store) (ns : NamespaceRef)
    → namespace_frame (clone_namespace st ns).1 ≡ namespace_frame ns
unfolding clone_namespace clone_view clone_sequence clone_extension
clone_namespace-frame st ns =
    rw
      (
        map_values-same _ ns.types clone_enum_type-same,
        map_values-same clone_view ns.views (λ v. refl),
        map_values-same clone_sequence ns.sequences (λ v. refl),
        map_values-same clone_extension ns.extensions (λ v. refl),
      )
      refl

clone_namespace-TablesCopy :
    (st : Store) (ns : NamespaceRef)
    → TablesBelow st ns.tables
    → Preserves st (clone_namespace st ns).0
      × TablesCopy st ns.tables (clone_namespace st ns).0 (clone_namespace st ns).1.tables
unfolding clone_namespace
clone_namespace-TablesCopy st ns h = clone_tables-TablesCopy st ns.tables h

-- If every column of the schema and every default of theirs stand in the store: cloning leaves every
-- column and every default that were there as they were, and the clone has the same namespaces,
-- tables, columns and other objects with the same values in the same order, but every column that a
-- table of the clone lists or finds is a new one with a new default. The maps of each table of the
-- clone have the names of its columns, and give for a name a listed column with that name, and its
-- place in the list.
pub clone_schema-SchemaCopy :
    (st : Store) (m : Map NamespaceRef)
    → SchemaBelow st m
    → Preserves st (clone_schema st m).0
      × SchemaCopy st m (clone_schema st m).0 (clone_schema st m).1
unfolding clone_schema
clone_schema-SchemaCopy st [] h = (Preserves-refl st, tt)
clone_schema-SchemaCopy st ((name, ns) ∷ m) h =
    let st₁ = (clone_namespace st ns).0 in
    let st₂ = (clone_schema st₁ m).0 in
    let (first, copies) = clone_namespace-TablesCopy st ns h.0 in
    let (rest, others) = clone_schema-SchemaCopy st₁ m (SchemaBelow-later st st₁ m first h.1) in
    (
      Preserves-trans st st₁ st₂ first rest,
      (
        refl,
        clone_namespace-frame st ns,
        TablesCopy-later st ns.tables st₁ st₂ _ rest copies,
        SchemaCopy-earlier st st₁ m st₂ _ first h.1 others,
      ),
    )
