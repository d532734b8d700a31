-- ===== src/Normalize/Caller.antt =====
-- internal/app/pipeline.go: `NormalizeSchemas`, and the start of `ComputeDiff`, which normalises copies
-- in place.
use migra_go.Prelude.{ℕ, ◌<◌, ◌≡◌, ◌∙◌, arith, Map}
use migra_go.Model.Store.{NamespaceRef, Store}
use migra_go.Model.Store.Allocate.{Preserves-refl}
use migra_go.Model.Clone.{clone_schema}
use migra_go.Model.Clone.Deep.{
  SchemaBelow, SchemaBelow-later, SchemaCopy-later, clone_schema-SchemaCopy,
}
use migra_go.Normalize.Keeps.{SchemaCopy-SchemaAfter, SchemaAfter-later, schema-Keeps}
use migra_go.Normalize.Text.{TextFunctions}
use migra_go.Normalize.{canonicalize_schema}

abbrev Schemas : Type 0
Schemas = Store × Map NamespaceRef × Map NamespaceRef

unfoldable pub normalize_schemas : TextFunctions → Schemas → Schemas
unfolding canonicalize_schema
normalize_schemas tf (st, source, target) =
    let (st₁, source') = canonicalize_schema tf st source in
    let (st₂, target') = canonicalize_schema tf st₁ target in (st₂, source', target')

-- The copies that ComputeDiff compares.
unfoldable pub normalized_clones : TextFunctions → Schemas → Schemas
unfolding normalize_schemas clone_schema
normalized_clones tf (st, source, target) =
    let (st₁, source') = clone_schema st source in
    let (st₂, target') = clone_schema st₁ target in normalize_schemas tf (st₂, source', target')

-- If every column of the two schemas stands in the store, and every default of theirs: normalising
-- their copies, as ComputeDiff does it, leaves every column and every text of a default that was in
-- the store before as it was.
pub normalized_clones-keeps :
    (tf : TextFunctions) (st : Store) (source target : Map NamespaceRef) (q a : ℕ)
    → SchemaBelow st source
    → SchemaBelow st target
    → q < st.next
    → a < st.next_text
    → ((normalized_clones tf (st, source, target)).0.cell q ≡ st.cell q)
      × ((normalized_clones tf (st, source, target)).0.text a ≡ st.text a)
unfolding normalized_clones normalize_schemas
normalized_clones-keeps tf st source target q a below_source below_target lt lt' =
    let (st₁, source') = clone_schema st source in
    let (st₂, target') = clone_schema st₁ target in
    let st₃ = (canonicalize_schema tf st₂ source').0 in
    let (first, copy) = clone_schema-SchemaCopy st source below_source in
    let (second, copy') =
      clone_schema-SchemaCopy st₁ target (SchemaBelow-later st st₁ target first below_target) in
    let after =
      SchemaCopy-SchemaAfter st st source st₂ source' (Preserves-refl st)
        (SchemaCopy-later st source st₁ st₂ source' second copy) in
    let after' = SchemaCopy-SchemaAfter st st₁ target st₂ target' first copy' in
    let k = schema-Keeps tf st st₂ source' after in
    let k' = schema-Keeps tf st st₃ target' (SchemaAfter-later st st₂ st₃ target' k after') in
    (
      k'.cells q lt
          ∙ k.cells q lt
          ∙ second.cells_kept q (omega (arith, first.next_grows))
          ∙ first.cells_kept q lt,
      k'.texts a lt'
          ∙ k.texts a lt'
          ∙ second.texts_kept a (omega (arith, first.text_grows))
          ∙ first.texts_kept a lt',
    )
