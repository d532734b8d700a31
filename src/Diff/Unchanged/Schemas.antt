-- ===== src/Diff/Unchanged/Schemas.antt =====
-- Comparing a whole schema with itself.
use migra_go.Prelude.{All-map, String, some, [], ◌≡◌, refl, All-sort, get, keys}
use migra_go.Context.{Context}
use migra_go.Model.Objects.{Namespace, Schema}
use migra_go.Diff.Context.{DiffContext, new_diff_context, call}
use migra_go.Diff.Context.Keeps.{Keeps, IsPollable, Keeps-then, Keeps-check, Keeps-call, Keeps-each}
use migra_go.Diff.Names.{sorted_names}
use migra_go.Diff.Schemas.{
  diff_namespace, diff_target_namespace, drop_namespace, diff_schemas, diff,
}
use migra_go.Diff.Unchanged.Names.{keys-has, Keeps-for_polled}
use migra_go.Diff.Unchanged.Tables.{TablesAreListed, Keeps-tables, Keeps-when-false, not_same}
use migra_go.Diff.Unchanged.Objects.{Keeps-types, Keeps-views, Keeps-sequences, Keeps-extensions}

-- In every table of the schema each column is found under its name.
abbrev pub SchemaIsListed : Schema → Type 0
SchemaIsListed s =
    (name : String) (ns : Namespace) → get name s.schemas ≡ some ns → TablesAreListed ns

module _ {R : DiffContext → Type 0} where
  Keeps-namespace :
      (ns : Namespace) → IsPollable R → TablesAreListed ns → Keeps R (diff_namespace (some ns) ns)
  unfolding diff_namespace
  Keeps-namespace ns p listed = Keeps-then (Keeps-call (Keeps-tables ns p listed)) (
      Keeps-then (Keeps-call (Keeps-types ns p)) (
        Keeps-then (Keeps-call (Keeps-views ns p))
          (Keeps-then (Keeps-call (Keeps-sequences ns p)) (Keeps-call (Keeps-extensions ns p)))))

  Keeps-schemas : (s : Schema) → IsPollable R → SchemaIsListed s → Keeps R (diff_schemas s s)
  unfolding diff_schemas diff_target_namespace drop_namespace sorted_names
  Keeps-schemas s p listed =
      Keeps-then
        (Keeps-for_polled (sorted_names s.schemas) s.schemas p
          (λ name ns e. rw e (Keeps-call (Keeps-namespace ns p (listed name ns e)))))
        (Keeps-each _ (sorted_names s.schemas) (
          All-sort _ (keys s.schemas) (
            All-map (keys s.schemas)
              (λ name e. Keeps-then (Keeps-check p) (Keeps-when-false _ _ (not_same _ e)))
              (keys-has s.schemas))))

-- No operation and no warning.
abbrev IsEmpty : DiffContext → Type 0
IsEmpty c = (c.ops ≡ []) × (c.warnings ≡ [])

-- Comparing a schema with itself gives no operation and no warning, whatever the context answers,
-- if in each table every column of the list is found under its name.
pub diff-same :
    (ctx : Context) (s : Schema)
    → SchemaIsListed s
    → ((diff ctx s s).ops ≡ []) × ((diff ctx s s).warnings ≡ [])
unfolding diff call new_diff_context
diff-same ctx s listed =
    (Keeps-schemas {R = IsEmpty} s (λ c e. e) listed).kept (new_diff_context ctx) (refl, refl)
