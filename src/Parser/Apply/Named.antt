-- ===== src/Parser/Apply/Named.antt =====
-- internal/parser: what adds an object to a namespace.
use migra_go.Prelude.{String, List, put, has, if◌then◌else◌}
use migra_go.Model.Objects.{View, Sequence, Extension}
use migra_go.Model.Store.{NamespaceRef, State, get_or_create_namespace, put_namespace}
use migra_go.Parser.Outcome.{Outcome, applied, rejected, already_exists}

-- Change a namespace that is there or is created.
abbrev pub change_namespace : String → (NamespaceRef → NamespaceRef) → State → State
change_namespace schema f s = put_namespace schema (f (get_or_create_namespace schema s)) s

unfoldable pub apply_create_enum_type : String → String → List String → State → Outcome × State
unfolding get_or_create_namespace put_namespace
apply_create_enum_type schema name labels s =
    let ns = get_or_create_namespace schema s in
    if has name ns.types then (rejected already_exists, s) else (
      applied,
      put_namespace schema
          (record ns { types = put name (record { name = name; labels = labels }) ns.types }) s,
    )

unfoldable pub apply_create_schema : String → State → Outcome × State
unfolding get_or_create_namespace put_namespace
apply_create_schema schema s = (applied, change_namespace schema (λ ns. ns) s)

unfoldable pub apply_create_view : String → View → State → Outcome × State
unfolding get_or_create_namespace put_namespace
apply_create_view schema view s =
    (applied, change_namespace schema (λ ns. record ns { views = put view.name view ns.views }) s)

unfoldable pub apply_create_sequence : String → Sequence → State → Outcome × State
unfolding get_or_create_namespace put_namespace
apply_create_sequence schema sequence s = (
  applied,
  change_namespace schema (λ ns. record ns { sequences = put sequence.name sequence ns.sequences })
      s,
)

unfoldable pub apply_create_extension : String → Extension → State → Outcome × State
unfolding get_or_create_namespace put_namespace
apply_create_extension schema extension s = (
  applied,
  change_namespace schema
      (λ ns. record ns { extensions = put extension.name extension ns.extensions }) s,
)
