-- ===== src/Diff/Public/Objects.antt =====
-- Types, views, sequences and extensions: no operation on them drops a schema.
use migra_go.Prelude.{String, Bool, true, false, Option, none, some, get, if◌then◌else◌}
use mathlib.Core.Bool.{xor}
use migra_go.Model.Objects.{EnumType, View, Sequence, Extension, Namespace}
use migra_go.Diff.Operation.{Operation}
use migra_go.Diff.Context.Keeps.{
  Keeps-then, Keeps-call, Keeps-when, Keeps-for_each, Keeps-with_entry,
}
use migra_go.Diff.Create.{
  new_drop_enum_type_op, new_add_enum_label_op, new_create_extension_op, new_drop_extension_op,
  new_alter_extension_update_op, new_create_sequence_op, new_drop_sequence_op,
  new_alter_sequence_op, new_create_view_op, new_drop_view_op, new_replace_view_op,
  new_create_materialized_view_op, new_drop_materialized_view_op,
}
use migra_go.Diff.Objects.{
  is_enum_append, add_type_op, diff_enum_type, diff_types, create_view, recreate_drop, diff_view,
  diff_target_view, drop_missing_view, diff_views, diff_sequence, diff_sequences, diff_extension,
  diff_extensions,
}
use migra_go.Diff.Public.{Spares, IsSafe, IsSafe-add, IsSafe-warn, IsSafe-if, IsSafe-polled}

IsSafe-enum_type :
    (schema name : String) (old new : EnumType) → IsSafe (diff_enum_type schema name old new)
unfolding diff_enum_type new_add_enum_label_op
IsSafe-enum_type schema name old new =
    IsSafe-if (is_enum_append old.labels new.labels) (Keeps-for_each _ (λ label. IsSafe-add _ tt))
      (Keeps-when _ (λ _. IsSafe-warn _))

pub IsSafe-types :
    (source : Option Namespace) (target : Namespace) → IsSafe (diff_types source target)
unfolding diff_types add_type_op new_drop_enum_type_op
IsSafe-types none target = IsSafe-polled _ target.types (λ name t. IsSafe-add _ tt)
IsSafe-types (some source) target =
    Keeps-then (IsSafe-polled _ target.types (λ name t. Keeps-when _ (λ _. IsSafe-add _ tt))) (
      Keeps-then
        (IsSafe-polled _ target.types (λ name new.
          Keeps-with_entry (get name source.types)
            (λ old _. Keeps-call (IsSafe-enum_type target.name name old new))))
        (IsSafe-polled _ source.types (λ name old. Keeps-when _ (λ _. IsSafe-add _ tt))))

-- One of two operations.
either :
    (b : Bool) (x y : Operation)
    → Spares x.payload
    → Spares y.payload
    → Spares (if b then x else y).payload
either true x y h k = h
either false x y h k = k

create_view-Spares : (schema : String) (v : View) → Spares (create_view schema v).payload
unfolding create_view new_create_view_op new_create_materialized_view_op
create_view-Spares schema v = either v.materialized _ _ tt tt

IsSafe-view :
    (source target name : String) (src tgt : View) → IsSafe (diff_view source target name src tgt)
unfolding diff_view recreate_drop new_drop_materialized_view_op new_drop_view_op new_replace_view_op
    new_create_materialized_view_op
IsSafe-view source target name src tgt =
    IsSafe-if (xor src.materialized tgt.materialized)
      (Keeps-then (IsSafe-add _ (either src.materialized _ _ tt tt))
        (IsSafe-add _ (create_view-Spares target tgt)))
      (Keeps-when _ (λ _.
        IsSafe-if tgt.materialized (Keeps-then (IsSafe-add _ tt) (IsSafe-add _ tt))
          (IsSafe-add _ tt)))

IsSafe-target_view :
    (source target : Namespace) (name : String) (tgt : View) (src : Option View)
    → IsSafe (diff_target_view source target name tgt src)
unfolding diff_target_view
IsSafe-target_view source target name tgt none = IsSafe-add _ (create_view-Spares target.name tgt)
IsSafe-target_view source target name tgt (some src) =
    IsSafe-view source.name target.name name src tgt

pub IsSafe-views :
    (source : Option Namespace) (target : Namespace) → IsSafe (diff_views source target)
unfolding diff_views drop_missing_view new_drop_materialized_view_op new_drop_view_op
IsSafe-views none target =
    IsSafe-polled _ target.views (λ name v. IsSafe-add _ (create_view-Spares target.name v))
IsSafe-views (some source) target =
    Keeps-then
      (IsSafe-polled _ target.views
        (λ name v. IsSafe-target_view source target name v (get name source.views)))
      (IsSafe-polled _ source.views
        (λ name v. Keeps-when _ (λ _. IsSafe-add _ (either v.materialized _ _ tt tt))))

IsSafe-sequence :
    (schema : String) (tgt : Sequence) (src : Option Sequence)
    → IsSafe (diff_sequence schema tgt src)
unfolding diff_sequence new_create_sequence_op new_alter_sequence_op
IsSafe-sequence schema tgt none = IsSafe-add _ tt
IsSafe-sequence schema tgt (some src) = Keeps-when _ (λ _. IsSafe-add _ tt)

pub IsSafe-sequences :
    (source : Option Namespace) (target : Namespace) → IsSafe (diff_sequences source target)
unfolding diff_sequences new_create_sequence_op new_drop_sequence_op
IsSafe-sequences none target = IsSafe-polled _ target.sequences (λ name s. IsSafe-add _ tt)
IsSafe-sequences (some source) target =
    Keeps-then
      (IsSafe-polled _ target.sequences
        (λ name s. IsSafe-sequence target.name s (get name source.sequences)))
      (IsSafe-polled _ source.sequences (λ name s. Keeps-when _ (λ _. IsSafe-add _ tt)))

IsSafe-extension :
    (schema : String) (tgt : Extension) (src : Option Extension)
    → IsSafe (diff_extension schema tgt src)
unfolding diff_extension new_create_extension_op new_alter_extension_update_op
IsSafe-extension schema tgt none = IsSafe-add _ tt
IsSafe-extension schema tgt (some src) = Keeps-when _ (λ _. IsSafe-add _ tt)

pub IsSafe-extensions :
    (source : Option Namespace) (target : Namespace) → IsSafe (diff_extensions source target)
unfolding diff_extensions new_create_extension_op new_drop_extension_op
IsSafe-extensions none target = IsSafe-polled _ target.extensions (λ name x. IsSafe-add _ tt)
IsSafe-extensions (some source) target =
    Keeps-then
      (IsSafe-polled _ target.extensions
        (λ name x. IsSafe-extension target.name x (get name source.extensions)))
      (IsSafe-polled _ source.extensions (λ name x. Keeps-when _ (λ _. IsSafe-add _ tt)))
