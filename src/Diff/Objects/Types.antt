-- ===== src/Diff/Objects/Types.antt =====
-- internal/diff/differ.go: enum types.
pub mod Append
use Prim.Native.String.{◌++◌ as append}
use migra_go.Prelude.{
  ℕ, zero, suc, String, Bool, true, false, not, ◌&&◌, Option, none, some, List, [], ◌∷◌, get, has,
  leb, length, str_eq, if◌then◌else◌, dotted,
}
use migra_go.Model.Objects.{EnumType, Namespace}
use migra_go.Diff.Context.{
  Statement, ◌>>◌, check_cancelled, add_op, warnf, call, for_each, when, with_entry,
}
use migra_go.Diff.Create.{new_add_enum_type_op, new_drop_enum_type_op, new_add_enum_label_op}
use migra_go.Diff.Operation.{Kind, Operation, enum_op}
use migra_go.Diff.Payload.{add_enum_type_op}
use migra_go.Diff.Names.{only_in, in_both, sorted_names, for_polled, same_string_slice}
use migra_go.Model.ObjectKey.{new_object_key, kind_type}

-- The loop that compares the old labels with the first new ones.
abbrev pub agree : List String → List String → Bool
agree [] targets = true
agree (s ∷ sources) [] = false
agree (s ∷ sources) (t ∷ targets) = str_eq t s && agree sources targets

unfoldable pub is_enum_append : List String → List String → Bool
is_enum_append sources targets =
    if leb (length targets) (length sources) then false else agree sources targets

-- labels[n:]
abbrev pub drop : ℕ → List String → List String
drop zero xs = xs
drop (suc n) [] = []
drop (suc n) (x ∷ xs) = drop n xs

unfoldable pub diff_enum_type : String → String → EnumType → EnumType → Statement
diff_enum_type schema name source target =
    if is_enum_append source.labels target.labels
    then for_each (drop (length source.labels) target.labels)
        (λ label. add_op (new_add_enum_label_op schema name label))
    else when (not (same_string_slice source.labels target.labels)) (
        warnf (
          append "enum "
            (append (dotted schema name) " change is not append-only and is not implemented")))

-- The operation that `diffTypes` builds in place: its key has the map's name for the type.
unfoldable pub add_type_op : String → String → EnumType → Operation
add_type_op schema name enum_type = record {
  base = record { kind = Kind.add_enum_type; object_key = new_object_key schema name kind_type };
  payload = enum_op (add_enum_type_op schema enum_type);
}

unfoldable pub diff_types : Option Namespace → Namespace → Statement
diff_types none target =
    for_polled (sorted_names target.types) target.types
      (λ name enum_type. add_op (add_type_op target.name name enum_type))
diff_types (some source) target = do
  for_polled (sorted_names target.types) target.types (λ name enum_type.
      when (not (has name source.types)) (add_op (add_type_op target.name name enum_type)))
  for_polled (sorted_names target.types) target.types (λ name new.
      with_entry (get name source.types) (λ old. call (diff_enum_type target.name name old new)))
  for_polled (sorted_names source.types) source.types (λ name old.
      when (not (has name target.types)) (add_op (new_drop_enum_type_op source.name name)))
