-- ===== src/Diff/Objects/Extensions.antt =====
-- internal/diff/differ.go: extensions.
use migra_go.Prelude.{not, ◌&&◌, String, Option, none, some, get, has, str_eq}
use migra_go.Model.Objects.{Extension, Namespace}
use migra_go.Diff.Context.{Statement, ◌>>◌, add_op, when}
use migra_go.Diff.Create.{
  new_create_extension_op, new_drop_extension_op, new_alter_extension_update_op,
}
use migra_go.Diff.Names.{sorted_names, for_polled}

unfoldable pub diff_extension : String → Extension → Option Extension → Statement
diff_extension schema tgt none = add_op (new_create_extension_op schema tgt)
diff_extension schema tgt (some src) =
    when
      (not (str_eq src.version "")
        && not (str_eq tgt.version "")
        && not (str_eq src.version tgt.version))
      (add_op (new_alter_extension_update_op schema tgt))

unfoldable pub diff_extensions : Option Namespace → Namespace → Statement
diff_extensions none target =
    for_polled (sorted_names target.extensions) target.extensions
      (λ name ext. add_op (new_create_extension_op target.name ext))
diff_extensions (some source) target = do
  for_polled (sorted_names target.extensions) target.extensions
      (λ name ext. diff_extension target.name ext (get name source.extensions))
  for_polled (sorted_names source.extensions) source.extensions (λ name ext.
      when (not (has name target.extensions)) (add_op (new_drop_extension_op source.name name)))
