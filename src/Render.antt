-- ===== src/Render.antt =====
-- internal/render/render.go: the SQL text of a plan.
pub mod Text
use Prim.Native.String.{◌++◌}
use migra_go.Prelude.{
  String, Bool, Option, none, some, List, [], ◌∷◌, str_eq, dotted, if◌then◌else◌,
}
use migra_go.Context.{Context, err, polled}
use migra_go.Diff.Operation.{Operation, is_destructive}
use migra_go.Diff.Render.{render_string}
use migra_go.Diff.Render.Labels.{kind_text}

pub record Renderer : Type 0 where
  pub use_if_exists : Bool

unfoldable pub render : Renderer → Operation → String
unfolding render_string
render r op = render_string r.use_if_exists op

-- The builder after one more statement, which is not empty.
abbrev pub write_statement : String → String → String
write_statement b sql = if str_eq b "" then "-- Begin Diff\n" ++ sql else b ++ ("\n" ++ sql)

abbrev close_text : String → String
close_text b = if str_eq b "" then "-- No changes detected" else b ++ "\n-- End Diff"

module _ (r : Renderer) where
  -- The loop, from the builder's text on. `none` where the context is done.
  unfoldable pub render_from : Context → String → List Operation → Option String
  unfolding render
  render_from ctx b [] = some (close_text b)
  render_from ctx b (op ∷ ops) =
      let sql = render r op in
      let skipped = render_from (polled ctx) b ops in
      let written = render_from (polled ctx) (write_statement b sql) ops in
      if err ctx then none else if str_eq sql "" then skipped else written

  unfoldable pub render_all : Context → List Operation → Option String
  unfolding render_from
  render_all ctx ops = render_from ctx "" ops

pub record OpInfo : Type 0 where
  pub kind : String
  pub object_key : String
  pub destructive : Bool
  pub sql : String

unfoldable pub op_info : Renderer → Operation → OpInfo
unfolding render kind_text is_destructive
op_info r op = record {
  kind = kind_text op.kind;
  object_key = dotted op.object_key.schema op.object_key.name;
  destructive = is_destructive op;
  sql = render r op;
}

-- The loop of `renderJSON`.
unfoldable pub op_infos : Renderer → Context → List Operation → Option (List OpInfo)
op_infos r ctx [] = some []
op_infos r ctx (op ∷ ops) =
    let rest = op_infos r (polled ctx) ops in
    if err ctx then none else prepended (op_info r op) rest
  where
    prepended : OpInfo → Option (List OpInfo) → Option (List OpInfo)
    prepended info none = none
    prepended info (some infos) = some (info ∷ infos)

-- `marshal` is `json.MarshalIndent`.
module _ (marshal : List OpInfo → Option String) where
  abbrev marshalled : Option (List OpInfo) → Option String
  marshalled none = none
  marshalled (some infos) = marshal infos

  unfoldable pub render_json : Renderer → Context → List Operation → Option String
  unfolding op_infos
  render_json r ctx ops = marshalled (op_infos r ctx ops)

  unfoldable pub render_output : Renderer → Context → List Operation → String → Option String
  unfolding render_all render_json
  render_output r ctx ops format =
      if str_eq format "sql"
      then render_all r ctx ops
      else if str_eq format "json"
      then render_json r ctx ops
      else none
