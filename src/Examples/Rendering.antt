-- ===== src/Examples/Rendering.antt =====
-- Names quoted and plans rendered.
use Prim.Native.String.{◌++◌}
use migra_go.Prelude.{String, true, none, some, List, [], ◌∷◌, ◌≡◌, refl, if◌then◌else◌}
use migra_go.Util.{quote_identifier}
use migra_go.Util.Quoted.{read_quoted, read_quoted-quote_identifier, quote_qualified_identifier_inj}
use migra_go.Diff.Operation.{Operation}
use migra_go.Diff.Create.{new_add_column_op, new_add_constraint_op, new_drop_column_op}
use migra_go.Diff.Render.{render_string}
use migra_go.Diff.Render.Labels.Made.{Labelled, made_add_constraint, render_string-Labelled}
use migra_go.Render.{Renderer, render_all}
use migra_go.Render.Text.{statements, framed, open_for, render_all-framed}
use migra_go.Examples.{column, calm, check_positive}

abbrev renderer : Renderer
renderer = record { use_if_exists = true }

abbrev note_plan : List Operation
note_plan =
    new_add_column_op "public" "accounts" (column "note" "text" true)
    ∷ new_drop_column_op "public" "accounts" "memo"
    ∷ []

render_all-framed_example :
    render_all renderer calm note_plan
    ≡ (if open_for calm 2 then some (framed (statements renderer note_plan)) else none)
render_all-framed_example = render_all-framed renderer calm note_plan

abbrev new_check : Operation
new_check = new_add_constraint_op "public" "accounts" check_positive

render_string-Labelled_example : Labelled new_check (render_string true new_check)
render_string-Labelled_example =
    render_string-Labelled true new_check (made_add_constraint "public" "accounts" check_positive)

read_quoted-quote_identifier_example :
    (body : String) × (quote_identifier "a\"b" ++ ".c" ≡ "\"" ++ body)
    × (read_quoted b'"' body ≡ some ("a\"b", ".c"))
read_quoted-quote_identifier_example = read_quoted-quote_identifier "a\"b" ".c" refl

abbrev quoted_name : String
quoted_name = "a\"b"

abbrev schema_name : String
schema_name = "public"

quote_qualified_identifier_inj_example : (schema_name ≡ schema_name) × (quoted_name ≡ quoted_name)
quote_qualified_identifier_inj_example =
    quote_qualified_identifier_inj schema_name quoted_name schema_name quoted_name refl
