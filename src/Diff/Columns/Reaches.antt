-- ===== src/Diff/Columns/Reaches.antt =====
-- `diffColumn`: its operations lead from the source's column to the target's.
use migra_go.Prelude.{
  String, Bool, true, false, ◌&&◌, none, some, List, [], ◌∷◌, ◌++◌, ◌≡◌, str_eq, if◌then◌else◌,
}
use migra_go.Model.Objects.{Column}
use migra_go.Diff.Context.{DiffContext, Statement}
use migra_go.Diff.Operation.{Operation, Payload, column_op}
use migra_go.Diff.Payload.{
  alter_column_type_op, set_not_null_op, drop_not_null_op, set_default_op, drop_default_op,
  set_identity_op, drop_identity_op, add_identity_op, alter_column_collation_op,
}

-- What an operation makes of the column with this name in this table: one that names this schema,
-- table and column sets the attribute that it is about, every other leaves the column as it is.
module _ (schema table column : String) where
  abbrev is_here : String → String → String → Bool
  is_here s t c = str_eq s schema && str_eq t table && str_eq c column

  abbrev on_column : String → String → String → Column → Column → Column
  on_column s t c y x = if is_here s t c then y else x

  pub edit_payload : Payload → Column → Column
  edit_payload (column_op (alter_column_type_op s t c _ to _)) x =
      on_column s t c (record x { data_type = to }) x
  edit_payload (column_op (set_not_null_op s t c)) x =
      on_column s t c (record x { is_nullable = false }) x
  edit_payload (column_op (drop_not_null_op s t c)) x =
      on_column s t c (record x { is_nullable = true }) x
  edit_payload (column_op (set_default_op s t c e)) x =
      on_column s t c (record x { default_expr = some e }) x
  edit_payload (column_op (drop_default_op s t c)) x =
      on_column s t c (record x { default_expr = none }) x
  edit_payload (column_op (alter_column_collation_op s t c _ _ to)) x =
      on_column s t c (record x { collation = to }) x
  edit_payload (column_op (set_identity_op s t c k)) x =
      on_column s t c (record x { is_identity = true; identity_kind = k }) x
  edit_payload (column_op (add_identity_op s t c k)) x =
      on_column s t c (record x { is_identity = true; identity_kind = k }) x
  edit_payload (column_op (drop_identity_op s t c)) x =
      on_column s t c (record x { is_identity = false; identity_kind = "" }) x
  edit_payload _ x = x

  unfoldable pub edit : List Operation → Column → Column
  unfolding edit_payload
  edit [] x = x
  edit (op ∷ ops) x = edit ops (edit_payload op.payload x)

-- The statement adds these operations, and control goes on.
abbrev pub Adds : Statement → List Operation → Type 0
Adds a l = (c : DiffContext) → a c ≡ (record c { ops = c.ops ++ l }, true)

-- A statement whose operations turn a column `x` into `y`, as the column with this name.
record Turns (schema table column : String) (a : Statement) (x y : Column) : Type 0 where
  pub ops : List Operation
  pub adds : Adds a ops
  pub leads : edit schema table column ops x ≡ y

-- A column that is no identity column has no kind of identity.
abbrev pub HasIdentity : Column → Type 0
HasIdentity col = col.is_identity ≡ false → col.identity_kind ≡ ""

module _ (schema table : String) (source target x : Column) where
  abbrev Leads : Statement → Column → Type 0
  Leads a y = Turns schema table source.name a x y

  abbrev with_identity : Bool → String → Column
  with_identity b k = record x { is_identity = b; identity_kind = k }
