-- ===== src/Model/Store.antt =====
-- internal/model/schema.go, table.go and column.go with pointers: a column is an object that
-- `Columns` and `ColumnByName` both point to, and its default is a text that it points to, so both
-- stand in a store under addresses. Every other object is a value here.
pub mod Find
pub mod Allocate
use migra_go.Prelude.{
  ℕ, zero, suc, ◌-◌, String, Bool, true, false, Option, none, some, List, [], ◌∷◌, ◌++◌, Map, get,
  put, delete, get_elem?, length, nat_eq, ltb, if◌then◌else◌,
}
use migra_go.Model.Objects.{PrimaryKey, Constraint, Index, EnumType, View, Sequence, Extension}

-- The columns are addresses.
pub record TableRef : Type 0 where
  pub schema : String
  pub name : String
  pub columns : List ℕ
  pub column_by_name : Map ℕ
  pub column_index : Map ℕ
  pub primary_key : Option PrimaryKey
  pub constraints : Map Constraint
  pub indexes : Map Index
  pub is_placeholder : Bool

pub record NamespaceRef : Type 0 where
  pub name : String
  pub tables : Map TableRef
  pub types : Map EnumType
  pub views : Map View
  pub sequences : Map Sequence
  pub extensions : Map Extension

-- The default is the address of a text, or nil.
pub record ColumnRef : Type 0 where
  pub name : String
  pub data_type : String
  pub is_nullable : Bool
  pub default_expr : Option ℕ
  pub is_identity : Bool
  pub identity_kind : String
  pub collation : String

-- The columns and the texts at each address, and the first addresses that are free.
pub record Store : Type 0 where
  pub cell : ℕ → ColumnRef
  pub next : ℕ
  pub text : ℕ → String
  pub next_text : ℕ

pub record State : Type 0 where
  pub store : Store
  pub schemas : Map NamespaceRef

-- *p = col
unfoldable pub write : ℕ → ColumnRef → Store → Store
write p col st = record st { cell = λ q. if nat_eq q p then col else st.cell q }

-- &col, for a new variable
unfoldable pub allocate : ColumnRef → Store → Store
unfolding write
allocate col st = record (write st.next col st) { next = suc st.next }

-- *a = s, for a text
unfoldable pub write_text : ℕ → String → Store → Store
write_text a s st = record st { text = λ b. if nat_eq b a then s else st.text b }

-- &s, for a new variable
unfoldable pub allocate_text : String → Store → Store
unfolding write_text
allocate_text s st = record (write_text st.next_text s st) { next_text = suc st.next_text }

-- NewSchema(), on a store with whatever stands in it.
unfoldable pub new_schema : Store → State
new_schema st = record { store = st; schemas = [] }

unfoldable pub new_namespace : String → NamespaceRef
new_namespace name = record {
  name = name;
  tables = [];
  types = [];
  views = [];
  sequences = [];
  extensions = [];
}

abbrev pub or_new : String → Option NamespaceRef → NamespaceRef
or_new name none = new_namespace name
or_new name (some ns) = ns

-- The namespace that `GetOrCreateNamespace` returns. A new one stands in the schema once the caller
-- has put back what it made of it, which each does.
unfoldable pub get_or_create_namespace : String → State → NamespaceRef
unfolding new_namespace
get_or_create_namespace name s = or_new name (get name s.schemas)

unfoldable pub put_namespace : String → NamespaceRef → State → State
put_namespace name ns s = record s { schemas = put name ns s.schemas }

unfoldable pub new_table_ref : String → String → TableRef
new_table_ref schema name = record {
  schema = schema;
  name = name;
  columns = [];
  column_by_name = [];
  column_index = [];
  primary_key = none;
  constraints = [];
  indexes = [];
  is_placeholder = false;
}

-- AddColumn(p), for the column with this name
unfoldable pub add_column_ref : ℕ → String → TableRef → TableRef
add_column_ref p name t = record t {
  column_index = put name (length t.columns) t.column_index;
  columns = t.columns ++ p ∷ [];
  column_by_name = put name p t.column_by_name;
}

-- l[i] = v
abbrev pub set_at : List ℕ → ℕ → ℕ → List ℕ
set_at [] i v = []
set_at (x ∷ l) zero v = v ∷ l
set_at (x ∷ l) (suc i) v = x ∷ set_at l i v

-- l[:n]
abbrev pub take : ℕ → List ℕ → List ℕ
take zero l = []
take (suc n) [] = []
take (suc n) (x ∷ l) = x ∷ take n l

-- Whether the code panics, and the table as it leaves it.
pub record Removal : Type 0 where
  pub panics : Bool
  pub table : TableRef

-- The last column moves to the place of the one that goes, and its name is read from the store.
abbrev pub move_last : Store → ℕ → Option ℕ → TableRef → Removal
move_last st idx none t = record { panics = true; table = t }
move_last st idx (some p) t = record {
  panics = false;
  table = record t {
    columns = take (length t.columns - 1) (set_at t.columns idx p);
    column_index = put (st.cell p).name idx t.column_index;
  };
}

abbrev pub remove_at : Store → String → Option ℕ → TableRef → Removal
remove_at st name none t = record { panics = false; table = t }
remove_at st name (some idx) t =
    let t' = record t {
      column_by_name = delete name t.column_by_name;
      column_index = delete name t.column_index;
    } in
    if nat_eq (suc idx) (length t.columns)
    then record {
      panics = false;
      table = record t' { columns = take (length t.columns - 1) t.columns };
    }
    else if ltb idx (length t.columns)
    then move_last st idx (get_elem? t.columns (length t.columns - 1)) t'
    else record { panics = true; table = t' }

unfoldable pub remove_column_ref : Store → String → TableRef → Removal
remove_column_ref st name t = remove_at st name (get name t.column_index) t
