-- ===== src/Diff/Render/Statement.antt =====
-- The form that the statements of internal/diff share.
use migra_go.Prelude.{String, Bool, true, false, List, [], ◌∷◌, concat}

-- fmt.Sprintf("-- op: <kind> risk:<risk>\n%s;", sql)
unfoldable pub statement : String → String → List String → String
unfolding concat
statement kind risk sql = concat ("-- op: " ∷ kind ∷ " risk:" ∷ risk ∷ "\n" ∷ concat sql ∷ ";" ∷ [])

unfoldable pub if_exists_prefix : Bool → String
if_exists_prefix true = "IF EXISTS "
if_exists_prefix false = ""
