-- ===== src/Util.antt =====
-- internal/util/util.go: quoting.
pub mod Quoted
use Prim.Native.String.{◌++◌}
use migra_go.Prelude.{String, List, map, double, join}

unfoldable pub quote_identifier : String → String
quote_identifier name = "\"" ++ (double b'"' name ++ "\"")

unfoldable pub quote_qualified_identifier : String → String → String
unfolding quote_identifier
quote_qualified_identifier schema name = quote_identifier schema ++ ("." ++ quote_identifier name)

unfoldable pub quote_identifier_list : List String → String
unfolding quote_identifier
quote_identifier_list items = join ", " (map quote_identifier items)

-- `quoteString` of internal/diff/operation_extension.go.
unfoldable pub quote_string : String → String
quote_string s = "'" ++ (double b'\'' s ++ "'")
