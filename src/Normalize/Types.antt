-- ===== src/Normalize/Types.antt =====
-- `NormalizeDataType` against a description of the normal form of a type.
use Prim.Native.Char.{Char, code}
use Prim.Native.String.{[], ◌∷◌, ◌++◌}
use migra_go.Prelude.{String, true, none, some, ◌≡◌, nat_eq}
use migra_go.Normalize.Text.{TextFunctions}

-- The types with another name in PostgreSQL.
pub data Alias : String → String → Type 0 where
  int4 : Alias "int4" "integer"
  int8 : Alias "int8" "bigint"
  int2 : Alias "int2" "smallint"
  bool : Alias "bool" "boolean"
  varying : Alias "character varying" "varchar"
  fixed : Alias "character" "char"
  without_zone : Alias "timestamp without time zone" "timestamp"
  with_zone : Alias "timestamp with time zone" "timestamptz"

-- The text is the other one behind which two brackets stand.
pub record ArrayOf (s base : String) : Type 0 where
  pub opening : Char
  pub closing : Char
  pub is_opening : nat_eq (code opening) b'[' ≡ true
  pub is_closing : nat_eq (code closing) b']' ≡ true
  pub whole : s ≡ (base ++ (opening ∷ [])) ++ (closing ∷ [])

abbrev pub IsScalar : String → Type 0
IsScalar s = (base : String) → ArrayOf s base → ⊥

module _ (tf : TextFunctions) where
  abbrev pub lowered : String → String
  lowered dt = tf.to_lower (tf.trim_space dt)

  -- The normal form of a type, in lower case and without white space around it: for an array its
  -- element type's normal form with brackets; else the short form of a character type with a
  -- length, or the canonical name of an alias, or the type itself.
  pub data NormalTo : String → String → Type 0 where
    array :
        {dt base normal : String}
        → ArrayOf (lowered dt) base
        → NormalTo base normal
        → NormalTo dt (normal ++ "[]")
    varying_with_length :
        {dt n : String}
        → IsScalar (lowered dt)
        → tf.char_varying_with_len (lowered dt) ≡ some n
        → NormalTo dt ("varchar(" ++ (n ++ ")"))
    fixed_with_length :
        {dt n : String}
        → IsScalar (lowered dt)
        → tf.char_varying_with_len (lowered dt) ≡ none
        → tf.character_with_len (lowered dt) ≡ some n
        → NormalTo dt ("char(" ++ (n ++ ")"))
    alias :
        {dt canonical : String}
        → IsScalar (lowered dt)
        → tf.char_varying_with_len (lowered dt) ≡ none
        → tf.character_with_len (lowered dt) ≡ none
        → Alias (lowered dt) canonical
        → NormalTo dt canonical
    itself :
        {dt : String}
        → IsScalar (lowered dt)
        → tf.char_varying_with_len (lowered dt) ≡ none
        → tf.character_with_len (lowered dt) ≡ none
        → ((canonical : String) → Alias (lowered dt) canonical → ⊥)
        → NormalTo dt (lowered dt)
