-- ===== src/Normalize/Text.antt =====
-- internal/normalize/normalize.go and `NormalizeDataType` of internal/util/util.go: the functions on
-- texts.
use Prim.Native.Char.{Char, code}
use Prim.Native.String.{String, [], ◌∷◌, ◌++◌}
use migra_go.Prelude.{
  ℕ, zero, suc, ◌-◌, Bool, false, Option, none, some, Map, get, nat_eq, if◌then◌else◌,
}
use migra_go.Prelude.{List}

-- strings.TrimSpace, ToLower and Fields; what `FindStringSubmatch` finds for the two lengths; and
-- the two replacements of casts.
pub record TextFunctions : Type 0 where
  pub trim_space : String → String
  pub to_lower : String → String
  pub fields : String → List String
  pub char_varying_with_len : String → Option String
  pub character_with_len : String → Option String
  pub replace_nested_type_cast : String → String
  pub replace_type_cast : String → String

unfoldable pub char_count : String → ℕ
char_count [] = 0
char_count (c ∷ s) = suc (char_count s)

abbrev pub prepend : Char → Option String → Option String
prepend c none = none
prepend c (some s) = some (c ∷ s)

-- s[:len(s)-1], if the last character is q
unfoldable pub without_last : ℕ → String → Option String
without_last q [] = none
without_last q (c ∷ []) = if nat_eq (code c) q then some [] else none
without_last q (c ∷ d ∷ s) = prepend c (without_last q (d ∷ s))

-- s[1 : len(s)-1], if len(s) >= 2 and s begins with the one and ends with the other character
unfoldable pub inside : ℕ → ℕ → String → Option String
unfolding without_last
inside opening closing [] = none
inside opening closing (c ∷ s) = if nat_eq (code c) opening then without_last closing s else none

abbrev pub or_else : Option String → String → String
or_else none s = s
or_else (some t) s = t

-- strings.TrimSuffix, for a single character
unfoldable pub trim_suffix : ℕ → String → String
unfolding without_last
trim_suffix q s = or_else (without_last q s) s

unfoldable pub is_balanced_from : ℕ → String → Bool
is_balanced_from depth [] = nat_eq depth 0
is_balanced_from depth (c ∷ s) =
    let deeper = is_balanced_from (suc depth) s in
    let higher = is_balanced_from (depth - 1) s in
    let same = is_balanced_from depth s in
    if nat_eq (code c) b'('
    then deeper
    else if nat_eq (code c) b')'
    then (if nat_eq depth 0 then false else higher)
    else same

unfoldable pub is_balanced_parens : String → Bool
unfolding is_balanced_from
is_balanced_parens s = is_balanced_from 0 s

-- What stands in parentheses that go around the whole text.
abbrev pub balanced_only : Option String → Option String
balanced_only none = none
balanced_only (some s) = if is_balanced_parens s then some s else none

unfoldable pub in_parens : String → Option String
unfolding inside is_balanced_parens
in_parens s = balanced_only (inside b'(' b')' s)

unfoldable pub type_aliases : Map String
type_aliases =
    List.◌∷◌ ("int4", "integer")
      (List.◌∷◌ ("int8", "bigint")
        (List.◌∷◌ ("int2", "smallint")
          (List.◌∷◌ ("bool", "boolean")
            (List.◌∷◌ ("character varying", "varchar")
              (List.◌∷◌ ("character", "char")
                (List.◌∷◌ ("timestamp without time zone", "timestamp")
                  (List.◌∷◌ ("timestamp with time zone", "timestamptz") List.[])))))))

abbrev pub before_bracket : Option String → Option String
before_bracket none = none
before_bracket (some s) = without_last b'[' s

-- strings.TrimSuffix(lower, "[]"), if there is this suffix
unfoldable pub element_type : String → Option String
unfolding without_last
element_type lower = before_bracket (without_last b']' lower)

module _ (tf : TextFunctions) where
  unfoldable pub normalize_identifier : String → String
  unfolding inside
  normalize_identifier id =
      let id' = tf.trim_space id in or_else (inside b'"' b'"' id') (tf.to_lower id')

  -- The loop, for at most so many pairs of parentheses.
  unfoldable pub strip_parens : ℕ → String → String
  unfolding in_parens
  strip_parens zero expr = expr
  strip_parens (suc fuel) expr = elim (in_parens expr) [
    | none ↦ expr
    | some s ↦ strip_parens fuel (tf.trim_space s)
  ]

  -- A text with n characters has fewer than n pairs.
  unfoldable pub normalize_default_expr : String → String
  unfolding strip_parens char_count
  normalize_default_expr expr =
      let expr' = tf.trim_space expr in
      let bare = strip_parens (char_count expr') expr' in
      tf.trim_space (tf.replace_type_cast (tf.replace_nested_type_cast bare))

  abbrev pub scalar_type : String → Option String → Option String → Option String → String
  scalar_type lower (some n) _ _ = "varchar(" ++ (n ++ ")")
  scalar_type lower none (some n) _ = "char(" ++ (n ++ ")")
  scalar_type lower none none (some canonical) = canonical
  scalar_type lower none none none = lower

  unfoldable pub scalar : String → String
  unfolding type_aliases
  scalar lower =
      scalar_type lower (tf.char_varying_with_len lower) (tf.character_with_len lower)
        (get lower type_aliases)

  -- The recursion, with one unit of fuel for each call.
  unfoldable pub normalize_type : ℕ → String → String
  unfolding scalar element_type
  normalize_type zero dt = dt
  normalize_type (suc fuel) dt =
      let lower = tf.to_lower (tf.trim_space dt) in
      elim (element_type lower) [
        | none ↦ scalar lower
        | some base ↦ normalize_type fuel base ++ "[]"
      ]

  unfoldable pub normalize_data_type : String → String
  unfolding normalize_type char_count
  normalize_data_type dt = normalize_type (suc (char_count dt)) dt
