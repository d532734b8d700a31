-- ===== src/Prelude/Texts.antt =====
-- Texts put together, as Go's `fmt.Sprintf`, `strings.Join` and `strings.ReplaceAll` do it.
use Prim.Native.Nat.{ℕ, zero, suc, ◌/◌, ◌%◌}
use Prim.Native.Char.{code}
use Prim.Native.String.{String, ◌++◌}
use mathlib.Core.List.{List, [], ◌∷◌}
use mathlib.Core.Option.{Option, none, some}
use migra_go.Prelude.Lists.{get_elem?}
use migra_go.Prelude.Int.{ℤ, pos, negsuc}
use migra_go.Prelude.Tests.{if◌then◌else◌, nat_eq, ltb}

-- a + "." + b
unfoldable pub dotted : String → String → String
dotted a b = a ++ ("." ++ b)

-- The pieces of a format, with its arguments in place.
unfoldable pub concat : List String → String
concat [] = ""
concat (s ∷ l) = s ++ concat l

-- strings.Join
unfoldable pub join : String → List String → String
join sep [] = ""
join sep (s ∷ []) = s
join sep (s ∷ t ∷ l) = s ++ (sep ++ join sep (t ∷ l))

-- strings.ReplaceAll(s, q, qq), for a single character q.
unfoldable pub double : ℕ → String → String
double q String.[] = ""
double q (String.◌∷◌ c s) =
    let rest = double q s in
    if nat_eq (code c) q then String.◌∷◌ c (String.◌∷◌ c rest) else String.◌∷◌ c rest

digits : List String
digits = "0" ∷ "1" ∷ "2" ∷ "3" ∷ "4" ∷ "5" ∷ "6" ∷ "7" ∷ "8" ∷ "9" ∷ []

text_or_empty : Option String → String
text_or_empty none = ""
text_or_empty (some s) = s

-- The decimal digits of a number below 10 ^ fuel.
decimal_from : ℕ → ℕ → String
unfolding digits text_or_empty
decimal_from zero n = ""
decimal_from (suc fuel) n =
    let front = decimal_from fuel (n / 10) in
    let digit = text_or_empty (get_elem? digits (n % 10)) in
    if ltb n 10 then digit else front ++ digit

-- %d
unfoldable pub decimal : ℤ → String
unfolding decimal_from
decimal (pos n) = decimal_from (suc n) n
decimal (negsuc n) = "-" ++ decimal_from (suc (suc n)) (suc n)
