-- ===== src/Push/Answer.antt =====
-- internal/app/push/push_service.go: what the user types. A line is its bytes.
use migra_go.Prelude.{
  ℕ, ◌+◌, Bool, true, false, ◌&&◌, ◌||◌, List, [], ◌∷◌, leb, map, nat_eq, if◌then◌else◌,
}
use mathlib.Core.List.{reverse}

pub data Answer : Type 0 where
  yes_once : Answer
  cancel : Answer
  apply_all : Answer
  skip : Answer
  invalid : Answer

-- unicode.IsSpace, for a character of one byte, of two and of three in UTF-8
abbrev is_space : ℕ → Bool
is_space c = nat_eq c b' ' || (leb 9 c && leb c 13)

abbrev is_space2 : ℕ → ℕ → Bool
is_space2 c d = nat_eq c 194 && (nat_eq d 133 || nat_eq d 160)

abbrev is_space3 : ℕ → ℕ → ℕ → Bool
is_space3 c d e =
    (nat_eq c 225 && nat_eq d 154 && nat_eq e 128)
    || (nat_eq c 226
        && nat_eq d 128
        && (leb 128 e && leb e 138 || nat_eq e 168 || nat_eq e 169 || nat_eq e 175))
    || (nat_eq c 226 && nat_eq d 129 && nat_eq e 159)
    || (nat_eq c 227 && nat_eq d 128 && nat_eq e 128)

-- Without the spaces at the start, with the tests for two and three bytes.
trim_start : (ℕ → ℕ → Bool) → (ℕ → ℕ → ℕ → Bool) → List ℕ → List ℕ
trim_start two three [] = []
trim_start two three (c ∷ []) = if is_space c then [] else c ∷ []
trim_start two three (c ∷ d ∷ []) = elim (is_space c) [
  | true ↦ trim_start two three (d ∷ [])
  | false ↦ if two c d then [] else c ∷ d ∷ []
]
trim_start two three (c ∷ d ∷ e ∷ s) = elim (is_space c) [
  | true ↦ trim_start two three (d ∷ e ∷ s)
  | false ↦ elim (two c d) [
    | true ↦ trim_start two three (e ∷ s)
    | false ↦ elim (three c d e) [ true ↦ trim_start two three s | false ↦ c ∷ d ∷ e ∷ s ]
  ]
]

-- strings.TrimSpace: at the start, and backwards at the end
trim_space : List ℕ → List ℕ
unfolding trim_start
trim_space s = reverse (
    trim_start (λ d c. is_space2 c d) (λ e d c. is_space3 c d e)
      (reverse (trim_start is_space2 is_space3 s)))

-- strings.ToLower, where it matters: no character of more than one byte becomes y, n, a or s, and
-- none becomes empty.
abbrev to_lower : ℕ → ℕ
to_lower c = if leb b'A' c && leb c b'Z' then c + 32 else c

abbrev single : List ℕ → ℕ
single (c ∷ []) = c
single _ = 0

abbrev answer_of : ℕ → Answer
answer_of c =
    if nat_eq c b'y'
    then yes_once
    else if nat_eq c b'n'
    then cancel
    else if nat_eq c b'a'
    then apply_all
    else if nat_eq c b's'
    then skip
    else invalid

-- The `switch` on the trimmed and lowered line.
unfoldable pub read_answer : List ℕ → Answer
unfolding trim_space
read_answer line = answer_of (single (map to_lower (trim_space line)))
