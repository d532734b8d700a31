-- ===== src/Parser/Parse/Snippet.antt =====
-- About `getStatementSnippet` of internal/parser/parser.go.
use migra_go.Prelude.{
  ℕ, zero, suc, ◌-◌, ◌<◌, ◌≤◌, false, ◌||◌, Option, some, List, [], ◌∷◌, ◌++◌, ◌≡◌, refl, ap, ◌∙◌,
  arith, length, ltb, leb, if_ind,
}
use migra_go.Prelude.Int.{ℤ, pos, negsuc}
use migra_go.Parser.Parse.{take, drop, slice, snippet_end, get_statement_snippet}

take-drop : (n : ℕ) (l : List ℕ) → l ≡ take n l ++ drop n l
take-drop zero l = refl
take-drop (suc n) [] = refl
take-drop (suc n) (x ∷ l) = ap (λ t. x ∷ t) (take-drop n l)

length-take : (n : ℕ) (l : List ℕ) → length (take n l) ≤ n
length-take zero l = omega arith
length-take (suc n) [] = omega arith
length-take (suc n) (x ∷ l) = omega (arith, length-take n l)

length-take_short : (n : ℕ) (l : List ℕ) → n ≤ length l → length (take n l) ≡ n
length-take_short zero l le = refl
length-take_short (suc n) [] le = absurd (omega arith)
length-take_short (suc n) (x ∷ l) le = ap suc (length-take_short n l (omega arith))

-- A snippet is a part of the text that begins at the position if it is not empty, and has at most
-- 100 bytes; `none` would be an index out of range.
pub data SnippetPost (sql : List ℕ) (at : ℤ) : Option (List ℕ) → Type 0 where
  nothing : SnippetPost sql at (some [])
  part :
      {n : ℕ} {snippet : List ℕ}
      → at ≡ pos n
      → (before : List ℕ) × (behind : List ℕ) × (sql ≡ before ++ (snippet ++ behind))
        × (length before ≡ n)
        × (length snippet ≤ 100)
      → SnippetPost sql at (some snippet)

slice-SnippetPost :
    (sql : List ℕ) (n : ℕ)
    → n < length sql
    → SnippetPost sql (pos n) (slice n (snippet_end n (length sql)) sql)
slice-SnippetPost sql n lt =
    let hi = snippet_end n (length sql) in
    let inside : (ltb hi n || ltb (length sql) hi) ≡ false = ground arith in
    let short : hi - n ≤ 100 = ground arith in
    rw inside (
      part refl (
        take n sql,
        drop (hi - n) (drop n sql),
        take-drop n sql ∙ ap (λ t. take n sql ++ t) (take-drop (hi - n) (drop n sql)),
        length-take_short n sql (omega arith),
        omega (arith, length-take (hi - n) (drop n sql), short),
      ))

-- Taking the snippet never panics, and gives nothing, or at most 100 bytes of the text from the
-- position on.
pub get_statement_snippet-SnippetPost :
    (sql : List ℕ) (at : ℤ) → SnippetPost sql at (get_statement_snippet sql at)
unfolding get_statement_snippet
get_statement_snippet-SnippetPost sql (negsuc n) = nothing
get_statement_snippet-SnippetPost sql (pos n) =
    if_ind (SnippetPost sql (pos n)) (leb (length sql) n) (λ _. nothing)
      (λ e. slice-SnippetPost sql n (ground (arith, e)))
