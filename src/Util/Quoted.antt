-- ===== src/Util/Quoted.antt =====
-- Quoted names, read back as PostgreSQL's scanner reads them.
use Prim.Native.Char.{Char, code}
use Prim.Native.String.{[], ◌∷◌, ◌++◌}
use migra_go.Prelude.{
  ℕ, String, true, false, Option, none, some, ◌≡◌, refl, ap, sym, subst, ◌∙◌, nat_eq, double,
  if◌then◌else◌, Bool-cases, inl, inr,
}
use text.Mathlib.TextLemmas.{nil-append, cons-append, append_assoc, append-nil, append_cancel_left}
use migra_go.Util.{quote_identifier, quote_qualified_identifier}

abbrev prepend : Char → Option (String × String) → Option (String × String)
prepend c none = none
prepend c (some (s, rest)) = some (c ∷ s, rest)

-- What stands behind an opening quote: the text up to the closing quote, in which two quotes stand
-- for one, and the rest.
pub read_quoted : ℕ → String → Option (String × String)
read_quoted q [] = none
read_quoted q (c ∷ []) = if nat_eq (code c) q then some ([], []) else none
read_quoted q (c ∷ d ∷ s) =
    let inside = prepend c (read_quoted q (d ∷ s)) in
    let doubled = prepend c (read_quoted q s) in
    if nat_eq (code c) q then (if nat_eq (code d) q then doubled else some ([], d ∷ s)) else inside

-- The text does not go on with a quote.
abbrev pub EndsQuote : ℕ → String → Type 0
EndsQuote q [] = Unit {0}
EndsQuote q (c ∷ s) = nat_eq (code c) q ≡ false

read_quoted-end :
    (q : ℕ) (close : Char) (rest : String)
    → nat_eq (code close) q ≡ true
    → EndsQuote q rest
    → read_quoted q (close ∷ rest) ≡ some ([], rest)
unfolding read_quoted
read_quoted-end q close [] e h = rw e refl
read_quoted-end q close (c ∷ rest) e h = rw (e, h) refl

read_quoted-other :
    (q : ℕ) (c : Char) (s : String)
    → nat_eq (code c) q ≡ false
    → read_quoted q (c ∷ s) ≡ prepend c (read_quoted q s)
unfolding read_quoted
read_quoted-other q c [] e = rw e refl
read_quoted-other q c (d ∷ s) e = rw e refl

read_quoted-twice :
    (q : ℕ) (c : Char) (s : String)
    → nat_eq (code c) q ≡ true
    → read_quoted q (c ∷ (c ∷ s)) ≡ prepend c (read_quoted q s)
unfolding read_quoted
read_quoted-twice q c s e = rw e refl

double-cons :
    (q : ℕ) (c : Char) (s : String)
    → double q (c ∷ s) ≡ (if nat_eq (code c) q then c ∷ (c ∷ double q s) else c ∷ double q s)
unfolding double
double-cons q c s = refl

double-nil : (q : ℕ) → double q [] ≡ []
unfolding double
double-nil q = refl

-- Reading back what was written with its quotes doubled.
read_quoted-double :
    (q : ℕ) (close : Char) (s rest : String)
    → nat_eq (code close) q ≡ true
    → EndsQuote q rest
    → read_quoted q (double q s ++ (close ∷ rest)) ≡ some (s, rest)
read_quoted-double q close [] rest e h =
    rw (double-nil q, nil-append (close ∷ rest)) (read_quoted-end q close rest e h)
read_quoted-double q close (c ∷ s) rest e h = elim (Bool-cases (nat_eq (code c) q)) [
  | inl quote ↦
      rw
        (
          double-cons q c s,
          quote,
          cons-append c (c ∷ double q s) (close ∷ rest),
          cons-append c (double q s) (close ∷ rest),
          read_quoted-twice q c (double q s ++ (close ∷ rest)) quote,
          read_quoted-double q close s rest e h,
        )
        refl
  | inr other ↦
      rw
        (
          double-cons q c s,
          other,
          cons-append c (double q s) (close ∷ rest),
          read_quoted-other q c (double q s ++ (close ∷ rest)) other,
          read_quoted-double q close s rest e h,
        )
        refl
]

-- Where the text does not go on with a quote: behind the opening quote of a quoted identifier
-- stands exactly the name, whatever characters it has, and then the rest of the text.
pub read_quoted-quote_identifier :
    (name rest : String)
    → EndsQuote b'"' rest
    → (body : String) × (quote_identifier name ++ rest ≡ "\"" ++ body)
      × (read_quoted b'"' body ≡ some (name, rest))
unfolding quote_identifier
read_quoted-quote_identifier name rest h = (
  double b'"' name ++ ("\"" ++ rest),
  append_assoc "\"" (double b'"' name ++ "\"") rest
      ∙ ap (λ s. "\"" ++ s) (append_assoc (double b'"' name) "\"" rest),
  subst (λ tail. read_quoted b'"' (double b'"' name ++ tail) ≡ some (name, rest))
      (sym (cons-append "\"" [] rest ∙ ap (λ s. "\"" ∷ s) (nil-append rest)))
      (read_quoted-double b'"' "\"" name rest refl h),
)

abbrev pair_of : Option (String × String) → String × String
pair_of none = ([], [])
pair_of (some p) = p

quote_identifier-append_inj :
    (name name' rest rest' : String)
    → EndsQuote b'"' rest
    → EndsQuote b'"' rest'
    → quote_identifier name ++ rest ≡ quote_identifier name' ++ rest'
    → (name ≡ name') × (rest ≡ rest')
quote_identifier-append_inj name name' rest rest' h h' e =
    let (body, opened, read) = read_quoted-quote_identifier name rest h in
    let (body', opened', read') = read_quoted-quote_identifier name' rest' h' in
    let same : body ≡ body' = append_cancel_left "\"" body body' (sym opened ∙ e ∙ opened') in
    let both = sym read ∙ ap (read_quoted b'"') same ∙ read' in
    (ap (λ o. (pair_of o).0) both, ap (λ o. (pair_of o).1) both)

-- Different names have different quoted forms, also qualified ones: no choice of characters makes
-- one schema and table look like another.
pub quote_qualified_identifier_inj :
    (schema name schema' name' : String)
    → quote_qualified_identifier schema name ≡ quote_qualified_identifier schema' name'
    → (schema ≡ schema') × (name ≡ name')
unfolding quote_qualified_identifier
quote_qualified_identifier_inj schema name schema' name' e =
    let (same_schema, rest) =
      quote_identifier-append_inj schema schema' _ _ (dot_ends name) (dot_ends name') e in
    let names : quote_identifier name ++ [] ≡ quote_identifier name' ++ [] =
      append-nil (quote_identifier name)
      ∙ append_cancel_left "." (quote_identifier name) (quote_identifier name') rest
      ∙ sym (append-nil (quote_identifier name')) in
    (same_schema, (quote_identifier-append_inj name name' [] [] tt tt names).0)
  where
    dot_ends : (n : String) → EndsQuote b'"' ("." ++ quote_identifier n)
    dot_ends n = subst (EndsQuote b'"') (sym (cons-append "." [] (quote_identifier n))) refl
