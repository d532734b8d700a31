-- ===== src/Render/Text.antt =====
-- The text of a plan, against a description of it as a whole.
use Prim.Native.String.{◌++◌}
use migra_go.Prelude.{
  ℕ, zero, suc, ◌≡◌, refl, sym, ap, ◌∙◌, String, Bool, true, false, none, some, List, [], ◌∷◌,
  str_eq, eq_iff, join, ne_true→eq_false, keep_if, not, map, length, if◌then◌else◌, Bool-cases, inl,
  inr,
}
use text.Mathlib.TextLemmas.{append_assoc, nil-append, append-nil, cons-append, cons-ne-nil}
use migra_go.Context.{Context, err, polled}
use migra_go.Diff.Operation.{Operation}
use migra_go.Render.{Renderer, render, render_from, render_all}

-- The statements that are not empty.
pub statements : Renderer → List Operation → List String
statements r ops = keep_if (λ sql. not (str_eq sql "")) (map (render r) ops)

-- All of them one below the other between two marks.
abbrev pub framed : List String → String
framed [] = "-- No changes detected"
framed (sql ∷ sqls) = "-- Begin Diff\n" ++ (join "\n" (sql ∷ sqls) ++ "\n-- End Diff")

-- The context is not done at the next n questions.
abbrev pub open_for : Context → ℕ → Bool
open_for ctx zero = true
open_for ctx (suc n) = let rest = open_for (polled ctx) n in if err ctx then false else rest

abbrev below : List String → String
below [] = ""
below (sql ∷ sqls) = "\n" ++ (sql ++ below sqls)

join-below : (sql : String) (sqls : List String) → join "\n" (sql ∷ sqls) ≡ sql ++ below sqls
unfolding join
join-below sql [] = sym (append-nil sql)
join-below sql (t ∷ sqls) = ap (λ s. sql ++ ("\n" ++ s)) (join-below t sqls)

append-nonempty : (b s : String) → str_eq b "" ≡ false → str_eq (b ++ s) "" ≡ false
append-nonempty String.[] s h = absurd (cc h)
append-nonempty (String.◌∷◌ c b) s h =
    ne_true→eq_false _ (λ e.
      cons-ne-nil c (b ++ s) (sym (cons-append c b s) ∙ (eq_iff (String.◌∷◌ c b ++ s) "").0 e))

-- Where the pieces are put together does not matter.
shift : (x y z : String) → ("\n" ++ x) ++ (y ++ z) ≡ ("\n" ++ (x ++ y)) ++ z
shift x y z = sym (append_assoc ("\n" ++ x) y z) ∙ ap (λ s. s ++ z) (append_assoc "\n" x y)

module _ (r : Renderer) where
  -- The loop from a builder that is not empty.
  render_from-started :
      (ctx : Context) (b : String) (ops : List Operation)
      → str_eq b "" ≡ false
      → render_from r ctx b ops ≡ (
          if open_for ctx (length ops)
          then some (b ++ (below (statements r ops) ++ "\n-- End Diff"))
          else none)
  unfolding render_from statements
  render_from-started ctx b [] h = rw (h, nil-append "\n-- End Diff") refl
  render_from-started ctx b (op ∷ ops) h = elim (Bool-cases (err ctx)) [
    | inl done ↦ rw done refl
    | inr active ↦ elim (Bool-cases (str_eq (render r op) "")) [
      | inl empty ↦ rw (active, empty) (render_from-started (polled ctx) b ops h)
      | inr sql ↦
          rw
            (
              active,
              sql,
              h,
              render_from-started (polled ctx) (b ++ ("\n" ++ render r op)) ops
                  (append-nonempty b _ h),
              append_assoc b,
            )
            (ap (λ s. if open_for (polled ctx) (length ops) then some (b ++ s) else none)
              (shift (render r op) (below (statements r ops)) "\n-- End Diff"))
    ]
  ]

  -- If the context is done at no question, the text is one statement for each operation that has
  -- one, in the order of the plan and one below the other between two marks, or says that nothing has
  -- changed; otherwise there is none.
  pub render_all-framed :
      (ctx : Context) (ops : List Operation)
      → render_all r ctx ops
        ≡ (if open_for ctx (length ops) then some (framed (statements r ops)) else none)
  unfolding render_all render_from statements
  render_all-framed ctx [] = refl
  render_all-framed ctx (op ∷ ops) = elim (Bool-cases (err ctx)) [
    | inl done ↦ rw done refl
    | inr active ↦ elim (Bool-cases (str_eq (render r op) "")) [
      | inl empty ↦ rw (active, empty) (render_all-framed (polled ctx) ops)
      | inr sql ↦
          rw
            (
              active,
              sql,
              render_from-started (polled ctx) ("-- Begin Diff\n" ++ render r op) ops
                  (append-nonempty "-- Begin Diff\n" (render r op) refl),
              append_assoc "-- Begin Diff\n",
              join-below (render r op) (statements r ops),
              append_assoc (render r op) (below (statements r ops)),
            )
            refl
    ]
  ]
