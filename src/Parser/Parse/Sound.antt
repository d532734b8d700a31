-- ===== src/Parser/Parse/Sound.antt =====
-- About `ParseSQL`, for any registry, any handlers and any statements.
use migra_go.Prelude.{
  ℕ, Option, none, some, List, [], ◌∷◌, ◌++◌, ◌≡◌, refl, sym, ap, ◌∙◌, append-nil, append_assoc,
  Option-cases, inl, inr, subst,
}
use migra_go.Prelude.Int.{ℤ}
use migra_go.Model.Store.{State, Store, new_schema}
use migra_go.Parser.Applier.{MutationApplier, Report, succeeded, failed, aborted, apply_mutations}
use migra_go.Parser.Applier.Accounting.{apply_mutations-IsSound}
use migra_go.Parser.Sound.{IsSound}
use migra_go.Parser.Sound.Preserved.{new_schema-IsSound}
use migra_go.Parser.Parse.{
  Handling, mutations, unhandled, handler_panics, ParseError, RawStmt, Parsing, after_apply,
  after_handle, add_error, visit_node, visit_all, summary, parsed, parse_sql,
}

module _ {Node : Type 0} (registry : Node → Option (Node → Handling)) (sql : List ℕ) where
  after_apply-schema :
      (position : ℤ) (r : Report) (a : MutationApplier) (s : State)
      → (after_apply registry sql position (r, a, s)).1.schema ≡ s
  after_apply-schema position succeeded a s = refl
  after_apply-schema position (failed n errors first) a s = refl
  after_apply-schema position aborted a s = refl

  after_handle-IsSound :
      (position : ℤ) (p : Parsing) (h : Handling)
      → IsSound p.schema
      → IsSound (after_handle registry sql position p h).1.schema
  after_handle-IsSound position p (mutations ms) sound =
      let (r, a, s) = apply_mutations p.applier p.schema ms in
      subst IsSound (sym (after_apply-schema position r a s))
        (apply_mutations-IsSound p.applier p.schema ms sound)
  after_handle-IsSound position p (unhandled e) sound = sound
  after_handle-IsSound position p handler_panics sound = sound

  visit_node-IsSound :
      (p : Parsing) (raw : RawStmt Node)
      → IsSound p.schema
      → IsSound (visit_node registry sql p raw).1.schema
  unfolding visit_node
  visit_node-IsSound p raw sound = elim (Option-cases (registry raw.stmt)) [
    | inl absent ↦ rw absent sound
    | inr (handle, at) ↦ rw at (after_handle-IsSound raw.stmt_location p (handle raw.stmt) sound)
  ]

  visit_all-IsSound :
      (errs : List ParseError) (p : Parsing) (raws : List (RawStmt Node))
      → IsSound p.schema
      → IsSound (visit_all registry sql errs p raws).1.schema
  unfolding visit_all
  visit_all-IsSound errs p [] sound = sound
  visit_all-IsSound errs p (raw ∷ raws) sound =
      let (e, p') = visit_node registry sql p raw in
      visit_all-IsSound (add_error registry sql e errs) p' raws (visit_node-IsSound p raw sound)

  -- Statement by statement: the errors of those that have one, and what they leave.
  pub data Visits : Parsing → List (RawStmt Node) → List ParseError → Parsing → Type 0 where
    end : {p : Parsing} → Visits p [] [] p
    next :
        {p p' : Parsing} {raw : RawStmt Node} {raws : List (RawStmt Node)} {es : List ParseError}
        → Visits (visit_node registry sql p raw).1 raws es p'
        → Visits p
            (raw ∷ raws)
            (add_error registry sql (visit_node registry sql p raw).0 [] ++ es)
            p'

  add_error-append :
      (e : Option ParseError) (errs es : List ParseError)
      → add_error registry sql e errs ++ es ≡ errs ++ (add_error registry sql e [] ++ es)
  add_error-append none errs es = refl
  add_error-append (some e) errs es = append_assoc errs (e ∷ []) es

  visit_all-Visits :
      (errs : List ParseError) (p : Parsing) (raws : List (RawStmt Node))
      → (es : List ParseError) × Visits p raws es (visit_all registry sql errs p raws).1
        × ((visit_all registry sql errs p raws).0 ≡ errs ++ es)
  unfolding visit_all
  visit_all-Visits errs p [] = ([], end, sym (append-nil errs))
  visit_all-Visits errs p (raw ∷ raws) =
      let (e, p') = visit_node registry sql p raw in
      let (es, visits, all) = visit_all-Visits (add_error registry sql e errs) p' raws in
      (_, next visits, all ∙ add_error-append e errs es)

  -- Where the text has a syntax tree, every statement is visited, also behind one that fails or
  -- panics; the schema is what they leave, and there is no error if none of them has one, and
  -- otherwise their number with the first.
  pub parse_sql-Visits :
      (a : MutationApplier) (st : Store) (raws : List (RawStmt Node))
      → (es : List ParseError) × (p : Parsing) × Visits
          (record { applier = a; schema = new_schema st })
          raws
          es
          p
        × (parse_sql registry sql a st (some raws) ≡ some (summary registry sql es, p.schema))
  unfolding parse_sql
  parse_sql-Visits a st raws =
      let first : Parsing = record { applier = a; schema = new_schema st } in
      let (es, visits, all) = visit_all-Visits [] first raws in
      (
        es,
        (visit_all registry sql [] first raws).1,
        visits,
        ap
            (λ errs.
              some (summary registry sql errs, (visit_all registry sql [] first raws).1.schema))
            all,
      )

  -- The schema that ParseSQL returns, beside an error or not, finds columns under their names only,
  -- and no two tables share one.
  pub parse_sql-IsSound :
      (a : MutationApplier) (st : Store) (raws : List (RawStmt Node))
      (r : Option (ℕ × ParseError) × State)
      → parse_sql registry sql a st (some raws) ≡ some r
      → IsSound r.1
  unfolding parse_sql
  parse_sql-IsSound a st raws r e =
      let first : Parsing = record { applier = a; schema = new_schema st } in
      let same : parsed registry sql (visit_all registry sql [] first raws) ≡ r = cc e in
      subst (λ x. IsSound x.1) same (visit_all-IsSound [] first raws (new_schema-IsSound st))
