-- ===== src/Parser/Applier/Accounting.antt =====
-- What `Apply` of the applier reports, against the steps that the mutations make.
use migra_go.Prelude.{
  ℕ, List, [], ◌∷◌, ◌++◌, ◌≡◌, ◌⊎◌, inl, inr, refl, sym, ap, ◌∙◌, length, append-nil, append_assoc,
}
use migra_go.Model.Store.{State}
use migra_go.Parser.Outcome.{ApplyError, Outcome, applied, rejected, panicked}
use migra_go.Parser.Mutation.{Mutation}
use migra_go.Parser.Apply.{apply}
use migra_go.Parser.Applier.{
  MutationError, MutationApplier, Report, aborted, report_of, apply_from, apply_mutations,
}
use migra_go.Parser.Sound.{IsSound}
use migra_go.Parser.Sound.Preserved.{apply-IsSound}

-- Mutation after mutation, each on the state that the last one left, with the errors in order.
pub data Runs : List Mutation → State → List MutationError → State → Type 0 where
  finished : {s : State} → Runs [] s [] s
  accept :
      {m : Mutation} {ms : List Mutation} {s s' : State} {es : List MutationError}
      → (apply m s).0 ≡ applied
      → Runs ms (apply m s).1 es s'
      → Runs (m ∷ ms) s es s'
  reject :
      {m : Mutation} {ms : List Mutation} {s s' : State} {es : List MutationError} {e : ApplyError}
      → (apply m s).0 ≡ rejected e
      → Runs ms (apply m s).1 es s'
      → Runs (m ∷ ms) s (record { mutation = m; cause = e } ∷ es) s'

-- The mutations up to the first that panics, and the state that it leaves.
pub data Panics : List Mutation → State → State → Type 0 where
  here :
      {m : Mutation} {ms : List Mutation} {s : State}
      → (apply m s).0 ≡ panicked
      → Panics (m ∷ ms) s (apply m s).1
  later :
      {m : Mutation} {ms : List Mutation} {s s' : State}
      → Panics ms (apply m s).1 s'
      → Panics (m ∷ ms) s s'

Outcome-cases :
    (o : Outcome) → (o ≡ applied) ⊎ (((e : ApplyError) × (o ≡ rejected e)) ⊎ (o ≡ panicked))
Outcome-cases applied = inl refl
Outcome-cases (rejected e) = inr (inl (e, refl))
Outcome-cases panicked = inr (inr refl)

Runs-IsSound :
    {ms : List Mutation} {s s' : State} {es : List MutationError}
    → Runs ms s es s'
    → IsSound s
    → IsSound s'
Runs-IsSound finished h = h
Runs-IsSound (accept e r) h = Runs-IsSound r (apply-IsSound _ _ h)
Runs-IsSound (reject e r) h = Runs-IsSound r (apply-IsSound _ _ h)

Panics-IsSound : {ms : List Mutation} {s s' : State} → Panics ms s s' → IsSound s → IsSound s'
Panics-IsSound (here e) h = apply-IsSound _ _ h
Panics-IsSound (later r) h = Panics-IsSound r (apply-IsSound _ _ h)

-- Either all mutations ran, and the report is made from all their errors; or one panicked.
abbrev pub Accounted :
    ℕ → List MutationError → List Mutation → State → Report × MutationApplier × State → Type 0
Accounted n before ms s (report, a, s') =
    ((es : List MutationError) × Runs ms s es s'
      × (a.errors ≡ before ++ es)
      × (report ≡ report_of n (before ++ es)))
    ⊎ (Panics ms s s' × (report ≡ aborted))

apply_from-Accounted :
    (n : ℕ) (before : List MutationError) (ms : List Mutation) (s : State)
    → Accounted n before ms s (apply_from n before ms s)
unfolding apply_from
apply_from-Accounted n before [] s =
    inl ([], finished, sym (append-nil before), ap (report_of n) (sym (append-nil before)))
apply_from-Accounted n before (m ∷ ms) s = elim (Outcome-cases (apply m s).0) [
  | inl done ↦
      rw (apply_from, done)
        (elim (apply_from-Accounted n before ms (apply m s).1) [
          | inl (es, runs, all, report) ↦ inl (es, accept done runs, all, report)
          | inr (panics, report) ↦ inr (later panics, report)
        ])
  | inr (inl (e, refused)) ↦
      let new : MutationError = record { mutation = m; cause = e } in
      rw (apply_from, refused)
        (elim (apply_from-Accounted n (before ++ new ∷ []) ms (apply m s).1) [
          | inl (es, runs, all, report) ↦
              let moved = append_assoc before (new ∷ []) es in
              inl (new ∷ es, reject refused runs, all ∙ moved, report ∙ ap (report_of n) moved)
          | inr (panics, report) ↦ inr (later panics, report)
        ])
  | inr (inr panic) ↦ rw (apply_from, panic) (inr (here panic, refl))
]

-- Every mutation is tried, those after a rejected one too, unless one panics: the applier then has
-- the error of each rejected mutation in order, and reports none where there is none, and otherwise
-- how many mutations and errors there are with the first error. Errors of an earlier call do not
-- count.
pub apply_mutations-Accounted :
    (a : MutationApplier) (s : State) (ms : List Mutation)
    → Accounted (length ms) [] ms s (apply_mutations a s ms)
unfolding apply_mutations
apply_mutations-Accounted a s ms = apply_from-Accounted (length ms) [] ms s

-- Applying any mutations one after another to a sound schema leaves a sound one, whether they are
-- all tried or one panics.
pub apply_mutations-IsSound :
    (a : MutationApplier) (s : State) (ms : List Mutation)
    → IsSound s
    → IsSound (apply_mutations a s ms).2
apply_mutations-IsSound a s ms h = elim (apply_mutations-Accounted a s ms) [
  | inl (_, runs, _, _) ↦ Runs-IsSound runs h
  | inr (panics, _) ↦ Panics-IsSound panics h
]
