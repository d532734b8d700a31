-- ===== src/Diff/Context/Keeps.antt =====
-- Statements that keep a property of the state, by the shape of the statement.
use migra_go.Prelude.{All, Bool, true, false, Option, none, some, List, [], ◌∷◌, if_ind, ◌≡◌, refl}
use migra_go.Context.{polled}
use migra_go.Diff.Context.{
  DiffContext, Statement, ◌>>◌, skip, check_cancelled, call, for_each, when, with_entry,
}

-- Whatever a statement starts from, it keeps the property.
pub record Keeps (R : DiffContext → Type 0) (a : Statement) : Type 0 where
  pub kept : (c : DiffContext) → R c → R (a c).0

-- A question to the context keeps the property.
abbrev pub IsPollable : (DiffContext → Type 0) → Type 0
IsPollable R = (c : DiffContext) → R c → R (record c { ctx = polled c.ctx })

module _ {R : DiffContext → Type 0} where
  pub Keeps-then : {a b : Statement} → Keeps R a → Keeps R b → Keeps R (a >> b)
  unfolding ◌>>◌
  Keeps-then {a} {b} h k = record {
    kept = λ c r.
        if_ind (λ (s : DiffContext × Bool). R s.0) (a c).1 (λ _. k.kept (a c).0 (h.kept c r))
          (λ _. h.kept c r);
  }

  pub Keeps-skip : Keeps R skip
  unfolding skip
  Keeps-skip = record { kept = λ c r. r }

  pub Keeps-check : IsPollable R → Keeps R check_cancelled
  unfolding check_cancelled
  Keeps-check p = record { kept = p }

  pub Keeps-call : {a : Statement} → Keeps R a → Keeps R (call a)
  unfolding call
  Keeps-call h = record { kept = h.kept }

  pub Keeps-when : (b : Bool) {a : Statement} → (b ≡ true → Keeps R a) → Keeps R (when b a)
  unfolding when
  Keeps-when true h = h refl
  Keeps-when false h = Keeps-skip

  pub Keeps-for_each {ℓ} :
      {A : Type ℓ} (xs : List A) {body : A → Statement}
      → ((x : A) → Keeps R (body x))
      → Keeps R (for_each xs body)
  unfolding for_each
  Keeps-for_each [] h = Keeps-skip
  Keeps-for_each (x ∷ xs) h = Keeps-then (h x) (Keeps-for_each xs h)

  pub Keeps-with_entry {ℓ} :
      {V : Type ℓ} (o : Option V) {body : V → Statement}
      → ((v : V) → o ≡ some v → Keeps R (body v))
      → Keeps R (with_entry o body)
  unfolding with_entry
  Keeps-with_entry none h = Keeps-skip
  Keeps-with_entry (some v) h = h v refl

  pub Keeps-each {ℓ} :
      {A : Type ℓ} (body : A → Statement) (xs : List A)
      → All (λ x. Keeps R (body x)) xs
      → Keeps R (for_each xs body)
  unfolding for_each
  Keeps-each body [] h = Keeps-skip
  Keeps-each body (x ∷ xs) h = Keeps-then h.0 (Keeps-each body xs h.1)
