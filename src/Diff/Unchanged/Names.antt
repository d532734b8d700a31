-- ===== src/Diff/Unchanged/Names.antt =====
-- The names that the loops of internal/diff go through when a map is compared with itself.
use migra_go.Prelude.{
  All-map, String, Bool, true, false, not, Option, some, List, [], ◌∷◌, ◌≡◌, refl, ap, All, Map,
  get, has, keys, keep_if, sort_strings, str_eq, if◌then◌else◌, if_ind, str_eq_refl, is_some,
}
use migra_go.Diff.Context.{Statement}
use migra_go.Diff.Context.Keeps.{
  Keeps, IsPollable, Keeps-then, Keeps-skip, Keeps-check, Keeps-for_each, Keeps-with_entry,
}
use migra_go.Diff.Context.{DiffContext, for_each}
use migra_go.Diff.Names.{only_in, for_names, for_polled}

module _ {ℓ} {V : Type ℓ} where
  has-cons : (k : String) (e : String × V) (m : Map V) → has k m ≡ true → has k (e ∷ m) ≡ true
  unfolding has get
  has-cons k (j, v) m h =
      if_ind (λ (o : Option V). is_some o ≡ true) (str_eq j k) (λ _. refl) (λ _. h)

  keys-has_cons :
      (l : List String) (e : String × V) (m : Map V)
      → All (λ k. has k m ≡ true) l
      → All (λ k. has k (e ∷ m) ≡ true) l
  keys-has_cons [] e m h = tt
  keys-has_cons (k ∷ l) e m h = (has-cons k e m h.0, keys-has_cons l e m h.1)

  -- Each key of a map is one of its names.
  pub keys-has : (m : Map V) → All (λ k. has k m ≡ true) (keys m)
  unfolding keys has get
  keys-has [] = tt
  keys-has ((j, v) ∷ m) = (
    ap (λ (b : Bool). is_some (if b then some v else get j m)) (str_eq_refl j),
    keys-has_cons (keys m) (j, v) m (keys-has m),
  )

pub keep_if-none :
    (p : String → Bool) (l : List String) → All (λ k. p k ≡ false) l → keep_if p l ≡ []
keep_if-none p [] h = refl
keep_if-none p (k ∷ l) h = rw h.0 (keep_if-none p l h.1)

-- No name of a map is missing in it.
pub only_in-none {ℓ} : {V : Type ℓ} (m : Map V) → only_in m m ≡ []
unfolding only_in sort_strings
only_in-none m =
    ap sort_strings (
      keep_if-none (λ k. not (has k m)) (keys m) (All-map (keys m) (λ k e. rw e refl) (keys-has m)))

pub entry_unique {ℓ} : {V : Type ℓ} {o : Option V} {a b : V} → o ≡ some a → o ≡ some b → a ≡ b
entry_unique e e' = cc (e, e')

module _ {R : DiffContext → Type 0} where
  pub Keeps-for_names {ℓ} :
      {V : Type ℓ} (names : List String) (m : Map V) {body : String → V → Statement}
      → ((name : String) (v : V) → get name m ≡ some v → Keeps R (body name v))
      → Keeps R (for_names names m body)
  unfolding for_names
  Keeps-for_names names m h = Keeps-for_each names (λ name. Keeps-with_entry (get name m) (h name))

  pub Keeps-for_polled {ℓ} :
      {V : Type ℓ} (names : List String) (m : Map V) {body : String → V → Statement}
      → IsPollable R
      → ((name : String) (v : V) → get name m ≡ some v → Keeps R (body name v))
      → Keeps R (for_polled names m body)
  unfolding for_polled
  Keeps-for_polled names m p h =
      Keeps-for_each names
        (λ name. Keeps-then (Keeps-check p) (Keeps-with_entry (get name m) (h name)))

  -- A loop over the names that a map lacks of its own.
  pub Keeps-for_missing {ℓ} :
      {V : Type ℓ} (m : Map V) (body : String → V → Statement)
      → Keeps R (for_names (only_in m m) m body)
  unfolding for_names for_each
  Keeps-for_missing m body = rw (only_in-none m) Keeps-skip

  pub Keeps-for_missing_polled {ℓ} :
      {V : Type ℓ} (m : Map V) (body : String → V → Statement)
      → Keeps R (for_polled (only_in m m) m body)
  unfolding for_polled for_each
  Keeps-for_missing_polled m body = rw (only_in-none m) Keeps-skip
