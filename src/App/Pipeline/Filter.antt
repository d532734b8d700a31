-- ===== src/App/Pipeline/Filter.antt =====
-- `FilterDestructiveOps` and `FilterNamespaces`.
use migra_go.Prelude.{
  suc, All-map, Bool, true, false, not, List, [], ◌∷◌, ◌++◌, ◌≡◌, refl, arith, All, keep_if, length,
  map, ltb, if_ind, if◌then◌else◌, Bool-cases, inl, inr,
}
use migra_go.Diff.Operation.{Operation, is_destructive}
use migra_go.App.Pipeline.{
  Warning, destructive_count, destructive_operation, unsafe_drop_hint, filter_destructive_ops,
  describe,
}

keep_if-All :
    (p : Operation → Bool) (ops : List Operation) → All (λ op. p op ≡ true) (keep_if p ops)
keep_if-All p [] = tt
keep_if-All p (op ∷ ops) =
    if_ind (All (λ op'. p op' ≡ true)) (p op) (λ e. (e, keep_if-All p ops)) (λ _. keep_if-All p ops)

-- Without --unsafe-drop no destructive operation is left.
pub filter_destructive_ops-safe :
    (ops : List Operation)
    → All (λ op. is_destructive op ≡ false) (filter_destructive_ops ops false).0
unfolding filter_destructive_ops
filter_destructive_ops-safe ops =
    All-map _ (λ op e. ground arith) (keep_if-All (λ op. not (is_destructive op)) ops)

-- These operations are split, in their order, into the ones that are kept and the ones left out: a
-- destructive one is left out, every other is kept.
pub data Splits : List Operation → List Operation → List Operation → Type 0 where
  none_more : Splits [] [] []
  keeps :
      {op : Operation} {ops kept left : List Operation}
      → is_destructive op ≡ false
      → Splits ops kept left
      → Splits (op ∷ ops) (op ∷ kept) left
  leaves :
      {op : Operation} {ops kept left : List Operation}
      → is_destructive op ≡ true
      → Splits ops kept left
      → Splits (op ∷ ops) kept (op ∷ left)

-- One warning for each operation, in their order, with its kind and its object.
pub data Each : List Operation → List Warning → Type 0 where
  no_more : Each [] []
  one_more :
      {op : Operation} {ops : List Operation} {warnings : List Warning}
      → Each ops warnings
      → Each (op ∷ ops) (destructive_operation op.kind op.object_key ∷ warnings)

-- The warnings for the operations left out: none, if there are none; else their number, one for each
-- and the hint.
pub data Reports : List Operation → List Warning → Type 0 where
  quiet : Reports [] []
  loud :
      {op : Operation} {ops : List Operation} {warnings : List Warning}
      → Each (op ∷ ops) warnings
      → Reports
          (op ∷ ops)
          (destructive_count (suc (length ops)) ∷ warnings ++ unsafe_drop_hint ∷ [])

keep_if-Splits :
    (ops : List Operation)
    → Splits ops (keep_if (λ op. not (is_destructive op)) ops) (keep_if is_destructive ops)
keep_if-Splits [] = none_more
keep_if-Splits (op ∷ ops) = elim (Bool-cases (is_destructive op)) [
  | inl gone ↦ rw gone (leaves gone (keep_if-Splits ops))
  | inr stays ↦ rw stays (keeps stays (keep_if-Splits ops))
]

map-Each : (ops : List Operation) → Each ops (map describe ops)
map-Each [] = no_more
map-Each (op ∷ ops) = one_more (map-Each ops)

warnings-Reports :
    (left : List Operation)
    → Reports left (
        if ltb 0 (length left)
        then (destructive_count (length left) ∷ map describe left) ++ unsafe_drop_hint ∷ []
        else [])
warnings-Reports [] = quiet
warnings-Reports (op ∷ ops) =
    let some_left : ltb 0 (suc (length ops)) ≡ true = ground arith in
    rw some_left (loud (map-Each (op ∷ ops)))

-- With --unsafe-drop every operation is kept, without a warning. Without it the destructive
-- operations are left out and all others kept, in their order, and the warnings are exactly the
-- number of those left out, one with the kind and the object of each, and the hint; or none, if no
-- operation is left out.
pub filter_destructive_ops-accounted :
    (ops : List Operation)
    → (filter_destructive_ops ops true ≡ (ops, []))
      × (left : List Operation) × Splits ops (filter_destructive_ops ops false).0 left
      × Reports left (filter_destructive_ops ops false).1
unfolding filter_destructive_ops
filter_destructive_ops-accounted ops =
    let left = keep_if is_destructive ops in (refl, left, keep_if-Splits ops, warnings-Reports left)
