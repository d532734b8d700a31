-- ===== src/Diff/Objects/Types/Append.antt =====
-- `diffEnumType`: what it does for each pair of label lists.

use migra_go.Prelude.{
  String, Bool, true, false, not, List, [], ◌∷◌, ◌++◌, ◌≡◌, ◌≢◌, refl, ap, sym, ◌∙◌, ◌⊎◌, inl, inr,
  arith, append_assoc, append-nil, eq_iff, if_ind, length, length-append, map, str_eq_refl,
}
use migra_go.Model.Objects.{EnumType}
use migra_go.Diff.Context.{DiffContext, Statement, ◌>>◌, skip, add_op, warnf, for_each, when}
use migra_go.Diff.Create.{new_add_enum_label_op}
use migra_go.Diff.Operation.{Operation}
use migra_go.Diff.Names.{same_string_slice, same_string_slice_refl}
use migra_go.Diff.Objects.Types.{agree, is_enum_append, drop, diff_enum_type}

agree→append : (s t : List String) → agree s t ≡ true → s ++ drop (length s) t ≡ t
agree→append [] t h = refl
agree→append (x ∷ s) [] h = cc h
agree→append (x ∷ s) (y ∷ t) h =
    let here : y ≡ x = ground (arith, eq_iff y x) in
    let rest : agree s t ≡ true = ground arith in rw here (ap (λ l. x ∷ l) (agree→append s t rest))

agree-append : (s l : List String) → agree s (s ++ l) ≡ true
agree-append [] l = refl
agree-append (x ∷ s) l = rw (str_eq_refl x) (agree-append s l)

same_string_slice→eq : (s t : List String) → same_string_slice s t ≡ true → s ≡ t
unfolding same_string_slice
same_string_slice→eq [] [] h = refl
same_string_slice→eq [] (y ∷ t) h = cc h
same_string_slice→eq (x ∷ s) [] h = cc h
same_string_slice→eq (x ∷ s) (y ∷ t) h =
    let here : x ≡ y = ground (arith, eq_iff x y) in
    let rest : same_string_slice s t ≡ true = ground arith in
    rw here (ap (λ l. y ∷ l) (same_string_slice→eq s t rest))

-- Whatever stands behind it, the list itself is no proper beginning only if nothing does.
append-only : (s l : List String) → is_enum_append s (s ++ l) ≡ false → l ≡ []
unfolding is_enum_append
append-only s [] h = refl
append-only s (x ∷ l) h = absurd (ground (arith, agree-append s (x ∷ l), length-append s (x ∷ l)))

add_all :
    (f : String → Operation) (l : List String) (c : DiffContext)
    → for_each l (λ x. add_op (f x)) c ≡ (record c { ops = c.ops ++ map f l }, true)
unfolding for_each add_op skip ◌>>◌
add_all f [] c = rw (append-nil c.ops) refl
add_all f (x ∷ l) c =
    add_all f l (record c { ops = c.ops ++ f x ∷ [] })
    ∙ rw (append_assoc c.ops (f x ∷ []) (map f l)) refl

module _ (schema name : String) (source target : EnumType) (c : DiffContext) where
  -- The labels that were appended are added, in order; where the target's labels are not the
  -- source's with some appended, there is a warning only.
  abbrev pub EnumPost : DiffContext × Bool → Type 0
  EnumPost r =
      ((l : List String) × (r
          ≡ (record c { ops = c.ops ++ map (new_add_enum_label_op schema name) l }, true))
        × (source.labels ++ l ≡ target.labels))
      ⊎ ((text : String) × (r ≡ (record c { warnings = c.warnings ++ text ∷ [] }, true))
          × ((l : List String) → source.labels ++ l ≢ target.labels))

  -- For every pair of enum types: either the target's labels are the source's with some appended,
  -- and one operation is added for each of these, in order; or they are not, and one warning is
  -- added and no operation.
  pub diff_enum_type-EnumPost : EnumPost (diff_enum_type schema name source target c)
  unfolding diff_enum_type is_enum_append when skip warnf
  diff_enum_type-EnumPost =
      if_ind (λ (a : Statement). EnumPost (a c)) (is_enum_append source.labels target.labels)
        (λ appended.
          let l = drop (length source.labels) target.labels in
          inl (
            l,
            add_all (new_add_enum_label_op schema name) l c,
            agree→append source.labels target.labels (ground arith),
          ))
        λ not_appended. compared (same_string_slice source.labels target.labels) refl not_appended _
    where
      compared :
          (b : Bool)
          → same_string_slice source.labels target.labels ≡ b
          → is_enum_append source.labels target.labels ≡ false
          → (text : String) → EnumPost (when (not b) (warnf text) c)
      compared true e h text = inl (
        [],
        rw (append-nil c.ops) refl,
        append-nil source.labels ∙ same_string_slice→eq source.labels target.labels e,
      )
      compared false e h text = inr (
        text,
        refl,
        λ l p.
            let none_left : l ≡ [] = append-only source.labels l (rw p h) in
            let same : source.labels ≡ target.labels =
              sym (append-nil source.labels) ∙ sym (ap (λ m. source.labels ++ m) none_left) ∙ p in
            cc (
              e,
              same_string_slice_refl target.labels,
              ap (λ m. same_string_slice m target.labels) same,
            ),
      )
