-- ===== src/Diff/Unchanged/Objects.antt =====
-- Comparing the other objects of a namespace with themselves.
use mathlib.Core.Bool.{xor}
use migra_go.Prelude.{String, true, some, ◌≡◌, refl, arith, get, has, str_eq_refl, if_ind, Map}
use migra_go.Prelude.Int.{ℤ, pos, negsuc, int_eq}
use migra_go.Model.Objects.{EnumType, View, Sequence, Namespace}
use migra_go.Diff.Context.{DiffContext}
use migra_go.Diff.Context.Keeps.{Keeps, IsPollable, Keeps-then, Keeps-call, Keeps-with_entry}
use migra_go.Diff.Names.{same_string_slice_refl, sorted_names}
use migra_go.Diff.Objects.{
  is_enum_append, diff_enum_type, diff_types, diff_view, diff_target_view, drop_missing_view,
  diff_views, same_sequence_content, diff_sequence, diff_sequences, diff_extension, diff_extensions,
}
use migra_go.Diff.Unchanged.Names.{entry_unique, Keeps-for_polled}
use migra_go.Diff.Unchanged.Tables.{xor_refl, not_same, Keeps-when-false}

has-entry {ℓ} : {V : Type ℓ} (k : String) (m : Map V) {v : V} → get k m ≡ some v → has k m ≡ true
unfolding has
has-entry k m e = rw e refl

int_eq_refl : (a : ℤ) → int_eq a a ≡ true
int_eq_refl (pos n) = ground arith
int_eq_refl (negsuc n) = ground arith

same_sequence_content_refl : (s : Sequence) → same_sequence_content s s ≡ true
unfolding same_sequence_content
same_sequence_content_refl s = ground (
  arith,
  str_eq_refl s.data_type,
  int_eq_refl s.start_value,
  int_eq_refl s.increment_by,
  int_eq_refl s.min_value,
  int_eq_refl s.max_value,
  int_eq_refl s.cache_size,
  xor_refl s.cycle,
  str_eq_refl s.owned_by_table,
  str_eq_refl s.owned_by_column,
)

module _ {R : DiffContext → Type 0} where
  Keeps-enum_type : (schema name : String) (t : EnumType) → Keeps R (diff_enum_type schema name t t)
  unfolding diff_enum_type is_enum_append
  Keeps-enum_type schema name t =
      if_ind (Keeps R) (is_enum_append t.labels t.labels) (λ e. absurd (ground arith))
        (λ _. Keeps-when-false _ _ (not_same _ (same_string_slice_refl t.labels)))

  pub Keeps-types : (ns : Namespace) → IsPollable R → Keeps R (diff_types (some ns) ns)
  unfolding diff_types
  Keeps-types ns p =
      Keeps-then
        (Keeps-for_polled (sorted_names ns.types) ns.types p
          (λ name t e. Keeps-when-false _ _ (not_same _ (has-entry name _ e))))
        (Keeps-then
          (Keeps-for_polled (sorted_names ns.types) ns.types p (λ name t e.
            Keeps-with_entry (get name ns.types)
              (λ old e'. Keeps-call (rw (entry_unique e' e) (Keeps-enum_type ns.name name t)))))
          (Keeps-for_polled (sorted_names ns.types) ns.types p
            (λ name t e. Keeps-when-false _ _ (not_same _ (has-entry name _ e)))))

  Keeps-view : (source target name : String) (v : View) → Keeps R (diff_view source target name v v)
  unfolding diff_view
  Keeps-view source target name v =
      if_ind (Keeps R) (xor v.materialized v.materialized)
        (λ e. absurd (ground (arith, xor_refl v.materialized)))
        (λ _. Keeps-when-false _ _ (not_same _ (str_eq_refl v.definition)))

  pub Keeps-views : (ns : Namespace) → IsPollable R → Keeps R (diff_views (some ns) ns)
  unfolding diff_views diff_target_view drop_missing_view
  Keeps-views ns p =
      Keeps-then
        (Keeps-for_polled (sorted_names ns.views) ns.views p
          (λ name v e. rw e (Keeps-view ns.name ns.name name v)))
        (Keeps-for_polled (sorted_names ns.views) ns.views p
          (λ name v e. Keeps-when-false _ _ (not_same _ (has-entry name _ e))))

  pub Keeps-sequences : (ns : Namespace) → IsPollable R → Keeps R (diff_sequences (some ns) ns)
  unfolding diff_sequences diff_sequence
  Keeps-sequences ns p =
      Keeps-then
        (Keeps-for_polled (sorted_names ns.sequences) ns.sequences p
          (λ name s e. rw e (Keeps-when-false _ _ (not_same _ (same_sequence_content_refl s)))))
        (Keeps-for_polled (sorted_names ns.sequences) ns.sequences p
          (λ name s e. Keeps-when-false _ _ (not_same _ (has-entry name _ e))))

  pub Keeps-extensions : (ns : Namespace) → IsPollable R → Keeps R (diff_extensions (some ns) ns)
  unfolding diff_extensions diff_extension
  Keeps-extensions ns p =
      Keeps-then
        (Keeps-for_polled (sorted_names ns.extensions) ns.extensions p
          (λ name x e. rw e (Keeps-when-false _ _ (ground (arith, str_eq_refl x.version)))))
        (Keeps-for_polled (sorted_names ns.extensions) ns.extensions p
          (λ name x e. Keeps-when-false _ _ (not_same _ (has-entry name _ e))))
