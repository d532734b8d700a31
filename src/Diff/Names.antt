-- ===== src/Diff/Names.antt =====
-- The loops over sorted names by which internal/diff compares two maps, and util.SameStringSlice.
use migra_go.Prelude.{
  ◌≡◌, refl, str_eq_refl, String, Bool, true, false, not, ◌&&◌, List, [], ◌∷◌, Map, get, has, keys,
  keep_if, sort_strings, str_eq,
}
use migra_go.Diff.Context.{Statement, ◌>>◌, check_cancelled, for_each, with_entry}

module _ {ℓ κ} {V : Type ℓ} {W : Type κ} where
  -- The sorted names of `m` that `other` lacks.
  unfoldable pub only_in : Map V → Map W → List String
  only_in m other = sort_strings (keep_if (λ k. not (has k other)) (keys m))

  -- The sorted names of `m` that `other` has too.
  unfoldable pub in_both : Map V → Map W → List String
  in_both m other = sort_strings (keep_if (λ k. has k other) (keys m))

module _ {ℓ} {V : Type ℓ} where
  unfoldable pub sorted_names : Map V → List String
  sorted_names m = sort_strings (keys m)

  -- A loop over names of `m` that asks at each round whether to go on.
  unfoldable pub for_polled : List String → Map V → (String → V → Statement) → Statement
  for_polled names m body =
      for_each names (λ name. check_cancelled >> with_entry (get name m) (body name))

  -- The same without the question.
  unfoldable pub for_names : List String → Map V → (String → V → Statement) → Statement
  for_names names m body = for_each names (λ name. with_entry (get name m) (body name))

-- util.SameStringSlice
unfoldable pub same_string_slice : List String → List String → Bool
same_string_slice [] [] = true
same_string_slice [] (b ∷ bs) = false
same_string_slice (a ∷ as') [] = false
same_string_slice (a ∷ as') (b ∷ bs) = str_eq a b && same_string_slice as' bs

pub same_string_slice_refl : (l : List String) → same_string_slice l l ≡ true
unfolding same_string_slice
same_string_slice_refl [] = refl
same_string_slice_refl (s ∷ l) = rw (str_eq_refl s) (same_string_slice_refl l)
