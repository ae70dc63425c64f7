-- ===== src/Correlation/Exact/Carriers.antt =====
-- What the dictionaries of the join hold: who carries a value, and who is on a side.
use mathlib.Core.List.{append_assoc, append-nil}
use reconcileflow.Base.{
  ◌≡◌, refl, ap, ◌∙◌, Bool, false, Option, none, some, List, [], ◌∷◌, ◌++◌, map, keep, inl, inr,
  Bool-cases, if◌then◌else◌,
}
use reconcileflow.Base.Order.{Text, nat_ord, list_ord, ◌<=◌, ◌==◌}
use reconcileflow.Base.Sorting.{sort_by}
use reconcileflow.Base.Dict.{find_or, find_or-alter}
use reconcileflow.Correlation.Exact.{Identity, identity_ord, Observation, identity}
use reconcileflow.Correlation.Exact.Join.{
  BySide, group_sides, Carriers, sort_carriers, file, add_carriers, by_value,
}

-- The observation is on the side of the point.
abbrev pub is_on : List Text → Observation → Bool
is_on side obs = (obs.point ∷ obs.side ∷ []) == side

-- The value that is read is the given one.
abbrev pub is_the_value : Text → Option Text → Bool
is_the_value value none = false
is_the_value value (some v) = v == value

pub find_or-group_sides :
    (side : List Text) (observations : List Observation) (d : BySide)
    → find_or [] side (group_sides observations d)
      ≡ find_or [] side d ++ keep (is_on side) observations
unfolding group_sides
find_or-group_sides side [] d = simp append-nil
find_or-group_sides side (obs ∷ rest) d =
    find_or-group_sides side rest _ ∙ elim (Bool-cases ((obs.point ∷ obs.side ∷ []) == side)) [
      | inl e ↦ simp (find_or-alter, e, append_assoc)
      | inr e ↦ simp (find_or-alter, e)
    ]

pub find_or-sort_carriers :
    (value : Text) (d : Carriers)
    → find_or [] value (sort_carriers d) ≡ sort_by ◌<=◌ (find_or [] value d)
unfolding find_or sort_carriers sort_by
find_or-sort_carriers value [] = refl
find_or-sort_carriers value ((v, ids) ∷ d) = elim (Bool-cases (v == value)) [
  | inl e ↦ rw e refl
  | inr e ↦ rw e (find_or-sort_carriers value d)
]

find_or-file :
    (i : Identity) (read : Option Text) (value : Text) (d : Carriers)
    → find_or [] value (file i read d)
      ≡ find_or [] value d ++ (if is_the_value value read then i ∷ [] else [])
unfolding file
find_or-file i none value d = simp append-nil
find_or-file i (some v) value d = elim (Bool-cases (v == value)) [
  | inl e ↦ rw e (simp (find_or-alter, e))
  | inr e ↦ rw e (simp (find_or-alter, e, append-nil))
]

module _ {ℓ} {K : Type ℓ} (value_of : Observation → K → Option Text) where
  -- The observation carries the value under the key.
  abbrev pub is_carrier : K → Text → Observation → Bool
  is_carrier key value obs = is_the_value value (value_of obs key)

  -- The identities of the observations that carry the value.
  abbrev pub carriers : K → Text → List Observation → List Identity
  carriers key value observations = map identity (keep (is_carrier key value) observations)

  carriers-cons :
      (key : K) (value : Text) (obs : Observation) (rest : List Observation)
      → (if is_carrier key value obs then identity obs ∷ [] else []) ++ carriers key value rest
        ≡ carriers key value (obs ∷ rest)
  carriers-cons key value obs rest = elim (Bool-cases (is_carrier key value obs)) [
    | inl e ↦ rw e refl
    | inr e ↦ rw e refl
  ]

  find_or-add_carriers :
      (key : K) (value : Text) (observations : List Observation) (d : Carriers)
      → find_or [] value (add_carriers value_of key observations d)
        ≡ find_or [] value d ++ carriers key value observations
  unfolding add_carriers
  find_or-add_carriers key value [] d = simp append-nil
  find_or-add_carriers key value (obs ∷ rest) d =
      find_or-add_carriers key value rest (file (identity obs) (value_of obs key) d)
      ∙ rw (find_or-file (identity obs) (value_of obs key) value d, append_assoc)
          (ap (λ ids. find_or [] value d ++ ids) (carriers-cons key value obs rest))

  -- `_by_value` files under a value the identities of its carriers, sorted.
  pub find_or-by_value :
      (key : K) (value : Text) (observations : List Observation)
      → find_or [] value (by_value value_of key observations)
        ≡ sort_by ◌<=◌ (carriers key value observations)
  unfolding by_value find_or
  find_or-by_value key value observations =
      find_or-sort_carriers value (add_carriers value_of key observations [])
      ∙ ap (sort_by ◌<=◌) (find_or-add_carriers key value observations [])
