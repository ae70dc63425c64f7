-- ===== src/Correlation/Exact/Values.antt =====
-- The values a join runs over are those that are carried on a side, each once and in order.
use reconcileflow.Base.{
  ◌≡◌, sym, ◌∙◌, inl, inr, Option, none, some, List, [], ◌∷◌, ◌++◌, In, here, there, In-cons,
  In-left, In-right, All, Bool-cases,
}
use reconcileflow.Base.Order.{Text, nat_ord, list_ord, ◌<=◌, ◌==◌, ==_refl, contains}
use reconcileflow.Base.Membership.{contains_of_In}
use reconcileflow.Base.Sorting.{In-sort_by}
use reconcileflow.Base.Sameness.{IsSingle, sort_by-eq_of_same}
use reconcileflow.Base.Dict.{keys, find_or, alter}
use reconcileflow.Correlation.Topology.Toml.{distinct_names}
use reconcileflow.Correlation.Exact.{Identity, identity_ord, Observation, identity}
use reconcileflow.Correlation.Exact.Join.{
  Carriers, file, add_carriers, sort_carriers, by_value, values_of,
}
use reconcileflow.Correlation.Exact.Facts.{In-keys_of_find_or, In-distinct_names, In-append}

-- Every value of the dictionary has a carrier.
abbrev pub AreCarried : Carriers → Type 0
AreCarried d = All (λ (entry : Text × List Identity). (i : Identity) × In i entry.1) d

AreCarried-file :
    (i : Identity) (value : Option Text) (d : Carriers) → AreCarried d → AreCarried (file i value d)
unfolding file alter
AreCarried-file i none d h = h
AreCarried-file i (some v) [] h = ((i, here), tt)
AreCarried-file i (some v) ((w, ids) ∷ d) h = elim (Bool-cases (w == v)) [
  | inl e ↦ rw e ((i, In-right ids here), h.1)
  | inr e ↦ rw e (h.0, AreCarried-file i (some v) d h.1)
]

AreCarried-sort_carriers : (d : Carriers) → AreCarried d → AreCarried (sort_carriers d)
unfolding sort_carriers
AreCarried-sort_carriers [] h = tt
AreCarried-sort_carriers ((v, ids) ∷ d) h =
    ((h.0.0, In-sort_by ◌<=◌ h.0.1), AreCarried-sort_carriers d h.1)

module _ {ℓ} {K : Type ℓ} (read : Observation → K → Option Text) where
  AreCarried-add_carriers :
      (key : K) (os : List Observation) (d : Carriers)
      → AreCarried d
      → AreCarried (add_carriers read key os d)
  unfolding add_carriers
  AreCarried-add_carriers key [] d h = h
  AreCarried-add_carriers key (o ∷ os) d h =
      AreCarried-add_carriers key os _ (AreCarried-file (identity o) (read o key) d h)

  pub by_value-AreCarried : (key : K) (os : List Observation) → AreCarried (by_value read key os)
  unfolding by_value
  by_value-AreCarried key os = AreCarried-sort_carriers _ (AreCarried-add_carriers key os [] tt)

In-find_or :
    (value : Text) (d : Carriers)
    → AreCarried d
    → In value (keys d)
    → (i : Identity) × In i (find_or [] value d)
unfolding find_or
In-find_or value [] h m = elim m [ ]
In-find_or value ((v, ids) ∷ d) h m = elim (Bool-cases (v == value)) [
  | inl e ↦ rw e h.0
  | inr e ↦ elim (In-cons m) [
    | inl q ↦ let e' = (rw (q, ==_refl v) at e) in absurd (cc e')
    | inr n ↦ rw e (In-find_or value d h.1 n)
  ]
]

In-of_distinct_names : {x : Text} (xs : List Text) → In x (distinct_names xs) → In x xs
unfolding distinct_names
In-of_distinct_names [] m = elim m [ ]
In-of_distinct_names (y ∷ xs) m = elim (Bool-cases (contains y xs)) [
  | inl e ↦ there (In-of_distinct_names xs (rw e at m))
  | inr e ↦ elim (In-cons (rw e at m)) [
    | inl q ↦ rw q here
    | inr n ↦ there (In-of_distinct_names xs n)
  ]
]

distinct_names-IsSingle : (xs : List Text) → IsSingle (distinct_names xs)
unfolding distinct_names
distinct_names-IsSingle [] = tt
distinct_names-IsSingle (y ∷ xs) = elim (Bool-cases (contains y xs)) [
  | inl e ↦ rw e (distinct_names-IsSingle xs)
  | inr e ↦ rw e (
    λ m. let h = sym e ∙ contains_of_In (In-of_distinct_names xs m) in absurd (cc h),
    distinct_names-IsSingle xs,
  )
]

-- A key of a dictionary is a key of one in which every value finds the same.
In-keys_same :
    (d d' : Carriers) (value : Text)
    → AreCarried d
    → ((v : Text) → find_or [] v d ≡ find_or [] v d')
    → In value (keys d)
    → In value (keys d')
In-keys_same d d' value h same m =
    let (i, n) = In-find_or value d h m in
    let n' : In i (find_or [] value d') = rw (same value) at n in In-keys_of_find_or value d' n'

module _ (up down up' down' : Carriers) (up_same : (v : Text) → find_or [] v up ≡ find_or [] v up')
    (down_same : (v : Text) → find_or [] v down ≡ find_or [] v down') where
  In-values_same :
      (value : Text)
      → AreCarried up
      → AreCarried down
      → In value (distinct_names (keys up ++ keys down))
      → In value (distinct_names (keys up' ++ keys down'))
  In-values_same value h k m =
      In-distinct_names _ (elim (In-append (keys up) (In-of_distinct_names _ m)) [
        | inl l ↦ In-left _ (In-keys_same up up' value h up_same l)
        | inr r ↦ In-right (keys up') (In-keys_same down down' value k down_same r)
      ])

Texts-set : IsSet (List Text)
Texts-set = hlevel

pub values_of-same :
    (up down up' down' : Carriers)
    → AreCarried up
    → AreCarried down
    → AreCarried up'
    → AreCarried down'
    → ((v : Text) → find_or [] v up ≡ find_or [] v up')
    → ((v : Text) → find_or [] v down ≡ find_or [] v down')
    → values_of up down ≡ values_of up' down'
unfolding values_of
values_of-same up down up' down' h k h' k' up_same down_same =
    sort_by-eq_of_same Texts-set _ _ (distinct_names-IsSingle _) (distinct_names-IsSingle _)
      (λ v m. In-values_same up down up' down' up_same down_same v h k m)
      (λ v m.
        In-values_same up' down' up down (λ w. sym (up_same w)) (λ w. sym (down_same w)) v h' k' m)
