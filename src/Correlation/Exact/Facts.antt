-- ===== src/Correlation/Exact/Facts.antt =====
-- The three lists of the join say of every value what became of it.
use reconcileflow.Base.{
  ◌≡◌, refl, ◌⊎◌, inl, inr, true, false, ◌||◌, List, [], ◌∷◌, ◌++◌, ltb, length, arith, In, here,
  there, In-left, In-right, In-cons, All, All-append, Bool-cases,
}
use reconcileflow.Base.Order.{Text, nat_ord, list_ord, ◌<=◌, ◌==◌, eq_of_==, contains}
use reconcileflow.Base.Membership.{In-of_contains}
use reconcileflow.Base.Sorting.{In-sort_by}
use reconcileflow.Base.Dict.{keys, find_or}
use reconcileflow.Correlation.Topology.Toml.{distinct_names}
use reconcileflow.Correlation.Exact.{Identity, identity_ord}
use reconcileflow.Correlation.Exact.Join.{
  Link, Collision, Found, Judgement, linked, alone, collided, nobody, pair_or_alone, judge, tell,
  Carriers, join_value, join_values, values_of,
}

pair_or_alone-linked :
    (ups downs : List Identity) {u d : Identity}
    → (ltb 1 (length ups) || ltb 1 (length downs)) ≡ false
    → pair_or_alone ups downs ≡ linked u d
    → (ups ≡ u ∷ []) × (downs ≡ d ∷ [])
unfolding pair_or_alone
pair_or_alone-linked [] [] few h = cc
pair_or_alone-linked [] (y ∷ downs) few h = cc
pair_or_alone-linked (x ∷ ups) [] few h = cc
pair_or_alone-linked (x ∷ []) (y ∷ []) few h = (cc, cc)
pair_or_alone-linked (x ∷ []) (y ∷ z ∷ downs) few h = absurd (ground arith)
pair_or_alone-linked (x ∷ w ∷ ups) (y ∷ downs) few h = absurd (ground arith)

-- One carrier on each side makes a link, and nothing else does.
judge-linked :
    (ups downs : List Identity) {u d : Identity}
    → judge ups downs ≡ linked u d
    → (ups ≡ u ∷ []) × (downs ≡ d ∷ [])
unfolding judge
judge-linked ups downs h = elim (Bool-cases (ltb 1 (length ups) || ltb 1 (length downs))) [
  | inl e ↦ let h' = (rw e at h) in cc
  | inr e ↦ pair_or_alone-linked ups downs e (rw e at h)
]

module _ {κ} (P : Link → Type κ) (place name : Text) where
  tell-links :
      (value : Text) (ups downs : List Identity) (j : Judgement) (found : Found)
      → ((u d : Identity)
          → j ≡ linked u d
          → P (record { place = place; key = name; value = value; upstream = u; downstream = d }))
      → All P found.links
      → All P (tell place name value ups downs j found).links
  unfolding tell
  tell-links value ups downs (linked u d) found f h = All-append P found.links _ h (f u d refl, tt)
  tell-links value ups downs (alone i) found f h = h
  tell-links value ups downs collided found f h = h
  tell-links value ups downs nobody found f h = h

  -- The links that a join adds are of values with one carrier on each side.
  pub join_values-links :
      (up down : Carriers) (values : List Text) (found : Found)
      → ((value : Text) (u d : Identity)
          → find_or [] value up ≡ u ∷ []
          → find_or [] value down ≡ d ∷ []
          → P (record { place = place; key = name; value = value; upstream = u; downstream = d }))
      → All P found.links
      → All P (join_values place name up down values found).links
  unfolding join_values join_value
  join_values-links up down [] found f h = h
  join_values-links up down (value ∷ values) found f h =
      join_values-links up down values _ f (
        tell-links value _ _ _ found (λ u d e. let (a, b) = judge-linked _ _ e in f value u d a b)
          h)

-- The lists only grow.
pub record IsLater (before after : Found) : Type 0 where
  pub links : {l : Link} → In l before.links → In l after.links
  pub collisions : {c : Collision} → In c before.collisions → In c after.collisions
  pub unlinked : {u : Text × Identity} → In u before.unlinked → In u after.unlinked

pub IsLater-refl : (found : Found) → IsLater found found
IsLater-refl found = record { links = λ m. m; collisions = λ m. m; unlinked = λ m. m }

pub IsLater-trans : {a b c : Found} → IsLater a b → IsLater b c → IsLater a c
IsLater-trans p q = record {
  links = λ m. q.links (p.links m);
  collisions = λ m. q.collisions (p.collisions m);
  unlinked = λ m. q.unlinked (p.unlinked m);
}

-- What became of a value: one carrier on each side is a link, one carrier in all is unlinked, and
-- more than one on a side is a collision that names every carrier.
pub data IsTold (place name value : Text) (ups downs : List Identity) (found : Found) : Type 0 where
  as_link :
      (u d : Identity)
      → ups ≡ u ∷ []
      → downs ≡ d ∷ []
      → In
          (record { place = place; key = name; value = value; upstream = u; downstream = d })
          found.links
      → IsTold place name value ups downs found
  as_unlinked :
      (i : Identity)
      → ups ++ downs ≡ i ∷ []
      → In (place, i) found.unlinked
      → IsTold place name value ups downs found
  as_collision :
      (ltb 1 (length ups) || ltb 1 (length downs)) ≡ true
      → In
          (record { place = place; key = name; value = value; upstream = ups; downstream = downs })
          found.collisions
      → IsTold place name value ups downs found

pub IsTold-later :
    {place name value : Text} {ups downs : List Identity} {a b : Found}
    → IsLater a b
    → IsTold place name value ups downs a
    → IsTold place name value ups downs b
IsTold-later p (as_link u d e f m) = as_link u d e f (p.links m)
IsTold-later p (as_unlinked i e m) = as_unlinked i e (p.unlinked m)
IsTold-later p (as_collision e m) = as_collision e (p.collisions m)

tell-IsLater :
    (place name value : Text) (ups downs : List Identity) (j : Judgement) (found : Found)
    → IsLater found (tell place name value ups downs j found)
unfolding tell
tell-IsLater place name value ups downs (linked u d) found = record {
  links = λ m. In-left _ m;
  collisions = λ m. m;
  unlinked = λ m. m;
}
tell-IsLater place name value ups downs (alone i) found = record {
  links = λ m. m;
  collisions = λ m. m;
  unlinked = λ m. In-left _ m;
}
tell-IsLater place name value ups downs collided found = record {
  links = λ m. m;
  collisions = λ m. In-left _ m;
  unlinked = λ m. m;
}
tell-IsLater place name value ups downs nobody found = IsLater-refl found

pair_or_alone-IsTold :
    (place name value : Text) (ups downs : List Identity) (found : Found) {i : Identity}
    → (ltb 1 (length ups) || ltb 1 (length downs)) ≡ false
    → In i (ups ++ downs)
    → IsTold place name value ups downs
        (tell place name value ups downs (pair_or_alone ups downs) found)
unfolding tell pair_or_alone
pair_or_alone-IsTold place name value [] [] found few m = elim m [ ]
pair_or_alone-IsTold place name value [] (y ∷ []) found few m = as_unlinked y refl (In-right _ here)
pair_or_alone-IsTold place name value [] (y ∷ z ∷ downs) found few m = absurd (ground arith)
pair_or_alone-IsTold place name value (x ∷ []) [] found few m = as_unlinked x refl (In-right _ here)
pair_or_alone-IsTold place name value (x ∷ []) (y ∷ []) found few m =
    as_link x y refl refl (In-right _ here)
pair_or_alone-IsTold place name value (x ∷ []) (y ∷ z ∷ downs) found few m = absurd (ground arith)
pair_or_alone-IsTold place name value (x ∷ y ∷ ups) downs found few m = absurd (ground arith)

tell-IsTold :
    (place name value : Text) (ups downs : List Identity) (found : Found) {i : Identity}
    → In i (ups ++ downs)
    → IsTold place name value ups downs (tell place name value ups downs (judge ups downs) found)
unfolding tell judge
tell-IsTold place name value ups downs found m =
    elim (Bool-cases (ltb 1 (length ups) || ltb 1 (length downs))) [
      | inl e ↦ rw e (as_collision e (In-right _ here))
      | inr e ↦ rw e (pair_or_alone-IsTold place name value ups downs found e m)
    ]

module _ (place name : Text) (up down : Carriers) where
  pub join_values-IsLater :
      (values : List Text) (found : Found)
      → IsLater found (join_values place name up down values found)
  unfolding join_values join_value
  join_values-IsLater [] found = IsLater-refl found
  join_values-IsLater (value ∷ values) found =
      IsLater-trans (tell-IsLater place name value _ _ _ found) (join_values-IsLater values _)

  join_values-IsTold :
      (values : List Text) (found : Found) {value : Text} {i : Identity}
      → In value values
      → In i (find_or [] value up ++ find_or [] value down)
      → IsTold place name value
          (find_or [] value up)
          (find_or [] value down)
          (join_values place name up down values found)
  unfolding join_values join_value
  join_values-IsTold [] found v m = elim v [ ]
  join_values-IsTold (value ∷ values) found here m =
      IsTold-later (join_values-IsLater values _)
        (tell-IsTold place name value (find_or [] value up) (find_or [] value down) found m)
  join_values-IsTold (w ∷ values) found (there v) m = join_values-IsTold values _ v m

pub In-keys_of_find_or :
    (value : Text) (d : Carriers) {i : Identity} → In i (find_or [] value d) → In value (keys d)
unfolding find_or
In-keys_of_find_or value [] m = elim m [ ]
In-keys_of_find_or value ((v, ids) ∷ d) m = elim (Bool-cases (v == value)) [
  | inl e ↦ rw (eq_of_== v value e) here
  | inr e ↦ there (In-keys_of_find_or value d (rw e at m))
]

pub In-distinct_names : {x : Text} (xs : List Text) → In x xs → In x (distinct_names xs)
unfolding distinct_names
In-distinct_names [] m = elim m [ ]
In-distinct_names {x} (y ∷ xs) m = elim (Bool-cases (contains y xs)) [
  | inl e ↦ rw e (
      In-distinct_names xs
        (elim (In-cons m) [ inl q ↦ rw q (In-of_contains y xs e) | inr m' ↦ m' ]))
  | inr e ↦ rw e (elim (In-cons m) [ inl q ↦ rw q here | inr m' ↦ there (In-distinct_names xs m') ])
]

pub In-append {ℓ} :
    {A : Type ℓ} {x : A} (xs : List A) {ys : List A} → In x (xs ++ ys) → In x xs ⊎ In x ys
In-append [] m = inr m
In-append (y ∷ xs) here = inl here
In-append (y ∷ xs) (there m) = elim (In-append xs m) [ inl l ↦ inl (there l) | inr r ↦ inr r ]

In-values_of :
    (value : Text) (up down : Carriers) {i : Identity}
    → In i (find_or [] value up ++ find_or [] value down)
    → In value (values_of up down)
unfolding values_of
In-values_of value up down m = In-sort_by ◌<=◌ (
    In-distinct_names _ (elim (In-append _ m) [
      | inl l ↦ In-left _ (In-keys_of_find_or value up l)
      | inr r ↦ In-right (keys up) (In-keys_of_find_or value down r)
    ]))

-- Every value that is carried on a side is told.
pub values-IsTold :
    (place name : Text) (up down : Carriers) (found : Found) (value : Text) {i : Identity}
    → In i (find_or [] value up ++ find_or [] value down)
    → IsTold place name value
        (find_or [] value up)
        (find_or [] value down)
        (join_values place name up down (values_of up down) found)
values-IsTold place name up down found value m =
    join_values-IsTold place name up down _ found (In-values_of value up down m) m
