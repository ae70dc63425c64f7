-- ===== src/Correlation/Exact/Sound.antt =====
-- What `exact_links` and `observed_links` say of the observations that are left of the duplicates.
use mathlib.Core.Path.{◌≡◌, refl}
use reconcileflow.Base.{
  ℕ, sym, ap, ◌∙◌, Bool, Option, List, [], ◌∷◌, ◌++◌, keep, length, arith, In, here, there, All,
}
use reconcileflow.Base.Order.{Text, nat_ord, list_ord, ◌<=◌}
use reconcileflow.Base.Sorting.{insert_by, sort_by, In-sort_by, All-sort_by, length-sort_by}
use reconcileflow.Base.Dict.{find_or}
use reconcileflow.Base.Raised.{ok, ok-injective}
use reconcileflow.Correlation.Topology.{Topology}
use reconcileflow.Correlation.Exact.{Identity, identity_ord, Observation, Dedup, deduplicated}
use reconcileflow.Correlation.Exact.Join.{
  Link, ExactResult, Found, found_nothing, group_sides, JoinOn, by_value, join_one, join_all, join,
}
use reconcileflow.Correlation.Exact.Links.{
  value_of, composite_of, own_name, observed_key, authored_joins, observed_joins, exact_links,
  observed_links,
}
use reconcileflow.Correlation.Exact.Carriers.{
  is_on, carriers, find_or-group_sides, find_or-by_value,
}
use reconcileflow.Correlation.Exact.Facts.{
  IsLater, IsLater-refl, IsLater-trans, IsTold, IsTold-later, join_values-links,
  join_values-IsLater, values-IsTold,
}

sort_by-eq-singleton {ℓ} :
    {A : Type ℓ} (le : A → A → Bool) (xs : List A) {u : A} → sort_by le xs ≡ u ∷ [] → xs ≡ u ∷ []
unfolding sort_by insert_by
sort_by-eq-singleton le [] h = cc
sort_by-eq-singleton le (x ∷ []) h = h
sort_by-eq-singleton le (x ∷ y ∷ zs) h =
    let n = ap length h in let k = length-sort_by le (x ∷ y ∷ zs) in absurd (omega arith)

-- The three lists of a result.
abbrev pub told_by : ExactResult → Found
told_by r = record { links = r.links; collisions = r.collisions; unlinked = r.unlinked }

module _ {ℓ} {K : Type ℓ} (value_of : Observation → K → Option Text) (name_of : K → Text) where
  -- The identities, in order, of the observations of a side that carry a value.
  abbrev pub side_carriers : K → Text → List Text → List Observation → List Identity
  side_carriers key value side observations =
      sort_by ◌<=◌ (carriers value_of key value (keep (is_on side) observations))

  -- A link is a fact: of one of the joins, and of a value that exactly one observation carries on
  -- each side.
  pub record IsFact (joins : List (JoinOn K)) (observations : List Observation) (l : Link)
      : Type ℓ where
    pub on : JoinOn K
    pub authored : In on joins
    pub place : l.place ≡ on.place
    pub key : l.key ≡ name_of on.key
    pub upstream :
        carriers value_of on.key l.value (keep (is_on on.up_side) observations) ≡ l.upstream ∷ []
    pub downstream :
        carriers value_of on.key l.value (keep (is_on on.down_side) observations)
        ≡ l.downstream ∷ []

  pub find_or-side :
      (key : K) (value : Text) (side : List Text) (observations : List Observation)
      → find_or [] value (by_value value_of key (find_or [] side (group_sides observations [])))
        ≡ side_carriers key value side observations
  unfolding find_or
  find_or-side key value side observations =
      rw (find_or-group_sides side observations []) (find_or-by_value value_of key value _)

  module _ (observations : List Observation) where
    join_all-links {κ} :
        (P : Link → Type κ) (joins : List (JoinOn K)) (found : Found)
        → ((l : Link) → IsFact joins observations l → P l)
        → All P found.links
        → All P (join_all value_of name_of (group_sides observations []) joins found).links
    unfolding join_all join_one
    join_all-links P [] found f h = h
    join_all-links P (j ∷ joins) found f h =
        join_all-links P joins _
          (λ l p. f l (record {
            on = p.on;
            authored = there p.authored;
            place = p.place;
            key = p.key;
            upstream = p.upstream;
            downstream = p.downstream;
          }))
          (join_values-links P j.place (name_of j.key) _ _ _ found
            (λ value u d eu ed. f _ (record {
              on = j;
              authored = here;
              place = refl;
              key = refl;
              upstream =
                  sort_by-eq-singleton ◌<=◌ _
                    (sym (find_or-side j.key value j.up_side observations) ∙ eu);
              downstream =
                  sort_by-eq-singleton ◌<=◌ _
                    (sym (find_or-side j.key value j.down_side observations) ∙ ed);
            }))
            h)

    join_all-IsLater :
        (joins : List (JoinOn K)) (found : Found)
        → IsLater found (join_all value_of name_of (group_sides observations []) joins found)
    unfolding join_all join_one
    join_all-IsLater [] found = IsLater-refl found
    join_all-IsLater (j ∷ joins) found =
        IsLater-trans (join_values-IsLater j.place (name_of j.key) _ _ _ found)
          (join_all-IsLater joins _)

    join_all-IsTold :
        (joins : List (JoinOn K)) (found : Found) {j : JoinOn K} (value : Text) {i : Identity}
        → In j joins
        → In i (
            side_carriers j.key value j.up_side observations
            ++ side_carriers j.key value j.down_side observations)
        → IsTold j.place
            (name_of j.key)
            value
            (side_carriers j.key value j.up_side observations)
            (side_carriers j.key value j.down_side observations)
            (join_all value_of name_of (group_sides observations []) joins found)
    unfolding join_all join_one
    join_all-IsTold [] found value p m = elim p [ ]
    join_all-IsTold (j ∷ joins) found value {i} here m = IsTold-later (join_all-IsLater joins _) (
        rw
          (
            ← find_or-side j.key value j.up_side observations,
            ← find_or-side j.key value j.down_side observations,
          )
          (values-IsTold j.place (name_of j.key) _ _ found value {i = i} (
            rw
              (
                find_or-side j.key value j.up_side observations,
                find_or-side j.key value j.down_side observations,
              )
              m)))
    join_all-IsTold (j ∷ joins) found value (there p) m = join_all-IsTold joins _ value p m

    join-IsFact :
        (joins : List (JoinOn K)) (dropped : ℕ)
        → All
            (IsFact joins observations)
            (join value_of name_of joins (group_sides observations []) dropped).links
    unfolding join
    join-IsFact joins dropped =
        All-sort_by _ _ _ (join_all-links _ joins found_nothing (λ l p. p) tt)

    join-IsTold :
        (joins : List (JoinOn K)) (dropped : ℕ) {j : JoinOn K} (value : Text) {i : Identity}
        → In j joins
        → In i (
            side_carriers j.key value j.up_side observations
            ++ side_carriers j.key value j.down_side observations)
        → IsTold j.place
            (name_of j.key)
            value
            (side_carriers j.key value j.up_side observations)
            (side_carriers j.key value j.down_side observations)
            (told_by (join value_of name_of joins (group_sides observations []) dropped))
    unfolding join
    join-IsTold joins dropped value p m =
        IsTold-later
          (record {
            links = λ x. In-sort_by _ x;
            collisions = λ x. In-sort_by _ x;
            unlinked = λ x. In-sort_by _ x;
          })
          (join_all-IsTold joins found_nothing value p m)

exact_links-eq :
    (topology : Topology) (observations : List Observation) {s : Dedup} {r : ExactResult}
    → deduplicated topology observations ≡ ok s
    → exact_links topology observations ≡ ok r
    → join value_of own_name (authored_joins topology) (group_sides s.distinct []) s.dropped ≡ r
unfolding exact_links
exact_links-eq topology observations h e = let e' = (rw h at e) in ok-injective e'

observed_links-eq :
    (topology : Topology) (observations : List Observation) {s : Dedup} {r : ExactResult}
    → deduplicated topology observations ≡ ok s
    → observed_links topology observations ≡ ok r
    → join composite_of observed_key
        (observed_joins topology.hops)
        (group_sides s.distinct [])
        s.dropped
      ≡ r
unfolding observed_links
observed_links-eq topology observations h e = let e' = (rw h at e) in ok-injective e'

-- Every link that `exact_links` returns is a fact of what is left of the duplicates: its value is
-- carried by exactly one observation on each side of a hop or a crossing with that key.
pub exact_links-IsFact :
    (topology : Topology) (observations : List Observation) {s : Dedup} {r : ExactResult}
    → deduplicated topology observations ≡ ok s
    → exact_links topology observations ≡ ok r
    → All (IsFact value_of own_name (authored_joins topology) s.distinct) r.links
exact_links-IsFact topology observations {s} h e =
    rw (← exact_links-eq topology observations h e) (join-IsFact value_of own_name s.distinct _ _)

-- Every link that `observed_links` returns is a fact of what is left of the duplicates: its joined
-- value is carried by exactly one observation on each side of a hop observed by those identifiers.
pub observed_links-IsFact :
    (topology : Topology) (observations : List Observation) {s : Dedup} {r : ExactResult}
    → deduplicated topology observations ≡ ok s
    → observed_links topology observations ≡ ok r
    → All (IsFact composite_of observed_key (observed_joins topology.hops) s.distinct) r.links
observed_links-IsFact topology observations {s} h e =
    rw (← observed_links-eq topology observations h e)
      (join-IsFact composite_of observed_key s.distinct _ _)

-- `exact_links` loses no observation: every value that is carried on a side of an authored hop or
-- crossing ends as one link, as one unlinked observation, or as a collision of all its carriers.
pub exact_links-IsTold :
    (topology : Topology) (observations : List Observation) {s : Dedup} {r : ExactResult}
    → deduplicated topology observations ≡ ok s
    → exact_links topology observations ≡ ok r
    → {j : JoinOn Text} (value : Text) {i : Identity} → In j (authored_joins topology)
    → In i (
        side_carriers value_of own_name j.key value j.up_side s.distinct
        ++ side_carriers value_of own_name j.key value j.down_side s.distinct)
    → IsTold j.place j.key value
        (side_carriers value_of own_name j.key value j.up_side s.distinct)
        (side_carriers value_of own_name j.key value j.down_side s.distinct)
        (told_by r)
exact_links-IsTold topology observations {s} h e value p m =
    rw (← exact_links-eq topology observations h e)
      (join-IsTold value_of own_name s.distinct _ _ value p m)
