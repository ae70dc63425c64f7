-- ===== src/Correlation/Exact/Join.antt =====
-- The join of two sides on a value, of src/reconcileflow/correlation/exact.py. The key is an
-- identifier or several; how its value is read and how it is named are parameters.
use reconcileflow.Base.{
  ℕ, ◌||◌, Option, none, some, List, [], ◌∷◌, ◌++◌, ltb, length, if◌then◌else◌,
}
use reconcileflow.Base.Order.{Text, nat_ord, list_ord, ◌<=◌}
use reconcileflow.Base.Sorting.{sort_by}
use reconcileflow.Base.Dict.{Dict, keys, find_or, alter}
use reconcileflow.Correlation.Exact.{Identity, identity_ord, Observation, identity}
use reconcileflow.Correlation.Topology.Toml.{distinct_names}

pub record Link : Type 0 where
  pub place : Text
  pub key : Text
  pub value : Text
  pub upstream : Identity
  pub downstream : Identity

pub record Collision : Type 0 where
  pub place : Text
  pub key : Text
  pub value : Text
  pub upstream : List Identity
  pub downstream : List Identity

pub record ExactResult : Type 0 where
  pub links : List Link
  pub collisions : List Collision
  pub unlinked : List (Text × Identity)
  pub duplicates_dropped : ℕ

-- The lists that `_join` appends to.
pub record Found : Type 0 where
  pub links : List Link
  pub collisions : List Collision
  pub unlinked : List (Text × Identity)

abbrev pub found_nothing : Found
found_nothing = record { links = []; collisions = []; unlinked = [] }

-- `by_side[obs.point, obs.side].append(obs)`
abbrev pub BySide : Type 0
BySide = Dict (List Text) (List Observation)

unfoldable pub group_sides : List Observation → BySide → BySide
group_sides [] d = d
group_sides (obs ∷ rest) d =
    group_sides rest (alter [] (obs.point ∷ obs.side ∷ []) (λ os. os ++ obs ∷ []) d)

pub record JoinOn {ℓ} (K : Type ℓ) : Type ℓ where
  pub place : Text
  pub key : K
  pub up_side : List Text
  pub down_side : List Text

-- What the observations that carry one value amount to.
pub data Judgement : Type 0 where
  linked : Identity → Identity → Judgement
  alone : Identity → Judgement
  collided nobody : Judgement

-- `(ups or downs)[0]` of no observation, which raises, does not arise: a value of a join is carried.
unfoldable pub pair_or_alone : List Identity → List Identity → Judgement
pair_or_alone (u ∷ us) (d ∷ ds) = linked u d
pair_or_alone (u ∷ us) [] = alone u
pair_or_alone [] (d ∷ ds) = alone d
pair_or_alone [] [] = nobody

unfoldable pub judge : List Identity → List Identity → Judgement
judge ups downs =
    if ltb 1 (length ups) || ltb 1 (length downs) then collided else pair_or_alone ups downs

-- The appends of one value.
unfoldable pub tell : Text → Text → Text → List Identity → List Identity → Judgement → Found → Found
tell place name value ups downs (linked u d) found = record found {
  links =
      found.links
      ++ record { place = place; key = name; value = value; upstream = u; downstream = d } ∷ [];
}
tell place name value ups downs (alone i) found = record found {
  unlinked = found.unlinked ++ (place, i) ∷ [];
}
tell place name value ups downs collided found = record found {
  collisions =
      found.collisions
      ++ record { place = place; key = name; value = value; upstream = ups; downstream = downs }
        ∷ [];
}
tell place name value ups downs nobody found = found

abbrev pub Carriers : Type 0
Carriers = Dict Text (List Identity)

unfoldable pub join_value : Text → Text → Carriers → Carriers → Text → Found → Found
join_value place name up down value found =
    let ups = find_or [] value up in
    let downs = find_or [] value down in tell place name value ups downs (judge ups downs) found

-- The loop over the values.
unfoldable pub join_values : Text → Text → Carriers → Carriers → List Text → Found → Found
join_values place name up down [] found = found
join_values place name up down (value ∷ values) found =
    join_values place name up down values (join_value place name up down value found)

-- `{value: sorted(ids) for value, ids in out.items()}`
unfoldable pub sort_carriers : Carriers → Carriers
sort_carriers [] = []
sort_carriers ((value, ids) ∷ d) = (value, sort_by ◌<=◌ ids) ∷ sort_carriers d

-- `sorted(up.keys() | down.keys())`
unfoldable pub values_of : Carriers → Carriers → List Text
values_of up down = sort_by ◌<=◌ (distinct_names (keys up ++ keys down))

abbrev pub link_code : Link → List Text
link_code l = l.place ∷ l.key ∷ l.value ∷ []

abbrev pub collision_code : Collision → List Text
collision_code c = c.place ∷ c.key ∷ c.value ∷ []

abbrev pub unlinked_code : Text × Identity → List Text
unlinked_code (place, (source, seq)) = place ∷ source ∷ (seq ∷ []) ∷ []

-- The value that an observation carries, if any, gains its identity.
unfoldable pub file : Identity → Option Text → Carriers → Carriers
file i none d = d
file i (some value) d = alter [] value (λ ids. ids ++ i ∷ []) d

module _ {ℓ} {K : Type ℓ} (value_of : Observation → K → Option Text) where
  unfoldable pub add_carriers : K → List Observation → Carriers → Carriers
  add_carriers key [] d = d
  add_carriers key (obs ∷ rest) d = add_carriers key rest (file (identity obs) (value_of obs key) d)

  -- `_by_value`
  unfoldable pub by_value : K → List Observation → Carriers
  by_value key observations = sort_carriers (add_carriers key observations [])

module _ {ℓ} {K : Type ℓ} (value_of : Observation → K → Option Text) (name_of : K → Text) where
  -- One join.
  unfoldable pub join_one : BySide → JoinOn K → Found → Found
  join_one by_side j found =
      let up = by_value value_of j.key (find_or [] j.up_side by_side) in
      let down = by_value value_of j.key (find_or [] j.down_side by_side) in
      join_values j.place (name_of j.key) up down (values_of up down) found

  unfoldable pub join_all : BySide → List (JoinOn K) → Found → Found
  join_all by_side [] found = found
  join_all by_side (j ∷ joins) found = join_all by_side joins (join_one by_side j found)

  -- `_join`
  unfoldable pub join : List (JoinOn K) → BySide → ℕ → ExactResult
  join joins by_side dropped =
      let found = join_all by_side joins found_nothing in
      record {
        links = sort_by (λ l m. link_code l <= link_code m) found.links;
        collisions = sort_by (λ c d. collision_code c <= collision_code d) found.collisions;
        unlinked = sort_by (λ u v. unlinked_code u <= unlinked_code v) found.unlinked;
        duplicates_dropped = dropped;
      }
