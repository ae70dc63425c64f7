-- ===== src/Correlation/Exact/Links.antt =====
-- `exact_links` and `observed_links` of src/reconcileflow/correlation/exact.py.
use reconcileflow.Base.{Option, none, some, List, [], ◌∷◌, ◌++◌}
use reconcileflow.Base.Order.{Text, nat_ord, list_ord}
use reconcileflow.Base.Dict.{find}
use reconcileflow.Base.Text
use reconcileflow.Base.Text.{text}
use reconcileflow.Base.Raised.{Result, ok, ◌>>=◌}
use reconcileflow.Models.Digests.{separator}
use reconcileflow.Correlation.Topology.{HopCeiling, CrossingCeiling, Topology}
use reconcileflow.Correlation.Topology.Rules.{arrow}
use reconcileflow.Correlation.Exact.{Observation, deduplicated}
use reconcileflow.Correlation.Exact.Join.{JoinOn, ExactResult, group_sides, join}

-- `_value_of`
unfoldable pub value_of : Observation → Text → Option Text
value_of obs key = find key obs.keys

-- A value and the others, if all are recorded.
unfoldable pub with_part : Option Text → Option (List Text) → Option (List Text)
with_part none vs = none
with_part (some v) none = none
with_part (some v) (some vs) = some (v ∷ vs)

-- The values of several identifiers, if all are recorded.
unfoldable pub parts_of : Observation → List Text → Option (List Text)
parts_of obs [] = some []
parts_of obs (i ∷ identifiers) = with_part (find i obs.keys) (parts_of obs identifiers)

-- `_composite_of`
unfoldable pub composite_of : Observation → List Text → Option Text
composite_of obs identifiers = elim (parts_of obs identifiers) [
  | none ↦ none
  | some vs ↦ some (Text.join separator vs)
]

-- `observed_key`
unfoldable pub observed_key : List Text → Text
observed_key identifiers = Text.join (text "+") identifiers

-- The key of a join on one identifier is its own name.
abbrev pub own_name : Text → Text
own_name key = key

abbrev pub hop_join {ℓ} : {K : Type ℓ} → HopCeiling → K → JoinOn K
hop_join hop key = record {
  place = arrow hop.src hop.dst;
  key = key;
  up_side = hop.src ∷ text "outbound" ∷ [];
  down_side = hop.dst ∷ text "inbound" ∷ [];
}

abbrev pub crossing_join : CrossingCeiling → Text → JoinOn Text
crossing_join c key = record {
  place = c.point;
  key = key;
  up_side = c.point ∷ text "inbound" ∷ [];
  down_side = c.point ∷ text "outbound" ∷ [];
}

unfoldable pub hop_joins : List HopCeiling → List (JoinOn Text)
hop_joins [] = []
hop_joins (hop ∷ hops) = elim hop.key [
  | none ↦ hop_joins hops
  | some key ↦ hop_join hop key ∷ hop_joins hops
]

unfoldable pub crossing_joins : List CrossingCeiling → List (JoinOn Text)
crossing_joins [] = []
crossing_joins (c ∷ cs) = elim c.key [
  | none ↦ crossing_joins cs
  | some key ↦ crossing_join c key ∷ crossing_joins cs
]

unfoldable pub observed_joins : List HopCeiling → List (JoinOn (List Text))
observed_joins [] = []
observed_joins (hop ∷ hops) = elim hop.observed [
  | none ↦ observed_joins hops
  | some identifiers ↦ hop_join hop identifiers ∷ observed_joins hops
]

abbrev pub authored_joins : Topology → List (JoinOn Text)
authored_joins topology = hop_joins topology.hops ++ crossing_joins topology.crossings

-- `exact_links`
unfoldable pub exact_links : Topology → List Observation → Result ExactResult
exact_links topology observations = do
  s ← deduplicated topology observations
  ok (join value_of own_name (authored_joins topology) (group_sides s.distinct []) s.dropped)

-- `observed_links`
unfoldable pub observed_links : Topology → List Observation → Result ExactResult
observed_links topology observations = do
  s ← deduplicated topology observations
  ok (
      join composite_of observed_key (observed_joins topology.hops) (group_sides s.distinct [])
        s.dropped)
