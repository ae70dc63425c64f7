-- ===== src/Correlation/Topology/Load.antt =====
-- Loading a topology, of src/reconcileflow/correlation/topology.py: all refusals at once, or the
-- ceilings. `tomllib` is a parameter, with the message of its error.
use reconcileflow.Base.{
  Bool, true, false, Option, some, List, [], ◌∷◌, ◌++◌, ltb, eqb, keep, ◌⊎◌, inl, inr,
  if◌then◌else◌,
}
use reconcileflow.Base.Order.{Text, nat_ord, list_ord, ◌<=◌, ◌==◌, contains}
use reconcileflow.Base.Sorting.{sort_by}
use reconcileflow.Base.Text.{text}
use reconcileflow.Base.Dict.{Dict, find}
use reconcileflow.Base.Raised.{Result, ok, raised, or_key_error}
use reconcileflow.Correlation.Topology.{
  reason_value, invalid_value, Point, Hop, Fraction, HopCeiling, CrossingCeiling, Topology, Refusal,
}
use reconcileflow.Correlation.Topology.Ceiling.{hop_ceiling, crossing_ceiling}
use reconcileflow.Correlation.Topology.Rules.{refusal_at, point_refusals, hop_refusals}
use reconcileflow.Correlation.Topology.Toml.{
  Table, Python, Parsed, ◌>>=◌, ◌>>◌, done, distinct_names,
}
use reconcileflow.Correlation.Topology.Parse.{parse}

-- `TopologyError` with its refusals, or the topology.
pub data Outcome : Type 0 where
  loaded : Topology → Outcome
  refused : List Refusal → Outcome

-- Refusals that a check appends.
abbrev pub told : List Refusal → Parsed Bool
told rs = ok (rs, true)

-- A step that records none.
abbrev pub lifted {ℓ} : {A : Type ℓ} → Result A → Parsed A
lifted (raised e) = raised e
lifted (ok a) = done a

-- `(r.reason, r.where, r.detail)`: the reason decides, then the place, then the detail.
unfoldable pub refusal_before : Refusal → Refusal → Bool
refusal_before r s =
    if ltb (reason_value r.reason) (reason_value s.reason)
    then true
    else if eqb (reason_value r.reason) (reason_value s.reason)
    then (if r.place == s.place then r.detail <= s.detail else r.place <= s.place)
    else false

-- The points rules, for each point.
unfoldable pub all_point_refusals : Dict Text Point → List Refusal
all_point_refusals [] = []
all_point_refusals ((name, p) ∷ points) = point_refusals p ++ all_point_refusals points

unfoldable pub sources_of : List Hop → List Text
sources_of [] = []
sources_of (hop ∷ hops) = hop.src ∷ sources_of hops

unfoldable pub targets_of : List Hop → List Text
targets_of [] = []
targets_of (hop ∷ hops) = hop.dst ∷ targets_of hops

-- `sorted(sources & targets)`
unfoldable pub crossed : List Hop → List Text
crossed hops =
    sort_by ◌<=◌ (distinct_names (keep (λ x. contains x (targets_of hops)) (sources_of hops)))

-- `[_crossing_ceiling(points[name]) for name in ...]`
unfoldable pub crossings_of : Dict Text Point → List Text → Parsed (List CrossingCeiling)
crossings_of points [] = done []
crossings_of points (name ∷ rest) = do
  point ← lifted (or_key_error (find name points))
  others ← crossings_of points rest
  done (crossing_ceiling point ∷ others)

unfoldable pub ceiling_before : HopCeiling → HopCeiling → Bool
ceiling_before c d = if c.src == d.src then c.dst <= d.dst else c.src <= d.src

-- `points[name] for name in sorted(points)`; the names of the parse are sorted.
unfoldable pub points_of : Dict Text Point → List Point
points_of [] = []
points_of ((name, p) ∷ points) = p ∷ points_of points

-- The topology of what was not refused.
unfoldable pub accept :
    Dict Text Point → List HopCeiling → Parsed (List CrossingCeiling) → Result Outcome
accept points ceilings (raised e) = raised e
accept points ceilings (ok (rs, crossings)) = ok (
    loaded (record {
      points = points_of points;
      hops = sort_by ceiling_before ceilings;
      crossings = crossings;
    }))

-- `TopologyError` if there are refusals, all of them in order.
unfoldable pub outcome_of : Parsed (Dict Text Point × List Hop × List HopCeiling) → Result Outcome
outcome_of (raised e) = raised e
outcome_of (ok ([], (points, hops, ceilings))) =
    accept points ceilings (crossings_of points (crossed hops))
outcome_of (ok (r ∷ rs, parts)) = ok (refused (sort_by refusal_before (r ∷ rs)))

module _ (py : Python) (general : Option Fraction → Text) where
  -- A hop whose two points were parsed.
  unfoldable pub load_known_hop : Hop → Point → Point → Parsed (List HopCeiling)
  load_known_hop hop src dst = do
    ceiling ← lifted (hop_ceiling hop src dst)
    told (hop_refusals general hop ceiling src dst)
    done (ceiling ∷ [])

  -- One hop; a hop with a point that was refused is passed over.
  unfoldable pub load_hop : Hop → Option Point → Option Point → Parsed (List HopCeiling)
  load_hop hop (some src) (some dst) = load_known_hop hop src dst
  load_hop hop _ _ = done []

  unfoldable pub load_hops : Dict Text Point → List Hop → Parsed (List HopCeiling)
  load_hops points [] = done []
  load_hops points (hop ∷ hops) = do
    ceiling ← load_hop hop (find hop.src points) (find hop.dst points)
    ceilings ← load_hops points hops
    done (ceiling ++ ceilings)

  -- All that is refused or computed before the refusals are looked at.
  unfoldable pub load_parts : Table → Parsed (Dict Text Point × List Hop × List HopCeiling)
  load_parts declaration = do
    (points, hops) ← parse py declaration
    told (all_point_refusals points)
    ceilings ← load_hops points hops
    done (points, hops, ceilings)

  -- `load`
  unfoldable pub load : Table → Result Outcome
  load declaration = outcome_of (load_parts declaration)

  -- `loads`; `toml` is `tomllib.loads`, or the message of its error.
  unfoldable pub loads : (Text → Text ⊎ Table) → Text → Result Outcome
  loads toml t = elim (toml t) [
    | inl message ↦ ok (refused (refusal_at [] invalid_value (text "not TOML: " ++ message) ∷ []))
    | inr declaration ↦ load declaration
  ]
