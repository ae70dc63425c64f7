-- ===== src/Correlation/Topology/Rules.antt =====
-- The rules of src/reconcileflow/correlation/topology.py. Each check gives the refusals that it
-- appends. How a fraction is printed is a parameter.
use reconcileflow.Base.{
  ◌*◌, Bool, false, ◌&&◌, ◌||◌, not, Option, none, some, List, [], ◌∷◌, ◌++◌, map, ltb, leb, eqb,
  is_empty, if◌then◌else◌,
}
use reconcileflow.Base.Order.{Text, nat_ord, list_ord, ◌<=◌, ◌==◌, contains}
use reconcileflow.Base.Sorting.{sort_by}
use reconcileflow.Base.Text.{text, join, decimal_text}
use reconcileflow.Correlation.Topology.{
  Evidence, strength, evidence_name, LinkKind, Reason, reason_value, missing_name,
  ceiling_below_expected, density_above_bound, untrusted_entry_propagated, agent_baggage,
  agent_not_present, d_max, Point, Hop, Fraction, HopCeiling, Refusal,
}
use reconcileflow.Correlation.Topology.Ceiling.{hop_links, missing}

-- `[name for name, who in propagates if who == "agent"]`
unfoldable pub by_agent_of : List (Text × Text) → List Text
by_agent_of [] = []
by_agent_of ((name, who) ∷ rest) =
    if who == text "agent" then name ∷ by_agent_of rest else by_agent_of rest

unfoldable pub by_agent : Point → List Text
by_agent point = sort_by ◌<=◌ (by_agent_of point.propagates)

abbrev pub refusal_at : Text → Reason → Text → Refusal
refusal_at place reason detail = record {
  reason = reason;
  place = place;
  detail = detail;
  missing = [];
}

abbrev pub refuse_if : Bool → Refusal → List Refusal
refuse_if test r = if test then r ∷ [] else []

-- The loop of the rule on untrusted entries.
unfoldable pub untrusted_refusals : Point → List Text → List Refusal
untrusted_refusals point [] = []
untrusted_refusals point (name ∷ rest) =
    refuse_if (not (contains name point.sets)) (
      refusal_at point.name untrusted_entry_propagated (
        text "the agent re-injects an outside " ++ name ++ text " (measured); set it here instead"))
    ++ untrusted_refusals point rest

-- An agent that propagates on a point it does not see.
unfoldable pub presence_refusals : Point → List Refusal
presence_refusals point =
    refuse_if (not (is_empty (by_agent point)) && not (point.visibility == text "kernel")) (
      refusal_at point.name agent_not_present
        (text "an agent propagates on a point it does not see"))

unfoldable pub baggage_refusals : Point → List Refusal
baggage_refusals point =
    refuse_if (contains (text "baggage") (by_agent point))
      (refusal_at point.name agent_baggage (text "the agent does not carry baggage (measured)"))

-- What an agent copies through an untrusted entry.
unfoldable pub entry_refusals : Point → List Refusal
entry_refusals point =
    if point.trusts_incoming then [] else untrusted_refusals point (by_agent point)

-- `_check_point_rules`
unfoldable pub point_refusals : Point → List Refusal
point_refusals point = presence_refusals point ++ baggage_refusals point ++ entry_refusals point

-- `density > D_MAX`
unfoldable pub is_dense : Option Fraction → Bool
is_dense none = false
is_dense (some f) = ltb (d_max * f.denominator) f.numerator

unfoldable pub has_reason : Reason → List Reason → Bool
has_reason r [] = false
has_reason r (s ∷ rest) = eqb (reason_value r) (reason_value s) || has_reason r rest

unfoldable pub distinct_reasons : List Reason → List Reason
distinct_reasons [] = []
distinct_reasons (r ∷ rest) =
    if has_reason r rest then distinct_reasons rest else r ∷ distinct_reasons rest

-- What the link kinds of an evidence class lack.
unfoldable pub lacking_from :
    (LinkKind → List Reason) → Evidence → List (LinkKind × Evidence) → List Reason
lacking_from lacks expected [] = []
lacking_from lacks expected ((kind, level) ∷ rest) =
    (if eqb (strength level) (strength expected) then lacks kind else [])
    ++ lacking_from lacks expected rest

-- `sorted({...})`
unfoldable pub lacking : Hop → Point → Point → Evidence → List Reason
lacking hop src dst expected =
    sort_by (λ r s. leb (reason_value r) (reason_value s))
      (distinct_reasons (lacking_from (missing hop src dst) expected hop_links))

unfoldable pub is_below : Evidence → Option Evidence → Bool
is_below reached none = false
is_below reached (some expected) = ltb (strength reached) (strength expected)

abbrev pub arrow : Text → Text → Text
arrow src dst = src ++ text " -> " ++ dst

unfoldable pub below_refusal : Hop → HopCeiling → Point → Point → Evidence → Refusal
below_refusal hop ceiling src dst expected =
    let reasons = lacking hop src dst expected in
    record {
      reason = ceiling_below_expected;
      place = arrow hop.src hop.dst;
      detail =
          text "expected "
          ++ evidence_name expected
          ++ text ", at most "
          ++ evidence_name ceiling.evidence
          ++ text "; missing: "
          ++ join (text ", ") (map missing_name reasons);
      missing = reasons;
    }

module _ (general : Option Fraction → Text) where
  -- `_check_hop_rules`; `general` is `f"{float(density):g}"`.
  unfoldable pub hop_refusals : Hop → HopCeiling → Point → Point → List Refusal
  hop_refusals hop ceiling src dst =
      refuse_if (is_dense ceiling.density) (
        refusal_at (arrow hop.src hop.dst) density_above_bound (
          text "density "
          ++ general ceiling.density
          ++ text " > "
          ++ decimal_text d_max
          ++ text ": timing cannot carry this rate"))
      ++ (elim hop.expect [
        | none ↦ []
        | some expected ↦
            refuse_if (is_below ceiling.evidence (some expected))
              (below_refusal hop ceiling src dst expected)
      ])
