-- ===== src/Tests/Exact.antt =====
-- A request seen on both sides of a hop, one of its observations delivered twice, and the theorems
-- on the exact path at it.
use reconcileflow.Base.{
  ℕ, ◌≡◌, refl, true, some, none, List, [], ◌∷◌, ◌++◌, ◌+◌, All, In, here, length,
}
use reconcileflow.Base.Order.{Text, nat_ord, list_ord}
use reconcileflow.Base.Raised.{ok}
use reconcileflow.Correlation.Topology.{authored, shared_header, Point, HopCeiling, Topology}
use reconcileflow.Correlation.Exact.{identity_ord, Observation, Dedup, content}
use reconcileflow.Correlation.Exact.Join.{join, ExactResult, JoinOn}
use reconcileflow.Correlation.Exact.Links.{own_name, authored_joins, hop_join}
use reconcileflow.Correlation.Exact.Facts.{IsTold}
use reconcileflow.Correlation.Exact.Sound.{
  told_by, side_carriers, IsFact, exact_links-IsFact, observed_links-IsFact, exact_links-IsTold,
}
use mathlib.Core.List.{Perm}
use mathlib.Core.List.Perm
use reconcileflow.Correlation.Exact.Reading.{IsMapping}
use reconcileflow.Correlation.Exact.Invariance.{exact_links-perm, observed_links-perm}
use reconcileflow.Correlation.Exact.Duplicates.{AreApart, IsRepresented, deduplicated-IsStep}
use reconcileflow.Base.Order.{◌==◌, contains, lex}
use reconcileflow.Base.Sorting.{insert_by, sort_by}
use reconcileflow.Base.Dict.{note_key, find_or, find, alter}
use reconcileflow.Base.Text
use reconcileflow.Base.Text.{text, decimal_from, decimal_text}
use reconcileflow.Correlation.Topology.Ceiling.{
  precision_ns, is_replaced, wire_header_from, wire_header, in_both, missing, first_link,
  density_of, key_of, observed_of, hop_ceiling, copied, is_copied, first_copied, crossing_ceiling,
}
use reconcileflow.Correlation.Topology.Rules.{
  by_agent_of, by_agent, untrusted_refusals, presence_refusals, baggage_refusals, entry_refusals,
  point_refusals, is_dense, has_reason, distinct_reasons, lacking_from, lacking, is_below,
  below_refusal, hop_refusals,
}
use reconcileflow.Correlation.Topology.Toml.{
  lookup, table_keys, texts_of, has_twice, distinct_names, set_minus, refuse_each, check_fields,
  check_choice, read_text, read_choice, read_flag, read_integer, read_identifiers,
}
use reconcileflow.Correlation.Exact.{
  are_known, is_valid, items, content, point_names, dedup_one, dedup_all, deduplicated,
}
use reconcileflow.Correlation.Exact.Join.{
  group_sides, pair_or_alone, judge, tell, join_value, join_values, sort_carriers, values_of, file,
  add_carriers, by_value, join_one, join_all,
}
use reconcileflow.Correlation.Exact.Links.{
  value_of, with_part, parts_of, composite_of, observed_key, hop_joins, crossing_joins,
  observed_joins, exact_links, observed_links,
}

abbrev point : Text → Point
point name = record {
  name = name;
  host = text "h";
  visibility = text "app";
  clock = none;
  timestamps = none;
  inbound = text "request_id" ∷ [];
  outbound = text "request_id" ∷ [];
  propagates = [];
  sets = [];
  trusts_incoming = true;
}

abbrev hop : HopCeiling
hop = record {
  src = text "gw";
  dst = text "svc";
  relation = text "call";
  evidence = authored;
  link = shared_header;
  density = none;
  max_fanout = none;
  key = some (text "request_id");
  observed = some (text "request_id" ∷ []);
}

abbrev topology : Topology
topology = record {
  points = point (text "gw") ∷ point (text "svc") ∷ [];
  hops = hop ∷ [];
  crossings = [];
}

abbrev seen_at : ℕ → Text → Text → Observation
seen_at n p side = record {
  source = text "log";
  seq = n;
  point = p;
  side = side;
  keys = (text "request_id", text "r1") ∷ [];
}

abbrev leaving : Observation
leaving = seen_at 1 (text "gw") (text "outbound")

abbrev arriving : Observation
arriving = seen_at 2 (text "svc") (text "inbound")

abbrev observations : List Observation
observations = leaving ∷ arriving ∷ leaving ∷ []

abbrev kept : Dedup
kept = record {
  seen =
      (
        (text "log", 1),
        ((text "gw" ∷ text "outbound" ∷ []) ∷ (text "request_id" ∷ text "r1" ∷ []) ∷ []),
      )
      ∷ (
        (text "log", 2),
        ((text "svc" ∷ text "inbound" ∷ []) ∷ (text "request_id" ∷ text "r1" ∷ []) ∷ []),
      )
      ∷ [];
  distinct = leaving ∷ arriving ∷ [];
  dropped = 1;
}

abbrev linked_once : ExactResult
linked_once = record {
  links =
      record {
        place = text "gw -> svc";
        key = text "request_id";
        value = text "r1";
        upstream = (text "log", 1);
        downstream = (text "log", 2);
      }
      ∷ [];
  collisions = [];
  unlinked = [];
  duplicates_dropped = 1;
}

deduplicated-twice : deduplicated topology observations ≡ ok kept
unfolding ◌==◌ contains lex insert_by sort_by note_key find_or find alter Text.join join
    decimal_from decimal_text precision_ns is_replaced wire_header_from wire_header in_both missing
    first_link density_of key_of observed_of hop_ceiling copied is_copied first_copied
    crossing_ceiling by_agent_of by_agent untrusted_refusals presence_refusals baggage_refusals
    entry_refusals point_refusals is_dense has_reason distinct_reasons lacking_from lacking is_below
    below_refusal hop_refusals lookup table_keys texts_of has_twice distinct_names set_minus
    refuse_each check_fields check_choice read_text read_choice read_flag read_integer
    read_identifiers are_known is_valid items content point_names dedup_one dedup_all deduplicated
    group_sides pair_or_alone judge tell join_value join_values sort_carriers values_of file
    add_carriers by_value join_one join_all value_of with_part parts_of composite_of observed_key
    hop_joins crossing_joins observed_joins exact_links observed_links
deduplicated-twice = refl

deduplicated-IsStep_example :
    AreApart kept.distinct
    × All (λ (o : Observation). In o observations) kept.distinct
    × All (λ (o : Observation). IsRepresented o kept.distinct) observations
    × (length kept.distinct + kept.dropped ≡ length observations)
deduplicated-IsStep_example = deduplicated-IsStep topology observations deduplicated-twice

exact_links-twice : exact_links topology observations ≡ ok linked_once
unfolding ◌==◌ contains lex insert_by sort_by note_key find_or find alter Text.join join
    decimal_from decimal_text precision_ns is_replaced wire_header_from wire_header in_both missing
    first_link density_of key_of observed_of hop_ceiling copied is_copied first_copied
    crossing_ceiling by_agent_of by_agent untrusted_refusals presence_refusals baggage_refusals
    entry_refusals point_refusals is_dense has_reason distinct_reasons lacking_from lacking is_below
    below_refusal hop_refusals lookup table_keys texts_of has_twice distinct_names set_minus
    refuse_each check_fields check_choice read_text read_choice read_flag read_integer
    read_identifiers are_known is_valid items content point_names dedup_one dedup_all deduplicated
    group_sides pair_or_alone judge tell join_value join_values sort_carriers values_of file
    add_carriers by_value join_one join_all value_of with_part parts_of composite_of observed_key
    hop_joins crossing_joins observed_joins exact_links observed_links
exact_links-twice = refl

exact_links-IsFact_example :
    All (IsFact value_of own_name (authored_joins topology) kept.distinct) linked_once.links
exact_links-IsFact_example =
    exact_links-IsFact topology observations deduplicated-twice exact_links-twice

observed_links-twice : observed_links topology observations ≡ ok linked_once
unfolding ◌==◌ contains lex insert_by sort_by note_key find_or find alter Text.join join
    decimal_from decimal_text precision_ns is_replaced wire_header_from wire_header in_both missing
    first_link density_of key_of observed_of hop_ceiling copied is_copied first_copied
    crossing_ceiling by_agent_of by_agent untrusted_refusals presence_refusals baggage_refusals
    entry_refusals point_refusals is_dense has_reason distinct_reasons lacking_from lacking is_below
    below_refusal hop_refusals lookup table_keys texts_of has_twice distinct_names set_minus
    refuse_each check_fields check_choice read_text read_choice read_flag read_integer
    read_identifiers are_known is_valid items content point_names dedup_one dedup_all deduplicated
    group_sides pair_or_alone judge tell join_value join_values sort_carriers values_of file
    add_carriers by_value join_one join_all value_of with_part parts_of composite_of observed_key
    hop_joins crossing_joins observed_joins exact_links observed_links
observed_links-twice = refl

observed_links-IsFact_example :
    All
      (IsFact composite_of observed_key (observed_joins topology.hops) kept.distinct)
      linked_once.links
observed_links-IsFact_example =
    observed_links-IsFact topology observations deduplicated-twice observed_links-twice

abbrev join_on : JoinOn Text
join_on = hop_join hop (text "request_id")

join_on-authored : In join_on (authored_joins topology)
unfolding ◌==◌ contains lex insert_by sort_by note_key find_or find alter Text.join join
    decimal_from decimal_text precision_ns is_replaced wire_header_from wire_header in_both missing
    first_link density_of key_of observed_of hop_ceiling copied is_copied first_copied
    crossing_ceiling by_agent_of by_agent untrusted_refusals presence_refusals baggage_refusals
    entry_refusals point_refusals is_dense has_reason distinct_reasons lacking_from lacking is_below
    below_refusal hop_refusals lookup table_keys texts_of has_twice distinct_names set_minus
    refuse_each check_fields check_choice read_text read_choice read_flag read_integer
    read_identifiers are_known is_valid items content point_names dedup_one dedup_all deduplicated
    group_sides pair_or_alone judge tell join_value join_values sort_carriers values_of file
    add_carriers by_value join_one join_all value_of with_part parts_of composite_of observed_key
    hop_joins crossing_joins observed_joins exact_links observed_links
join_on-authored = here

first_carrier :
    In
      (text "log", 1)
      (side_carriers value_of own_name (text "request_id") (text "r1") join_on.up_side kept.distinct
        ++ side_carriers value_of own_name
            (text "request_id")
            (text "r1")
            join_on.down_side
            kept.distinct)
unfolding ◌==◌ contains lex insert_by sort_by note_key find_or find alter Text.join join
    decimal_from decimal_text precision_ns is_replaced wire_header_from wire_header in_both missing
    first_link density_of key_of observed_of hop_ceiling copied is_copied first_copied
    crossing_ceiling by_agent_of by_agent untrusted_refusals presence_refusals baggage_refusals
    entry_refusals point_refusals is_dense has_reason distinct_reasons lacking_from lacking is_below
    below_refusal hop_refusals lookup table_keys texts_of has_twice distinct_names set_minus
    refuse_each check_fields check_choice read_text read_choice read_flag read_integer
    read_identifiers are_known is_valid items content point_names dedup_one dedup_all deduplicated
    group_sides pair_or_alone judge tell join_value join_values sort_carriers values_of file
    add_carriers by_value join_one join_all value_of with_part parts_of composite_of observed_key
    hop_joins crossing_joins observed_joins exact_links observed_links
first_carrier = here

exact_links-IsTold_example :
    IsTold join_on.place join_on.key
      (text "r1")
      (side_carriers value_of own_name join_on.key (text "r1") join_on.up_side kept.distinct)
      (side_carriers value_of own_name join_on.key (text "r1") join_on.down_side kept.distinct)
      (told_by linked_once)
exact_links-IsTold_example =
    exact_links-IsTold topology observations deduplicated-twice exact_links-twice (text "r1")
      join_on-authored first_carrier

abbrev reordered : List Observation
reordered = arriving ∷ leaving ∷ leaving ∷ []

observations-perm : Perm observations reordered
observations-perm = Perm.swap arriving leaving (leaving ∷ [])

leaving-IsMapping : IsMapping leaving
leaving-IsMapping = (λ m. elim m [ ], tt)

observations-IsMapping : All IsMapping observations
observations-IsMapping = (leaving-IsMapping, ((λ m. elim m [ ], tt), (leaving-IsMapping, tt)))

exact_links-perm_example : exact_links topology observations ≡ exact_links topology reordered
exact_links-perm_example =
    exact_links-perm topology observations reordered observations-perm observations-IsMapping

observed_links-perm_example :
    observed_links topology observations ≡ observed_links topology reordered
observed_links-perm_example =
    observed_links-perm topology observations reordered observations-perm observations-IsMapping
