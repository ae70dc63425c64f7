-- ===== src/Tests/Topology.antt =====
-- A declaration of two points and a hop, loaded, and the theorems on topologies at it.
use reconcileflow.Base.{◌≡◌, refl, inl, true, false, Option, some, none, [], ◌∷◌, All}
use reconcileflow.Base.Order.{Text, nat_ord, list_ord}
use reconcileflow.Base.Raised.{ok, raised, type_error}
use reconcileflow.Correlation.Topology.{
  authored, shared_header, Point, Hop, Fraction, HopCeiling, Topology,
}
use reconcileflow.Correlation.Topology.Toml.{
  Value, text_value, list_value, bool_value, table_value, Values, no_values, value_and, Table,
  no_entries, entry_and, Python,
}
use reconcileflow.Correlation.Topology.Load.{loaded}
use reconcileflow.Correlation.Topology.Strongest.{IsStrongest, hop_ceiling-IsStrongest}
use reconcileflow.Correlation.Topology.Accepted.{IsSafe, IsCarried, load-IsAccepted}
use reconcileflow.Correlation.Topology.Unhashable.{parse_hop-unhashable}
use reconcileflow.Correlation.Topology.Ceiling.{hop_links}
use reconcileflow.Base.Order.{◌==◌, contains, lex}
use reconcileflow.Base.Sorting.{insert_by, sort_by}
use reconcileflow.Base.Dict.{note_key, find_or, find, alter}
use reconcileflow.Base.Text.{text, join, decimal_from, decimal_text}
use reconcileflow.Correlation.Topology.Ceiling.{
  precision_ns, is_replaced, wire_header_from, wire_header, in_both, missing, first_link,
  density_of, key_of, observed_of, hop_ceiling, copied, is_copied, first_copied, crossing_ceiling,
}
use reconcileflow.Correlation.Topology.Rules.{
  by_agent_of, by_agent, untrusted_refusals, presence_refusals, baggage_refusals, entry_refusals,
  point_refusals, is_dense, has_reason, distinct_reasons, lacking_from, lacking, is_below,
  below_refusal, hop_refusals,
}
use reconcileflow.Correlation.Topology.Toml.{
  lookup, table_keys, texts_of, has_twice, distinct_names, set_minus, refuse_each, check_fields,
  check_choice, read_text, read_choice, read_flag, read_integer, read_identifiers,
}
use reconcileflow.Correlation.Topology.Parse.{
  is_member, evidence_of, is_true, ends_of, shown, same_ends, read_who, read_carried_one,
  read_carried, read_propagates, parse_point, check_end, parse_hop, parse_point_value, parse_points,
  read_points, read_hops, check_seen, parse_hop_value, parse_hops, parse,
}
use reconcileflow.Correlation.Topology.Load.{
  refusal_before, all_point_refusals, sources_of, targets_of, crossed, crossings_of, ceiling_before,
  points_of, accept, outcome_of, load_known_hop, load_hop, load_hops, load_parts, load, loads,
}

-- A printing that shows nothing.
abbrev py : Python
py = record { repr = λ v. []; str = λ v. []; equal = λ v w. false; repr_names = λ names. [] }

abbrev general : Option Fraction → Text
general d = []

abbrev one : Text → Values
one name = value_and (text_value name) no_values

abbrev gateway : Point
gateway = record {
  name = text "gw";
  host = text "h1";
  visibility = text "kernel";
  clock = some (text "c");
  timestamps = some (text "log_ms");
  inbound = [];
  outbound = text "request_id" ∷ [];
  propagates = (text "traceparent", text "agent") ∷ [];
  sets = text "traceparent" ∷ [];
  trusts_incoming = false;
}

abbrev service : Point
service = record {
  name = text "svc";
  host = text "h2";
  visibility = text "app";
  clock = some (text "c");
  timestamps = some (text "log_ms");
  inbound = text "request_id" ∷ [];
  outbound = [];
  propagates = [];
  sets = [];
  trusts_incoming = true;
}

abbrev call : Hop
call = record {
  src = text "gw";
  dst = text "svc";
  relation = text "call";
  nat = text "none";
  nat_mapping = text "none";
  pooling = false;
  rate = none;
  noise_us = none;
  expect = none;
  max_fanout = none;
}

abbrev call_ceiling : HopCeiling
call_ceiling = record {
  src = text "gw";
  dst = text "svc";
  relation = text "call";
  evidence = authored;
  link = shared_header;
  density = none;
  max_fanout = none;
  key = some (text "request_id");
  observed = none;
}

hop_ceiling-call : hop_ceiling call gateway service ≡ ok call_ceiling
unfolding ◌==◌ contains lex insert_by sort_by note_key find_or find alter join decimal_from
    decimal_text precision_ns is_replaced wire_header_from wire_header in_both missing first_link
    density_of key_of observed_of hop_ceiling copied is_copied first_copied crossing_ceiling
    by_agent_of by_agent untrusted_refusals presence_refusals baggage_refusals entry_refusals
    point_refusals is_dense has_reason distinct_reasons lacking_from lacking is_below below_refusal
    hop_refusals lookup table_keys texts_of has_twice distinct_names set_minus refuse_each
    check_fields check_choice read_text read_choice read_flag read_integer read_identifiers
    is_member evidence_of is_true ends_of shown same_ends read_who read_carried_one read_carried
    read_propagates parse_point check_end parse_hop parse_point_value parse_points read_points
    read_hops check_seen parse_hop_value parse_hops parse refusal_before all_point_refusals
    sources_of targets_of crossed crossings_of ceiling_before points_of accept outcome_of
    load_known_hop load_hop load_hops load_parts load loads
hop_ceiling-call = refl

hop_ceiling-IsStrongest_example :
    IsStrongest hop_links (missing call gateway service) shared_header authored
hop_ceiling-IsStrongest_example =
    hop_ceiling-IsStrongest call gateway service call_ceiling hop_ceiling-call

abbrev gateway_table : Table
gateway_table = entry_and (text "host") (text_value (text "h1")) (
    entry_and (text "visibility") (text_value (text "kernel")) (
      entry_and (text "clock") (text_value (text "c")) (
        entry_and (text "timestamps") (text_value (text "log_ms")) (
          entry_and (text "outbound") (list_value (one (text "request_id"))) (
            entry_and (text "sets") (list_value (one (text "traceparent"))) (
              entry_and (text "trusts_incoming") (bool_value false) (
                entry_and (text "propagates")
                  (table_value
                    (entry_and (text "traceparent") (text_value (text "agent")) no_entries))
                  no_entries)))))))

abbrev service_table : Table
service_table = entry_and (text "host") (text_value (text "h2")) (
    entry_and (text "visibility") (text_value (text "app")) (
      entry_and (text "clock") (text_value (text "c")) (
        entry_and (text "timestamps") (text_value (text "log_ms"))
          (entry_and (text "inbound") (list_value (one (text "request_id"))) no_entries))))

abbrev hop_table : Value → Table
hop_table source =
    entry_and (text "from") source (entry_and (text "to") (text_value (text "svc")) no_entries)

abbrev declaration : Table
declaration =
    entry_and (text "points")
      (table_value (
        entry_and (text "gw") (table_value gateway_table)
          (entry_and (text "svc") (table_value service_table) no_entries)))
      (entry_and (text "hops")
        (list_value (value_and (table_value (hop_table (text_value (text "gw")))) no_values))
        no_entries)

abbrev topology : Topology
topology = record { points = gateway ∷ service ∷ []; hops = call_ceiling ∷ []; crossings = [] }

load-two : load py general declaration ≡ ok (loaded topology)
unfolding ◌==◌ contains lex insert_by sort_by note_key find_or find alter join decimal_from
    decimal_text precision_ns is_replaced wire_header_from wire_header in_both missing first_link
    density_of key_of observed_of hop_ceiling copied is_copied first_copied crossing_ceiling
    by_agent_of by_agent untrusted_refusals presence_refusals baggage_refusals entry_refusals
    point_refusals is_dense has_reason distinct_reasons lacking_from lacking is_below below_refusal
    hop_refusals lookup table_keys texts_of has_twice distinct_names set_minus refuse_each
    check_fields check_choice read_text read_choice read_flag read_integer read_identifiers
    is_member evidence_of is_true ends_of shown same_ends read_who read_carried_one read_carried
    read_propagates parse_point check_end parse_hop parse_point_value parse_points read_points
    read_hops check_seen parse_hop_value parse_hops parse refusal_before all_point_refusals
    sources_of targets_of crossed crossings_of ceiling_before points_of accept outcome_of
    load_known_hop load_hop load_hops load_parts load loads
load-two = refl

load-IsAccepted_example : All IsSafe topology.points × All IsCarried topology.hops
load-IsAccepted_example = load-IsAccepted py general declaration topology load-two

abbrev nested : Value
nested = list_value (one (text "gw"))

parse_hop-nested : lookup (text "from") (hop_table nested) ≡ some nested
unfolding ◌==◌ contains lex insert_by sort_by note_key find_or find alter join decimal_from
    decimal_text precision_ns is_replaced wire_header_from wire_header in_both missing first_link
    density_of key_of observed_of hop_ceiling copied is_copied first_copied crossing_ceiling
    by_agent_of by_agent untrusted_refusals presence_refusals baggage_refusals entry_refusals
    point_refusals is_dense has_reason distinct_reasons lacking_from lacking is_below below_refusal
    hop_refusals lookup table_keys texts_of has_twice distinct_names set_minus refuse_each
    check_fields check_choice read_text read_choice read_flag read_integer read_identifiers
    is_member evidence_of is_true ends_of shown same_ends read_who read_carried_one read_carried
    read_propagates parse_point check_end parse_hop parse_point_value parse_points read_points
    read_hops check_seen parse_hop_value parse_hops parse refusal_before all_point_refusals
    sources_of targets_of crossed crossings_of ceiling_before points_of accept outcome_of
    load_known_hop load_hop load_hops load_parts load loads
parse_hop-nested = refl

parse_hop-unhashable_example :
    parse_hop py (hop_table nested) (text "gw" ∷ text "svc" ∷ []) ≡ raised type_error
parse_hop-unhashable_example =
    parse_hop-unhashable py (hop_table nested) (text "gw" ∷ text "svc" ∷ []) nested parse_hop-nested
      (inl (one (text "gw"), refl))
