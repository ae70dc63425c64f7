-- ===== src/Correlation/Topology.antt =====
-- The data of src/reconcileflow/correlation/topology.py: points, hops, ceilings and refusals. A
-- `frozenset` of names is a list that is only asked for its members.
pub mod Ceiling
pub mod Rules
pub mod Toml
pub mod Parse
pub mod Load
pub mod Strongest
pub mod Accepted
pub mod Unhashable
pub mod Keyed
use reconcileflow.Base.{ℕ, Bool, Option, List, [], ◌∷◌}
use reconcileflow.Base.Order.{Text}
use reconcileflow.Base.Text.{text}

-- `D_MAX`
abbrev pub d_max : ℕ
d_max = 1

pub data Evidence : Type 0 where
  unresolved derived observed authored : Evidence

-- The values of the enum: a larger one is stronger.
abbrev pub strength : Evidence → ℕ
strength unresolved = 0
strength derived = 1
strength observed = 2
strength authored = 3

-- `e.name.lower()`
abbrev pub evidence_name : Evidence → Text
evidence_name unresolved = text "unresolved"
evidence_name derived = text "derived"
evidence_name observed = text "observed"
evidence_name authored = text "authored"

pub data LinkKind : Type 0 where
  shared_header message_key same_connection same_socket nested_timing : LinkKind
  propagated inside_process logged_timing no_link : LinkKind

pub data Reason : Type 0 where
  missing_field unknown_field unknown_value unknown_identifier invalid_value : Reason
  unknown_point duplicate_hop : Reason
  ceiling_below_expected density_above_bound untrusted_entry_propagated agent_baggage : Reason
  agent_not_present fanout_unbounded : Reason
  no_shared_header no_message_key missing_tuple5 missing_nat_mapping missing_stream_id : Reason
  missing_socket_cookie cross_host_socket async_relation not_timestamped no_shared_clock : Reason

abbrev pub reason_value : Reason → ℕ
reason_value missing_field = 1
reason_value unknown_field = 2
reason_value unknown_value = 3
reason_value unknown_identifier = 4
reason_value invalid_value = 5
reason_value unknown_point = 6
reason_value duplicate_hop = 7
reason_value ceiling_below_expected = 10
reason_value density_above_bound = 11
reason_value untrusted_entry_propagated = 12
reason_value agent_baggage = 13
reason_value agent_not_present = 14
reason_value fanout_unbounded = 15
reason_value no_shared_header = 20
reason_value no_message_key = 21
reason_value missing_tuple5 = 22
reason_value missing_nat_mapping = 23
reason_value missing_stream_id = 24
reason_value missing_socket_cookie = 25
reason_value cross_host_socket = 26
reason_value async_relation = 27
reason_value not_timestamped = 28
reason_value no_shared_clock = 29

-- `r.name.lower()`, of the reasons that a refusal lists as missing.
abbrev pub missing_name : Reason → Text
missing_name no_shared_header = text "no_shared_header"
missing_name no_message_key = text "no_message_key"
missing_name missing_tuple5 = text "missing_tuple5"
missing_name missing_nat_mapping = text "missing_nat_mapping"
missing_name missing_stream_id = text "missing_stream_id"
missing_name missing_socket_cookie = text "missing_socket_cookie"
missing_name cross_host_socket = text "cross_host_socket"
missing_name async_relation = text "async_relation"
missing_name not_timestamped = text "not_timestamped"
missing_name no_shared_clock = text "no_shared_clock"
missing_name _ = []

abbrev pub carried : List Text
carried = text "traceparent" ∷ text "baggage" ∷ text "request_id" ∷ text "message_id" ∷ []

abbrev pub identifiers : List Text
identifiers =
    text "traceparent"
    ∷ text "baggage"
    ∷ text "request_id"
    ∷ text "message_id"
    ∷ text "tuple5"
    ∷ text "h2_stream_id"
    ∷ text "socket_cookie"
    ∷ []

-- `HEADERS`
abbrev pub headers : List Text
headers = text "request_id" ∷ text "traceparent" ∷ []

pub record Point : Type 0 where
  pub name : Text
  pub host : Text
  pub visibility : Text
  pub clock : Option Text
  pub timestamps : Option Text
  pub inbound : List Text
  pub outbound : List Text
  pub propagates : List (Text × Text)
  pub sets : List Text
  pub trusts_incoming : Bool

pub record Hop : Type 0 where
  pub src : Text
  pub dst : Text
  pub relation : Text
  pub nat : Text
  pub nat_mapping : Text
  pub pooling : Bool
  pub rate : Option ℕ
  pub noise_us : Option ℕ
  pub expect : Option Evidence
  pub max_fanout : Option ℕ

-- A `Fraction`, not reduced: it is compared by products.
pub record Fraction : Type 0 where
  pub numerator : ℕ
  pub denominator : ℕ

pub record HopCeiling : Type 0 where
  pub src : Text
  pub dst : Text
  pub relation : Text
  pub evidence : Evidence
  pub link : LinkKind
  pub density : Option Fraction
  pub max_fanout : Option ℕ
  pub key : Option Text
  pub observed : Option (List Text)

pub record CrossingCeiling : Type 0 where
  pub point : Text
  pub evidence : Evidence
  pub link : LinkKind
  pub key : Option Text

pub record Topology : Type 0 where
  pub points : List Point
  pub hops : List HopCeiling
  pub crossings : List CrossingCeiling

pub record Refusal : Type 0 where
  pub reason : Reason
  pub place : Text
  pub detail : Text
  pub missing : List Reason
