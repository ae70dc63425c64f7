-- ===== src/Correlation/Topology/Ceiling.antt =====
-- The ceilings of src/reconcileflow/correlation/topology.py: the strongest evidence that a hop or a
-- crossing can reach.
use reconcileflow.Base.{
  ℕ, ◌*◌, max, Bool, true, false, ◌&&◌, ◌||◌, not, Option, none, some, List, [], ◌∷◌, ◌++◌,
  is_empty, is_some, if◌then◌else◌,
}
use reconcileflow.Base.Order.{Text, nat_ord, list_ord, ◌==◌, contains}
use reconcileflow.Base.Text.{text}
use reconcileflow.Base.Raised.{Result, ok, raised, key_error, ◌>>=◌}
use reconcileflow.Correlation.Topology.{
  Evidence, unresolved, derived, observed, authored, LinkKind, shared_header, message_key,
  same_connection, same_socket, nested_timing, propagated, inside_process, logged_timing, no_link,
  Reason, no_shared_header, no_message_key, missing_tuple5, missing_nat_mapping, missing_stream_id,
  missing_socket_cookie, cross_host_socket, async_relation, not_timestamped, no_shared_clock,
  headers, Point, Hop, Fraction, HopCeiling, CrossingCeiling,
}

-- `PRECISION_NS`
abbrev pub precision_names : List Text
precision_names =
    text "kernel_monotonic"
    ∷ text "precise_sync"
    ∷ text "network_sync"
    ∷ text "log_ms"
    ∷ text "log_s"
    ∷ []

-- `PRECISION_NS[timestamps]`
unfoldable pub precision_ns : Option Text → Result ℕ
precision_ns none = raised key_error
precision_ns (some t) =
    if t == text "kernel_monotonic"
    then ok 1000
    else if t == text "precise_sync"
    then ok 10000
    else if t == text "network_sync"
    then ok 1000000
    else if t == text "log_ms"
    then ok 1000000
    else if t == text "log_s"
    then ok 1000000000
    else raised key_error

-- Whether a point that sets a header of its own hides what its agent records.
unfoldable pub is_replaced : Text → Point → Bool
is_replaced header src = contains header src.sets && src.visibility == text "kernel"

-- The loop of `_wire_header`.
unfoldable pub wire_header_from : List Text → Point → Point → Option Text
wire_header_from [] src dst = none
wire_header_from (header ∷ rest) src dst =
    if contains header src.outbound && contains header dst.inbound && not (is_replaced header src)
    then some header
    else wire_header_from rest src dst

-- `_wire_header`
unfoldable pub wire_header : Point → Point → Option Text
wire_header src dst = wire_header_from headers src dst

-- `identifier in both`
unfoldable pub in_both : Text → Point → Point → Bool
in_both identifier src dst = contains identifier src.outbound && contains identifier dst.inbound

-- `.append(reason)` under a condition.
abbrev pub told_if : Bool → Reason → List Reason
told_if test reason = if test then reason ∷ [] else []

abbrev pub opt_eq : Option Text → Option Text → Bool
opt_eq none none = true
opt_eq (some a) (some b) = a == b
opt_eq _ _ = false

abbrev pub is_async : Hop → Bool
is_async hop = hop.relation == text "async"

-- `_missing`, of one link kind of a hop.
unfoldable pub missing : Hop → Point → Point → LinkKind → List Reason
missing hop src dst shared_header = told_if (not (is_some (wire_header src dst))) no_shared_header
missing hop src dst message_key =
    told_if (not (is_async hop) || not (in_both (text "message_id") src dst)) no_message_key
missing hop src dst same_connection =
    told_if (is_async hop) async_relation
    ++ told_if (not (in_both (text "tuple5") src dst)) missing_tuple5
    ++ told_if (not (hop.nat == text "none") && hop.nat_mapping == text "none") missing_nat_mapping
    ++ told_if (hop.pooling && not (in_both (text "h2_stream_id") src dst)) missing_stream_id
missing hop src dst same_socket =
    told_if (is_async hop) async_relation
    ++ told_if (not (in_both (text "socket_cookie") src dst)) missing_socket_cookie
    ++ told_if (not (src.host == dst.host)) cross_host_socket
missing hop src dst nested_timing =
    told_if (is_async hop) async_relation
    ++ (if src.visibility == text "none" || dst.visibility == text "none"
        then not_timestamped ∷ []
        else told_if (not (opt_eq src.clock dst.clock)) no_shared_clock)
missing hop src dst _ = []

-- `_HOP_LINKS`
abbrev pub hop_links : List (LinkKind × Evidence)
hop_links =
    (shared_header, authored)
    ∷ (message_key, authored)
    ∷ (same_connection, observed)
    ∷ (same_socket, observed)
    ∷ (nested_timing, derived)
    ∷ []

-- The first link kind whose conditions all hold.
unfoldable pub first_link :
    (LinkKind → List Reason) → List (LinkKind × Evidence) → LinkKind × Evidence
first_link lacks [] = (no_link, unresolved)
first_link lacks ((kind, level) ∷ rest) =
    if is_empty (lacks kind) then (kind, level) else first_link lacks rest

abbrev pub noise_of : Option ℕ → ℕ
noise_of none = 0
noise_of (some n) = n

-- The density of a hop that is derived from timing, when its rate is declared.
unfoldable pub density_of : Hop → Point → Point → LinkKind → Result (Option Fraction)
density_of hop src dst nested_timing = elim hop.rate [
  | none ↦ ok none
  | some rate ↦ do
    p ← precision_ns src.timestamps
    q ← precision_ns dst.timestamps
    ok (
        some (record {
          numerator = rate * max (max p q) (1000 * noise_of hop.noise_us);
          denominator = 1000000000;
        }))
]
density_of hop src dst _ = ok none

-- `key.get(link)`
unfoldable pub key_of : Point → Point → LinkKind → Option Text
key_of src dst shared_header = wire_header src dst
key_of src dst message_key = some (text "message_id")
key_of src dst _ = none

-- The identifiers of the second signal.
unfoldable pub observed_of : Hop → Point → Point → Option (List Text)
observed_of hop src dst =
    if is_empty (missing hop src dst same_connection) && hop.nat == text "none"
    then some (if hop.pooling then text "tuple5" ∷ text "h2_stream_id" ∷ [] else text "tuple5" ∷ [])
    else none

-- `_hop_ceiling`
unfoldable pub hop_ceiling : Hop → Point → Point → Result HopCeiling
hop_ceiling hop src dst = do
  let (link, evidence) = first_link (missing hop src dst) hop_links
  density ← density_of hop src dst link
  ok (record {
    src = hop.src;
    dst = hop.dst;
    relation = hop.relation;
    evidence = evidence;
    link = link;
    density = density;
    max_fanout = hop.max_fanout;
    key = key_of src dst link;
    observed = observed_of hop src dst;
  })

-- `{name for name, _who in point.propagates}`
unfoldable pub copied : List (Text × Text) → List Text
copied [] = []
copied ((name, who) ∷ rest) = name ∷ copied rest

-- Whether a point copies a header through as it came.
unfoldable pub is_copied : Point → Text → Bool
is_copied point header =
    contains header (copied point.propagates)
    && contains header point.inbound
    && contains header point.outbound
    && not (contains header point.sets)

unfoldable pub first_copied : Point → List Text → Option Text
first_copied point [] = none
first_copied point (header ∷ rest) =
    if is_copied point header then some header else first_copied point rest

-- `_crossing_ceiling`
unfoldable pub crossing_ceiling : Point → CrossingCeiling
crossing_ceiling point = elim (first_copied point (headers ++ text "message_id" ∷ [])) [
  | some header ↦ record {
    point = point.name;
    evidence = authored;
    link = propagated;
    key = some header;
  }
  | none ↦
      if point.visibility == text "kernel"
      then record { point = point.name; evidence = observed; link = inside_process; key = none }
      else if point.visibility == text "log" || point.visibility == text "app"
      then record { point = point.name; evidence = derived; link = logged_timing; key = none }
      else record { point = point.name; evidence = unresolved; link = no_link; key = none }
]
