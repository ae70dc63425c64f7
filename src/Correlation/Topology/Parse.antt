-- ===== src/Correlation/Topology/Parse.antt =====
-- The parsing of a declaration, of src/reconcileflow/correlation/topology.py. An exception that is
-- not a refusal stays one: a list or a table is not hashable, so that its test for membership of a
-- set raises `TypeError`.
use reconcileflow.Base.{
  Bool, true, false, ◌&&◌, not, Option, none, some, List, [], ◌∷◌, ◌++◌, is_empty, eqb,
  if◌then◌else◌,
}
use mathlib.Core.Option
use reconcileflow.Base.Int.{magnitude}
use reconcileflow.Base.Dict.{Dict}
use reconcileflow.Base.Order.{Text, nat_ord, list_ord, ◌<=◌, ◌==◌, contains}
use reconcileflow.Base.Sorting.{sort_by}
use reconcileflow.Base.Text.{text}
use reconcileflow.Base.Raised.{Result, raised, ok, type_error}
use reconcileflow.Correlation.Topology.{
  Evidence, unresolved, derived, observed, authored, missing_field, unknown_value,
  unknown_identifier, invalid_value, unknown_point, duplicate_hop, fanout_unbounded, carried,
  identifiers, Point, Hop,
}
use reconcileflow.Correlation.Topology.Ceiling.{precision_names}
use reconcileflow.Correlation.Topology.Rules.{arrow}
use reconcileflow.Correlation.Topology.Toml.{
  Value, text_value, int_value, bool_value, other_value, list_value, table_value, Values, no_values,
  value_and, Table, no_entries, entry_and, Python, Parsed, ◌>>=◌, ◌>>◌, done, lookup, table_keys,
  is_in_table, refuse, refuse_when, check_fields, read_text, read_choice, read_flag, read_integer,
  read_identifiers,
}

-- `VISIBILITY`, `PROPAGATORS`, `RELATIONS`, `NATS`, `NAT_MAPPINGS`
abbrev pub visibilities : List Text
visibilities = text "kernel" ∷ text "log" ∷ text "app" ∷ text "none" ∷ []

abbrev pub propagators : List Text
propagators = text "agent" ∷ text "app" ∷ text "proxy" ∷ []

abbrev pub relations : List Text
relations = text "call" ∷ text "async" ∷ text "fanout" ∷ []

abbrev pub nats : List Text
nats = text "none" ∷ text "snat" ∷ text "dnat" ∷ []

abbrev pub nat_mappings : List Text
nat_mappings = text "none" ∷ text "conntrack" ∷ text "logged_both_sides" ∷ []

abbrev pub evidences : List Text
evidences = text "unresolved" ∷ text "derived" ∷ text "observed" ∷ text "authored" ∷ []

abbrev pub point_fields : List Text
point_fields =
    text "host"
    ∷ text "visibility"
    ∷ text "clock"
    ∷ text "timestamps"
    ∷ text "inbound"
    ∷ text "outbound"
    ∷ text "propagates"
    ∷ text "sets"
    ∷ text "trusts_incoming"
    ∷ []

abbrev pub hop_fields : List Text
hop_fields =
    text "from"
    ∷ text "to"
    ∷ text "relation"
    ∷ text "nat"
    ∷ text "nat_mapping"
    ∷ text "pooling"
    ∷ text "rate"
    ∷ text "noise_us"
    ∷ text "expect"
    ∷ text "max_fanout"
    ∷ []

-- `value in names`, where `names` is a set.
unfoldable pub is_member : Value → List Text → Result Bool
is_member (text_value s) names = ok (contains s names)
is_member (list_value vs) names = raised type_error
is_member (table_value t) names = raised type_error
is_member _ names = ok false

-- An answer that records no refusal.
abbrev pub asked : Result Bool → Parsed Bool
asked (raised e) = raised e
asked (ok b) = done b

-- `visibility not in (None, "none")`
abbrev pub is_timed : Option Text → Bool
is_timed none = false
is_timed (some v) = not (v == text "none")

-- `Evidence[expect.upper()]`
unfoldable pub evidence_of : Text → Evidence
evidence_of s =
    if s == text "authored"
    then authored
    else if s == text "observed"
    then observed
    else if s == text "derived"
    then derived
    else unresolved

-- `bool(value)`
unfoldable pub is_true : Value → Bool
is_true (text_value s) = not (is_empty s)
is_true (int_value n) = not (eqb (magnitude n) 0)
is_true (bool_value b) = b
is_true (other_value b s) = b
is_true (list_value no_values) = false
is_true (list_value (value_and v vs)) = true
is_true (table_value no_entries) = false
is_true (table_value (entry_and k v t)) = true

-- A value that is a text; nothing is built from another one.
abbrev pub text_in : Option Value → Text
text_in (some (text_value s)) = s
text_in _ = []

abbrev pub text_or_empty : Option Text → Text
text_or_empty (some s) = s
text_or_empty none = []

-- `None if len(refusals) > before else ...`
abbrev pub unless_refused {ℓ} : {A : Type ℓ} → Parsed A → Parsed (Option A)
unless_refused (raised e) = raised e
unless_refused (ok (rs, a)) = ok (rs, if is_empty rs then some a else none)

abbrev pub is_fanout : Option Text → Bool
is_fanout none = false
is_fanout (some r) = r == text "fanout"

-- `points[name] = point`, of sorted names.
abbrev pub keep_point : Text → Option Point → Dict Text Point → Dict Text Point
keep_point name none points = points
keep_point name (some p) points = (name, p) ∷ points

-- The pairs of ends, each pair as a list of two.
unfoldable pub ends_of : List Hop → List (List Text)
ends_of [] = []
ends_of (hop ∷ hops) = (hop.src ∷ hop.dst ∷ []) ∷ ends_of hops

module _ (py : Python) where
  -- `src or '?'`, printed
  unfoldable pub shown : Option Value → Text
  shown none = text "?"
  shown (some (text_value s)) = if is_empty s then text "?" else s
  shown (some v) = if is_true v then py.str v else text "?"

  -- `src is not None and src == dst`
  unfoldable pub same_ends : Option Value → Option Value → Bool
  same_ends (some (text_value a)) (some (text_value b)) = a == b
  same_ends (some v) (some w) = py.equal v w
  same_ends _ _ = false

  abbrev pub unknown_who : Text → Text → Value → Parsed (List (Text × Text))
  unknown_who place key v = do
    refuse py place unknown_value (text "propagates." ++ key ++ text " = " ++ py.repr v)
    done []

  -- Who copies an identifier.
  unfoldable pub read_who : Text → Text → Value → Parsed (List (Text × Text))
  read_who place key v = do
    known ← asked (is_member v propagators)
    if known then done ((key, text_in (some v)) ∷ []) else unknown_who place key v

  -- One entry of `propagates`.
  unfoldable pub read_carried_one : Text → Text → Option Value → Parsed (List (Text × Text))
  read_carried_one place key none = done []
  read_carried_one place key (some v) = elim (contains key carried) [
    | true ↦ read_who place key v
    | false ↦ do
      refuse py place unknown_identifier
          (text "propagates: unknown identifier " ++ py.repr (text_value key))
      done []
  ]

  -- The loop over the sorted keys of `propagates`.
  unfoldable pub read_carried : Text → Table → List Text → Parsed (List (Text × Text))
  read_carried place t [] = done []
  read_carried place t (key ∷ rest) = do
    one ← read_carried_one place key (lookup key t)
    others ← read_carried place t rest
    done (one ++ others)

  -- `raw.get("propagates", {})`
  unfoldable pub read_propagates : Text → Table → Parsed (List (Text × Text))
  read_propagates place raw = elim (lookup (text "propagates") raw) [
    | none ↦ done []
    | some (table_value t) ↦ read_carried place t (sort_by ◌<=◌ (table_keys t))
    | some v ↦ do
      refuse py place invalid_value (text "propagates must be a table: identifier = who copies it")
      done []
  ]

  -- `_parse_point`
  unfoldable pub parse_point : Text → Table → Parsed (Option Point)
  parse_point name raw = unless_refused (do
    check_fields py name raw point_fields
    host ← read_text py name raw (text "host") true none
    visibility ← read_choice py name raw (text "visibility") visibilities true none
    clock ← read_text py name raw (text "clock") (is_timed visibility) none
    timestamps ←
        read_choice py name raw (text "timestamps") precision_names (is_timed visibility) none
    inbound ← read_identifiers py name raw (text "inbound") identifiers
    outbound ← read_identifiers py name raw (text "outbound") identifiers
    sets ← read_identifiers py name raw (text "sets") carried
    trusts ← read_flag py name raw (text "trusts_incoming") true
    propagates ← read_propagates name raw
    done (record {
      name = name;
      host = text_or_empty host;
      visibility = text_or_empty visibility;
      clock = clock;
      timestamps = timestamps;
      inbound = inbound;
      outbound = outbound;
      propagates = propagates;
      sets = sets;
      trusts_incoming = trusts;
    }))

  -- The test of an end of a hop.
  unfoldable pub check_end : Text → Text → Option Value → List Text → Parsed Bool
  check_end place key none known = refuse py place missing_field (key ++ text " is required")
  check_end place key (some v) known = do
    declared ← asked (is_member v known)
    refuse_when py place (not declared) unknown_point
        (key ++ text " = " ++ py.repr v ++ text " is not a declared point")

  -- `_parse_hop`
  unfoldable pub parse_hop : Table → List Text → Parsed (Option Hop)
  parse_hop raw known =
      let src = lookup (text "from") raw in
      let dst = lookup (text "to") raw in
      let place = arrow (shown src) (shown dst) in
      unless_refused (do
        check_fields py place raw hop_fields
        check_end place (text "from") src known
        check_end place (text "to") dst known
        refuse_when py place (same_ends src dst) invalid_value
            (text "a hop joins two different points")
        relation ← read_choice py place raw (text "relation") relations false (some (text "call"))
        nat ← read_choice py place raw (text "nat") nats false (some (text "none"))
        nat_mapping ←
            read_choice py place raw (text "nat_mapping") nat_mappings false (some (text "none"))
        pooling ← read_flag py place raw (text "pooling") false
        rate ← read_integer py place raw (text "rate") 1
        noise ← read_integer py place raw (text "noise_us") 0
        expect ← read_choice py place raw (text "expect") evidences false none
        max_fanout ← read_integer py place raw (text "max_fanout") 1
        refuse_when py place (is_fanout relation && not (is_in_table (text "max_fanout") raw))
            fanout_unbounded (text "a fanout hop needs max_fanout")
        refuse_when py place (not (is_fanout relation) && is_in_table (text "max_fanout") raw)
            invalid_value (text "max_fanout applies to a fanout hop only")
        done (record {
          src = text_in src;
          dst = text_in dst;
          relation = text_or_empty relation;
          nat = text_or_empty nat;
          nat_mapping = text_or_empty nat_mapping;
          pooling = pooling;
          rate = rate;
          noise_us = noise;
          expect = Option.map evidence_of expect;
          max_fanout = max_fanout;
        }))

  unfoldable pub parse_point_value : Text → Option Value → Parsed (Option Point)
  parse_point_value name (some (table_value raw)) = parse_point name raw
  parse_point_value name v = do
    refuse py name invalid_value (text "a point must be a table")
    done none

  -- The points, by sorted name; what is no table is refused.
  unfoldable pub parse_points : Table → List Text → Parsed (Dict Text Point)
  parse_points raw [] = done []
  parse_points raw (name ∷ rest) = do
    point ← parse_point_value name (lookup name raw)
    others ← parse_points raw rest
    done (keep_point name point others)

  -- `declaration.get("points")`
  unfoldable pub read_points : Table → Parsed Table
  read_points declaration = elim (lookup (text "points") declaration) [
    | none ↦ do refuse py [] missing_field (text "points is required"); done no_entries
    | some (table_value (entry_and k v t)) ↦ done (entry_and k v t)
    | some v ↦ do
      refuse py [] invalid_value (text "points must be a non-empty table")
      done no_entries
  ]

  -- `declaration.get("hops", [])`
  unfoldable pub read_hops : Table → Parsed Values
  read_hops declaration = elim (lookup (text "hops") declaration) [
    | none ↦ done no_values
    | some (list_value vs) ↦ done vs
    | some v ↦ do refuse py [] invalid_value (text "hops must be a list of tables"); done no_values
  ]

  -- A hop that is not declared twice.
  unfoldable pub check_seen : List (List Text) → Option Hop → Parsed (List Hop)
  check_seen seen none = done []
  check_seen seen (some hop) = elim (contains (hop.src ∷ hop.dst ∷ []) seen) [
    | true ↦ do refuse py (arrow hop.src hop.dst) duplicate_hop (text "declared twice"); done []
    | false ↦ done (hop ∷ [])
  ]

  -- One hop of the list.
  unfoldable pub parse_hop_value : List Text → List (List Text) → Value → Parsed (List Hop)
  parse_hop_value known seen (table_value raw) = do hop ← parse_hop raw known; check_seen seen hop
  parse_hop_value known seen v = do
    refuse py [] invalid_value (text "a hop must be a table")
    done []

  -- The loop over the hops; the ends of those taken are `seen`.
  unfoldable pub parse_hops : List Text → List (List Text) → Values → Parsed (List Hop)
  parse_hops known seen no_values = done []
  parse_hops known seen (value_and v vs) = do
    taken ← parse_hop_value known seen v
    others ← parse_hops known (seen ++ ends_of taken) vs
    done (taken ++ others)

  -- `_parse`
  unfoldable pub parse : Table → Parsed (Dict Text Point × List Hop)
  parse declaration = do
    check_fields py [] declaration (text "points" ∷ text "hops" ∷ [])
    raw_points ← read_points declaration
    points ← parse_points raw_points (sort_by ◌<=◌ (table_keys raw_points))
    raw_hops ← read_hops declaration
    hops ← parse_hops (table_keys raw_points) [] raw_hops
    done (points, hops)
