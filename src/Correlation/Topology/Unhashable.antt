-- ===== src/Correlation/Topology/Unhashable.antt =====
-- A declaration that no refusal answers: a list or a table where an end of a hop should stand.
use reconcileflow.Base.{◌≡◌, refl, ◌∙◌, ap, ◌⊎◌, inl, inr, true, some, List, [], ◌∷◌, ◌++◌}
use reconcileflow.Base.Order.{Text, nat_ord, list_ord}
use reconcileflow.Base.Text.{text}
use reconcileflow.Base.Raised.{ok, raised, type_error}
use reconcileflow.Correlation.Topology.{Reason, unknown_field, Refusal}
use reconcileflow.Correlation.Topology.Rules.{refusal_at, arrow}
use reconcileflow.Correlation.Topology.Toml.{
  Value, text_value, list_value, table_value, Values, Table, Python, lookup, refuse_each, set_minus,
  table_keys, check_fields,
}
use reconcileflow.Correlation.Topology.Parse.{is_member, shown, check_end, parse_hop, hop_fields}

-- Recording a refusal for each name ends without an exception.
refuse_each-eq-ok :
    (py : Python) (place : Text) (reason : Reason) (prefix : Text) (names : List Text)
    → (rs : List Refusal) × (refuse_each py place reason prefix names ≡ ok (rs, true))
unfolding refuse_each
refuse_each-eq-ok py place reason prefix [] = ([], refl)
refuse_each-eq-ok py place reason prefix (name ∷ rest) =
    let (rs, e) = refuse_each-eq-ok py place reason prefix rest in
    (refusal_at place reason (prefix ++ py.repr (text_value name)) ∷ rs, rw e refl)

check_fields-eq-ok :
    (py : Python) (place : Text) (t : Table) (allowed : List Text)
    → (rs : List Refusal) × (check_fields py place t allowed ≡ ok (rs, true))
unfolding check_fields
check_fields-eq-ok py place t allowed =
    refuse_each-eq-ok py place unknown_field (text "unknown field ")
      (set_minus (table_keys t) allowed)

-- A hop whose `from` is a list or a table makes `_parse_hop` raise `TypeError`, which is no refusal:
-- the membership test of a set needs a hashable value. So `load` does not report all that is
-- wrong with such a declaration, as it does for a number in the same place.
pub parse_hop-unhashable :
    (py : Python) (raw : Table) (known : List Text) (v : Value)
    → lookup (text "from") raw ≡ some v
    → ((vs : Values) × (v ≡ list_value vs)) ⊎ ((t : Table) × (v ≡ table_value t))
    → parse_hop py raw known ≡ raised type_error
unfolding parse_hop check_end is_member
parse_hop-unhashable py raw known v e (inl (vs, q)) =
    let e' : lookup (text "from") raw ≡ some (list_value vs) = e ∙ ap some q in
    let place = arrow (shown py (some (list_value vs))) (shown py (lookup (text "to") raw)) in
    let (rs, f) = check_fields-eq-ok py place raw hop_fields in rw (e', f) refl
parse_hop-unhashable py raw known v e (inr (t, q)) =
    let e' : lookup (text "from") raw ≡ some (table_value t) = e ∙ ap some q in
    let place = arrow (shown py (some (table_value t))) (shown py (lookup (text "to") raw)) in
    let (rs, f) = check_fields-eq-ok py place raw hop_fields in rw (e', f) refl
