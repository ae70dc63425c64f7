-- ===== src/Correlation/Topology/Toml.antt =====
-- The values of a declaration that `tomllib` has read, and `_Fields` of
-- src/reconcileflow/correlation/topology.py, which reads one table and records every refusal. What
-- Python prints of a value, and its `==` on values that are not texts, are parameters.
use reconcileflow.Base.{
  ℕ, Bool, true, false, ◌||◌, not, Option, none, some, List, [], ◌∷◌, ◌++◌, keep, if◌then◌else◌,
}
use reconcileflow.Base.Int.{ℤ, pos, leb_ℤ, magnitude}
use reconcileflow.Base.Order.{Text, nat_ord, list_ord, ◌<=◌, ◌==◌, contains}
use reconcileflow.Base.Sorting.{sort_by}
use reconcileflow.Base.Text.{text, decimal_text}
use reconcileflow.Base.Raised.{Result, raised, ok}
use reconcileflow.Correlation.Topology.{
  Reason, missing_field, unknown_field, unknown_value, unknown_identifier, invalid_value, Refusal,
}
use reconcileflow.Correlation.Topology.Rules.{refusal_at}

mutual
  pub data Value : Type 0 where
    text_value : Text → Value
    int_value : ℤ → Value
    bool_value : Bool → Value
    -- A float, a date or a time: whether it is true, and its text.
    other_value : Bool → Text → Value
    list_value : Values → Value
    table_value : Table → Value

  pub data Values : Type 0 where
    no_values : Values
    value_and : Value → Values → Values

  pub data Table : Type 0 where
    no_entries : Table
    entry_and : Text → Value → Table → Table

-- What Python shows of values: `repr`, `str`, `==`, and the `repr` of a list of texts.
pub record Python : Type 0 where
  pub repr : Value → Text
  pub str : Value → Text
  pub equal : Value → Value → Bool
  pub repr_names : List Text → Text

-- A parse goes on with refusals recorded, or raises an exception that is not a refusal.
abbrev pub Parsed {ℓ} : Type ℓ → Type ℓ
Parsed A = Result (List Refusal × A)

infixl 5 ◌>>=◌ ◌>>◌
abbrev pub ◌>>=◌ {ℓ κ} : {A : Type ℓ} {B : Type κ} → Parsed A → (A → Parsed B) → Parsed B
raised e >>= f = raised e
ok (rs, a) >>= f = elim (f a) [ raised e ↦ raised e | ok (ss, b) ↦ ok (rs ++ ss, b) ]

abbrev pub ◌>>◌ {ℓ κ} : {A : Type ℓ} {B : Type κ} → Parsed A → Parsed B → Parsed B
m >> k = m >>= (λ _. k)

abbrev pub done {ℓ} : {A : Type ℓ} → A → Parsed A
done a = ok ([], a)

-- `table.get(key)`
unfoldable pub lookup : Text → Table → Option Value
lookup key no_entries = none
lookup key (entry_and k v t) = if k == key then some v else lookup key t

unfoldable pub table_keys : Table → List Text
table_keys no_entries = []
table_keys (entry_and k v t) = k ∷ table_keys t

abbrev pub is_in_table : Text → Table → Bool
is_in_table key t = elim (lookup key t) [ none ↦ false | some _ ↦ true ]

-- The texts of a list, if it holds nothing else.
unfoldable pub texts_of : Values → Option (List Text)
texts_of no_values = some []
texts_of (value_and (text_value s) vs) = elim (texts_of vs) [
  | none ↦ none
  | some ss ↦ some (s ∷ ss)
]
texts_of (value_and _ vs) = none

unfoldable pub has_twice : List Text → Bool
has_twice [] = false
has_twice (x ∷ xs) = contains x xs || has_twice xs

unfoldable pub distinct_names : List Text → List Text
distinct_names [] = []
distinct_names (x ∷ xs) = if contains x xs then distinct_names xs else x ∷ distinct_names xs

-- `sorted(set(xs) - allowed)`
unfoldable pub set_minus : List Text → List Text → List Text
set_minus xs allowed = sort_by ◌<=◌ (distinct_names (keep (λ x. not (contains x allowed)) xs))

-- `value is default`
abbrev pub is_default : Text → Option Text → Bool
is_default s none = false
is_default s (some d) = s == d

module _ (py : Python) (place : Text) where
  -- `refuse`
  abbrev pub refuse : Reason → Text → Parsed Bool
  refuse reason detail = ok (refusal_at place reason detail ∷ [], true)

  abbrev pub refuse_when : Bool → Reason → Text → Parsed Bool
  refuse_when test reason detail = if test then refuse reason detail else done false

  -- A refusal for each name.
  unfoldable pub refuse_each : Reason → Text → List Text → Parsed Bool
  refuse_each reason prefix [] = done true
  refuse_each reason prefix (name ∷ rest) = do
    refuse reason (prefix ++ py.repr (text_value name))
    refuse_each reason prefix rest

  -- `__init__`
  unfoldable pub check_fields : Table → List Text → Parsed Bool
  check_fields t allowed =
      refuse_each unknown_field (text "unknown field ") (set_minus (table_keys t) allowed)

  -- The test of `choice` on a value.
  unfoldable pub check_choice : Text → List Text → Option Text → Option Text → Parsed (Option Text)
  check_choice key allowed default none = done none
  check_choice key allowed default (some s) =
      if is_default s default || contains s allowed then done (some s) else (do
        refuse unknown_value (
            key
            ++ text " = "
            ++ py.repr (text_value s)
            ++ text ", expected one of "
            ++ py.repr_names (sort_by ◌<=◌ allowed))
        done default)

  abbrev pub bad_integer : Text → ℕ → Value → Parsed (Option ℕ)
  bad_integer key minimum v = do
    refuse invalid_value (
        key ++ text " must be an integer >= " ++ decimal_text minimum ++ text ", got " ++ py.repr v)
    done none

  abbrev pub bad_identifiers : Text → Parsed (List Text)
  bad_identifiers key = do
    refuse invalid_value (key ++ text " must be a list of identifiers")
    done []

  module _ (t : Table) where
    -- `text`
    unfoldable pub read_text : Text → Bool → Option Text → Parsed (Option Text)
    read_text key required default = elim (lookup key t) [
      | none ↦ do refuse_when required missing_field (key ++ text " is required"); done default
      | some (text_value s) ↦ done (some s)
      | some v ↦ do
        refuse invalid_value (key ++ text " must be a string, got " ++ py.repr v)
        done default
    ]

    -- `choice`
    unfoldable pub read_choice : Text → List Text → Bool → Option Text → Parsed (Option Text)
    read_choice key allowed required default = do
      value ← read_text key required default
      check_choice key allowed default value

    -- `flag`
    unfoldable pub read_flag : Text → Bool → Parsed Bool
    read_flag key default = elim (lookup key t) [
      | none ↦ done default
      | some (bool_value b) ↦ done b
      | some v ↦ do
        refuse invalid_value (key ++ text " must be true or false, got " ++ py.repr v)
        done default
    ]

    -- `integer`
    unfoldable pub read_integer : Text → ℕ → Parsed (Option ℕ)
    read_integer key minimum = elim (lookup key t) [
      | none ↦ done none
      | some (int_value n) ↦
          if leb_ℤ (pos minimum) n
          then done (some (magnitude n))
          else bad_integer key minimum (int_value n)
      | some v ↦ bad_integer key minimum v
    ]

    -- `identifiers`
    unfoldable pub read_identifiers : Text → List Text → Parsed (List Text)
    read_identifiers key allowed = elim (lookup key t) [
      | none ↦ done []
      | some (list_value vs) ↦ elim (texts_of vs) [
        | none ↦ bad_identifiers key
        | some names ↦ do
          refuse_when (has_twice names) invalid_value (key ++ text " lists an identifier twice")
          refuse_each unknown_identifier (key ++ text ": unknown identifier ")
              (set_minus names allowed)
          done (keep (λ n. contains n allowed) names)
      ]
      | some v ↦ bad_identifiers key
    ]
