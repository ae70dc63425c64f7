-- ===== src/Correlation/Exact.antt =====
-- Observations and their duplicates, of src/reconcileflow/correlation/exact.py. The rank of an
-- observation in its source is a natural number; a source, a side and a value are texts, so that
-- only the tests on their content can fail.
pub mod Join
pub mod Links
pub mod Carriers
pub mod Facts
pub mod Sound
pub mod Duplicates
pub mod Consistent
pub mod Reading
pub mod Values
pub mod Invariance
pub mod Order
use reconcileflow.Base.{
  ℕ, ◌+◌, ◌≡◌, refl, ap, Bool, true, false, ◌&&◌, not, Option, none, some, List, [], ◌∷◌, ◌++◌, map,
  is_empty, if◌then◌else◌,
}
use reconcileflow.Base.Order.{
  Ord, Text, nat_ord, list_ord, lex, lex_total, lex_trans, lex_antisymm, ◌<=◌, ◌==◌, contains,
}
use reconcileflow.Base.Sorting.{sort_by}
use reconcileflow.Base.Dict.{Dict, keys, find, alter}
use reconcileflow.Base.Text.{text}
use reconcileflow.Base.Raised.{Result, ok, raised, value_error, ◌>>=◌}
use reconcileflow.Correlation.Topology.{identifiers, Point, Topology}

-- `SIDES`
abbrev pub sides : List Text
sides = text "inbound" ∷ text "outbound" ∷ []

-- `(source, seq)`
abbrev pub Identity : Type 0
Identity = Text × ℕ

abbrev pub identity_code : Identity → List Text
identity_code (source, seq) = source ∷ (seq ∷ []) ∷ []

pub identity_code_injective :
    (a b : Identity)
    → lex (identity_code a) (identity_code b) ≡ true
    → lex (identity_code b) (identity_code a) ≡ true
    → a ≡ b
identity_code_injective (s, n) (t, m) h k =
    let e = lex_antisymm (identity_code (s, n)) (identity_code (t, m)) h k in cc

instance abbrev pub identity_ord : Ord Identity
identity_ord = record {
  before = λ a b. lex (identity_code a) (identity_code b);
  total = λ a b. lex_total (identity_code a) (identity_code b);
  trans = λ a b c. lex_trans (identity_code a) (identity_code b) (identity_code c);
  antisymm = identity_code_injective;
}

pub record Observation : Type 0 where
  pub source : Text
  pub seq : ℕ
  pub point : Text
  pub side : Text
  pub keys : Dict Text Text

abbrev pub identity : Observation → Identity
identity obs = (obs.source, obs.seq)

-- The identifiers and their values are known and not empty.
unfoldable pub are_known : Dict Text Text → Bool
are_known [] = true
are_known ((key, value) ∷ rest) = contains key identifiers && not (is_empty value) && are_known rest

-- `_validate`
unfoldable pub is_valid : List Text → Observation → Bool
is_valid points obs = contains obs.point points && contains obs.side sides && are_known obs.keys

unfoldable pub items : Dict Text Text → List (List Text)
items [] = []
items ((key, value) ∷ rest) = (key ∷ value ∷ []) ∷ items rest

-- `(obs.point, obs.side, tuple(sorted(obs.keys.items())))`
unfoldable pub content : Observation → List (List Text)
content obs = (obs.point ∷ obs.side ∷ []) ∷ sort_by ◌<=◌ (items obs.keys)

unfoldable pub point_names : List Point → List Text
point_names [] = []
point_names (p ∷ points) = p.name ∷ point_names points

-- What the loop over the observations carries.
pub record Dedup : Type 0 where
  pub seen : Dict Identity (List (List Text))
  pub distinct : List Observation
  pub dropped : ℕ

-- A new observation is noted and kept.
abbrev pub take_new : Observation → Dedup → Dedup
take_new obs s = record s {
  seen = alter (content obs) (identity obs) (λ _. content obs) s.seen;
  distinct = s.distinct ++ obs ∷ [];
}

-- A duplicate is only counted.
abbrev pub drop : Dedup → Dedup
drop s = record s { dropped = s.dropped + 1 }

-- One observation: new, delivered again, or delivered with other content.
unfoldable pub dedup_one : List Text → Observation → Dedup → Result Dedup
dedup_one points obs s =
    if is_valid points obs
    then (elim (find (identity obs) s.seen) [
      | none ↦ ok (take_new obs s)
      | some before ↦ if before == content obs then ok (drop s) else raised value_error
    ])
    else raised value_error

unfoldable pub dedup_all : List Text → List Observation → Dedup → Result Dedup
dedup_all points [] s = ok s
dedup_all points (obs ∷ rest) s = do s' ← dedup_one points obs s; dedup_all points rest s'

-- `_deduplicated`
unfoldable pub deduplicated : Topology → List Observation → Result Dedup
deduplicated topology observations =
    dedup_all (point_names topology.points) observations
      (record { seen = []; distinct = []; dropped = 0 })
