-- ===== src/Stream.antt =====
-- The data of src/reconcileflow/stream.py. A side is one of two values, so `_check_side` and the
-- entries of another type have no counterpart here.
pub mod Watermark
pub mod Components
pub mod Evaluate
pub mod Emit
pub mod Settle
pub mod Replay
pub mod Results
pub mod History
pub mod Chained
pub mod Arrivals
pub mod Ends
pub mod Termination
use reconcileflow.Base.{ℕ, ◌≡◌, refl, ap, Bool, true, Option, none, some, List, [], ◌∷◌, arith}
use reconcileflow.Base.Order.{Ord, Text, nat_ord, list_ord, lex, lex_total, lex_trans, lex_antisymm}
use reconcileflow.Base.Dict.{Dict}
use reconcileflow.Base.Text.{text, join}
use reconcileflow.Models.Rule.{RuleId}
use reconcileflow.Models.Digests.{rule_name, reason_name}
use reconcileflow.Models.{Record, Tolerance, RejectReason}
use mathlib.Core.List.{map}

pub data Side : Type 0 where
  left right : Side

abbrev pub other : Side → Side
other left = right
other right = left

-- A value for each side, as the source's dicts by side.
pub record PerSide {ℓ} (A : Type ℓ) : Type ℓ where
  pub on_left : A
  pub on_right : A

abbrev pub on {ℓ} : {A : Type ℓ} → Side → PerSide A → A
on left p = p.on_left
on right p = p.on_right

abbrev pub put {ℓ} : {A : Type ℓ} → Side → A → PerSide A → PerSide A
put left a p = record p { on_left = a }
put right a p = record p { on_right = a }

abbrev pub both {ℓ} : {A : Type ℓ} → A → PerSide A
both a = record { on_left = a; on_right = a }

-- `(side, record id)`
abbrev pub BusinessKey : Type 0
BusinessKey = Side × Text

-- "left" comes before "right"; then the ids decide.
abbrev pub key_code : BusinessKey → Text
key_code (left, id) = 0 ∷ id
key_code (right, id) = 1 ∷ id

pub key_code_injective :
    (a b : BusinessKey)
    → lex (key_code a) (key_code b) ≡ true
    → lex (key_code b) (key_code a) ≡ true
    → a ≡ b
key_code_injective (left, i) (left, j) h k = let e = lex_antisymm (0 ∷ i) (0 ∷ j) h k in cc
key_code_injective (left, i) (right, j) h k =
    let e = lex_antisymm (0 ∷ i) (1 ∷ j) h k in absurd (ground arith)
key_code_injective (right, i) (left, j) h k =
    let e = lex_antisymm (1 ∷ i) (0 ∷ j) h k in absurd (ground arith)
key_code_injective (right, i) (right, j) h k = let e = lex_antisymm (1 ∷ i) (1 ∷ j) h k in cc

instance abbrev pub key_ord : Ord BusinessKey
key_ord = record {
  before = λ a b. lex (key_code a) (key_code b);
  total = λ a b. lex_total (key_code a) (key_code b);
  trans = λ a b c. lex_trans (key_code a) (key_code b) (key_code c);
  antisymm = key_code_injective;
}

-- `source` and `captured_at`, which a replay never reads, are left out.
pub data Entry : Type 0 where
  arrival : Side → Record → Entry
  progress : Side → ℕ → Entry

-- SUPERSEDED is derived, never written.
pub data Status : Type 0 where
  provisional final superseded : Status

pub data DecisionType : Type 0 where
  match_type break_type : DecisionType

-- The texts that `reason` takes, by where they come from.
pub data Reason : Type 0 where
  by_rule : RuleId → Reason
  as_counterpart late reference_after_final : Reason
  rejected : List RejectReason → Reason

abbrev pub reason_text : Reason → Text
reason_text (by_rule rule) = rule_name rule
reason_text as_counterpart = text "AS_COUNTERPART"
reason_text late = text "LATE"
reason_text reference_after_final = text "REFERENCE_AFTER_FINAL"
reason_text (rejected reasons) = join (text "+") (map reason_name reasons)

abbrev pub type_text : DecisionType → Text
type_text match_type = text "MATCH"
type_text break_type = text "BREAK"

pub record StreamConfig : Type 0 where
  pub tolerance : Tolerance
  pub lateness_days : ℕ
  pub reference_horizon_days : Option ℕ
  pub max_component_days : Option ℕ

-- `ruleset_id` and `engine_version`, the same for every decision of a replay, are left out.
pub record Decision : Type 0 where
  pub decision_id : Text
  pub business_key : BusinessKey
  pub chain_version : ℕ
  pub status : Status
  pub decision_type : DecisionType
  pub input_ids : List Text
  pub reason : Reason
  pub window_end : ℕ
  pub decided_at : ℕ
  pub final_at : Option ℕ
  pub supersedes : Option Text
  pub forced : Bool

pub record Proposal : Type 0 where
  pub decision_type : DecisionType
  pub input_ids : List Text
  pub reason : Reason
  pub window_end : ℕ

pub record StreamResult : Type 0 where
  pub decisions : List Decision
  pub duplicates : ℕ

-- The open records of a block, the latest date of each side, and the references of the records
-- that each side has withdrawn as final.
pub record BlockState : Type 0 where
  pub pool : PerSide (Dict Text Record)
  pub latest : PerSide (Option ℕ)
  pub final_references : PerSide (List Text)

abbrev pub empty_block : BlockState
empty_block = record { pool = both []; latest = both none; final_references = both [] }
