-- ===== src/Models.antt =====
-- The core types of src/reconcileflow/models.py. A `date` is its ordinal, a text the sequence of
-- its code points. The integer parameters are taken to be non-negative.
pub mod Rule
pub mod Counters
pub mod Digests
use reconcileflow.Base.{ℕ, Option, List}
use reconcileflow.Base.Order.{Text}
use reconcileflow.Decimal.{Decimal}
use Rule.{RuleId}
use Counters.{Counter}

pub data RejectReason : Type 0 where
  no_candidate date_out_of_window amount_out_of_tolerance : RejectReason
  lost_to_better_candidate aggregate_not_found block_too_large : RejectReason

pub record Record : Type 0 where
  pub id : Text
  pub account : Text
  pub amount : Decimal
  pub value_date : ℕ
  pub reference : Option Text
  pub currency : Option Text

pub record Tolerance : Type 0 where
  pub amount_abs : Decimal
  pub amount_rel : Decimal
  pub date_days : ℕ
  pub max_aggregate_size : ℕ
  pub max_block_candidates : ℕ

pub record Match : Type 0 where
  pub left_id : Text
  pub right_ids : List Text
  pub rule : RuleId
  pub score : Decimal
  pub amount_residual : Decimal
  pub date_gap_days : ℕ

pub record Reject : Type 0 where
  pub left_id : Text
  pub right_id : Option Text
  pub reason : RejectReason

-- `ruleset_id` is a digest of the tolerance's printed form, and is left out.
pub record MatchResult : Type 0 where
  pub matches : List Match
  pub rejects : List Reject
  pub counters : Counter
