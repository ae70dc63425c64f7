-- ===== src/Observation.antt =====
-- The data and the checks of src/reconcileflow/observation.py. A day is the ordinal of a date, from
-- 1. A side is one of two values, and a capture time is kept as the UTC day it falls on, when it
-- has one; the conversion is datetime's.
pub mod Wilson
pub mod Series
pub mod Drift
pub mod Alerts
pub mod Observe
pub mod Conserved
pub mod Returns
use reconcileflow.Base.{
  ℕ, ◌≡◌, refl, Bool, true, false, ◌&&◌, Option, List, [], ◌∷◌, leb, if◌then◌else◌,
}
use reconcileflow.Base.Int.{pos}
use reconcileflow.Base.Order.{Ord, Text, nat_ord, list_ord, lex, lex_total, lex_trans, lex_antisymm}
use reconcileflow.Base.Text.{text}
use reconcileflow.Base.Raised.{Result, ok, raised, value_error}
use reconcileflow.Decimal.{Decimal, le, lt, decimal_zero, decimal_one}
use reconcileflow.Models.Digests.{digest}
use reconcileflow.Stream.{Side, left, right}

-- What is not of this repository: the square root of a decimal, the digest of a text, the printed
-- form of a decimal and of a date; and what the caller's decimal context makes of a difference, a
-- sum and `quantize(_PLACES)`, which may raise.
pub record Outside : Type 0 where
  pub sqrt : Decimal → Decimal
  pub hash : Text → Text
  pub show : Decimal → Text
  pub iso : ℕ → Text
  pub minus : Decimal → Decimal → Result Decimal
  pub plus : Decimal → Decimal → Result Decimal
  pub quantized : Decimal → Result Decimal

-- `DriftRule` and `DEFAULT_DRIFT`
pub record DriftRule : Type 0 where
  pub reference_days : ℕ
  pub min_decisions : ℕ
  pub margin : Decimal
  pub z : Decimal

abbrev pub default_drift : DriftRule
default_drift = record {
  reference_days = 14;
  min_decisions = 200;
  margin = record { coefficient = pos 5; places = 2 };
  z = record { coefficient = pos 196; places = 2 };
}

-- `EvidenceRule` and `DEFAULT_EVIDENCE`
pub record EvidenceRule : Type 0 where
  pub silent_days : ℕ
  pub max_capture_failure : Decimal

abbrev pub default_evidence : EvidenceRule
default_evidence = record {
  silent_days = 2;
  max_capture_failure = record { coefficient = pos 1; places = 2 };
}

-- `captured_at`: missing, without a timezone, or on a UTC day.
pub data Capture : Type 0 where
  not_captured without_zone : Capture
  captured_on : ℕ → Capture

pub record CaptureFailure : Type 0 where
  pub side : Side
  pub source : Text
  pub captured_at : Capture

-- What is read of an entry of the journal: of an arrival its side, the id of its record, its source
-- and its capture.
pub data JournalEntry : Type 0 where
  arrival : Side → Text → Text → Capture → JournalEntry
  progress : JournalEntry

-- The fields of a `Count` but its last.
pub record CountKey : Type 0 where
  pub side : Side
  pub source : Text
  pub day : ℕ
  pub outcome : Text
  pub forced : Bool

pub record Count : Type 0 where
  pub key : CountKey
  pub count : ℕ

pub data Verdict : Type 0 where
  normal drop insufficient no_reference : Verdict

pub record DayVerdict : Type 0 where
  pub side : Side
  pub source : Text
  pub rule : Text
  pub day : ℕ
  pub verdict : Verdict
  pub matched : ℕ
  pub decided : ℕ
  pub reference_matched : ℕ
  pub reference_decided : ℕ
  pub upper : Option Decimal
  pub reference_lower : Option Decimal

pub data AlertKind : Type 0 where
  match_rate_drop source_silent capture_failure undecided_jump : AlertKind

abbrev pub kind_value : AlertKind → Text
kind_value match_rate_drop = text "MATCH_RATE_DROP"
kind_value source_silent = text "SOURCE_SILENT"
kind_value capture_failure = text "CAPTURE_FAILURE"
kind_value undecided_jump = text "UNDECIDED_JUMP"

pub record Alert : Type 0 where
  pub kind : AlertKind
  pub side : Side
  pub source : Text
  pub day : ℕ
  pub detail : Text
  pub rule_id : Text

-- `Observation`
pub record Report : Type 0 where
  pub counts : List Count
  pub verdicts : List DayVerdict
  pub alerts : List Alert

abbrev pub side_rank : Side → ℕ
side_rank left = 0
side_rank right = 1

pub side_rank_injective : (s t : Side) → side_rank s ≡ side_rank t → s ≡ t
side_rank_injective left left e = refl
side_rank_injective left right e = absurd (cc e)
side_rank_injective right left e = absurd (cc e)
side_rank_injective right right e = refl

abbrev pub flag_rank : Bool → ℕ
flag_rank false = 0
flag_rank true = 1

pub flag_rank_injective : (s t : Bool) → flag_rank s ≡ flag_rank t → s ≡ t
flag_rank_injective false false e = refl
flag_rank_injective false true e = absurd (cc e)
flag_rank_injective true false e = absurd (cc e)
flag_rank_injective true true e = refl

-- The order of the tuples that are counted.
abbrev pub count_code : CountKey → List Text
count_code k =
    (side_rank k.side ∷ []) ∷ k.source ∷ (k.day ∷ []) ∷ k.outcome ∷ (flag_rank k.forced ∷ []) ∷ []

pub count_code_injective :
    (a b : CountKey)
    → lex (count_code a) (count_code b) ≡ true
    → lex (count_code b) (count_code a) ≡ true
    → a ≡ b
count_code_injective a b h k =
    let e : count_code a ≡ count_code b = lex_antisymm (count_code a) (count_code b) h k in
    let s = side_rank_injective a.side b.side cc in
    let f = flag_rank_injective a.forced b.forced cc in
    let o : a.source ≡ b.source = cc in
    let d : a.day ≡ b.day = cc in let u : a.outcome ≡ b.outcome = cc in cc

instance abbrev pub count_ord : Ord CountKey
count_ord = record {
  before = λ a b. lex (count_code a) (count_code b);
  total = λ a b. lex_total (count_code a) (count_code b);
  trans = λ a b c. lex_trans (count_code a) (count_code b) (count_code c);
  antisymm = count_code_injective;
}

-- `_check_drift`
unfoldable pub is_drift : DriftRule → Bool
is_drift d =
    leb 1 d.reference_days
    && leb 1 d.min_decisions
    && le decimal_zero d.margin
    && lt decimal_zero d.z

abbrev pub check_drift : DriftRule → Result Bool
check_drift d = if is_drift d then ok true else raised value_error

-- `_check_evidence`
unfoldable pub is_evidence : EvidenceRule → Bool
is_evidence e =
    leb 1 e.silent_days
    && le decimal_zero e.max_capture_failure
    && le e.max_capture_failure decimal_one

abbrev pub check_evidence : EvidenceRule → Result Bool
check_evidence e = if is_evidence e then ok true else raised value_error

-- `_capture_day`
abbrev pub capture_day : Capture → Result ℕ
capture_day not_captured = raised value_error
capture_day without_zone = raised value_error
capture_day (captured_on day) = ok day
