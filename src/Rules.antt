-- ===== src/Rules.antt =====
-- Candidate generation, rule by rule: src/reconcileflow/rules.py.
pub mod Pairs
pub mod Licence
pub mod Soundness
use reconcileflow.Base.{
  ℕ, zero, suc, ◌+◌, ◌-◌, max, not, Option, none, some, List, [], ◌∷◌, ◌++◌, map, ltb, leb,
  if◌then◌else◌, length, keep,
}
use reconcileflow.Base.Int.{pos}
use reconcileflow.Base.Order.{Text, nat_ord, list_ord, ◌<=◌}
use reconcileflow.Base.Sorting.{sort_by}
use reconcileflow.Base.Dict.{Dict, find_or, alter}
use reconcileflow.Decimal.{Decimal, add, sub, mul, div, abs, quantize, lt, eq, of_ℕ, decimal_zero}
use reconcileflow.Models.Rule.{RuleId}
use reconcileflow.Models.{Record, Tolerance, Match}

abbrev hundredths : ℕ → Decimal
hundredths n = record { coefficient = pos n; places = 2 }

-- `_BASE_SCORE`
unfoldable pub base_score : RuleId → Decimal
base_score RuleId.m0_reference = hundredths 100
base_score RuleId.m1_exact = hundredths 90
base_score RuleId.m2_tolerant = hundredths 80
base_score RuleId.m3_aggregate = hundredths 60

-- Absolute part plus relative part.
unfoldable pub amount_tolerance : Decimal → Tolerance → Decimal
amount_tolerance amount tol = add tol.amount_abs (mul (abs amount) tol.amount_rel)

-- `abs((a - b).days)`
unfoldable pub date_gap : ℕ → ℕ → ℕ
date_gap a b = (a - b) + (b - a)

-- `_score`: the penalties are `_AMOUNT_PENALTY`, `_DATE_PENALTY`, `_SIZE_PENALTY`, the quantum six places.
unfoldable pub score_of : RuleId → Decimal → Decimal → ℕ → Tolerance → ℕ → Decimal
unfolding base_score
score_of rule residual limit gap tol size =
    let by_amount =
      if lt decimal_zero limit
      then add decimal_zero (mul (div (abs residual) limit) (hundredths 5))
      else decimal_zero in
    let by_date =
      if ltb 0 tol.date_days
      then add by_amount (mul (div (of_ℕ gap) (of_ℕ tol.date_days)) (hundredths 5))
      else by_amount in
    let penalty = add by_date (mul (of_ℕ (size - 1)) (hundredths 1)) in
    quantize 6 (sub (base_score rule) penalty)

-- `for x in xs: ... out.append(...)`
unfoldable pub collect {ℓ κ} : {A : Type ℓ} {B : Type κ} → (A → List B) → List A → List B
collect f [] = []
collect f (x ∷ xs) = f x ++ collect f xs

-- `if reference:`, which an empty text fails too.
unfoldable pub present : Option Text → Option Text
present none = none
present (some []) = none
present (some (c ∷ cs)) = some (c ∷ cs)

-- One record of the index `by_reference`.
unfoldable pub index_one : Record → Dict Text (List Record) → Dict Text (List Record)
unfolding present
index_one right index = elim (present right.reference) [
  | none ↦ index
  | some reference ↦ alter [] reference (λ found. found ++ right ∷ []) index
]

unfoldable pub index_references : List Record → Dict Text (List Record) → Dict Text (List Record)
unfolding index_one
index_references [] index = index
index_references (right ∷ rights) index = index_references rights (index_one right index)

unfoldable pub reference_match : Record → Record → Match
unfolding base_score date_gap
reference_match left right = record {
  left_id = left.id;
  right_ids = right.id ∷ [];
  rule = RuleId.m0_reference;
  score = base_score RuleId.m0_reference;
  amount_residual = sub left.amount right.amount;
  date_gap_days = date_gap left.value_date right.value_date;
}

unfoldable pub m0_left : Dict Text (List Record) → Record → List Match
unfolding present reference_match
m0_left index left = elim (present left.reference) [
  | none ↦ []
  | some reference ↦ map (reference_match left) (find_or [] reference index)
]

unfoldable pub m0_reference : List Record → List Record → Tolerance → List Match
unfolding m0_left index_references collect
m0_reference lefts rights tol = collect (m0_left (index_references rights [])) lefts

unfoldable pub exact_match : Tolerance → Record → Record → Match
unfolding date_gap score_of
exact_match tol left right =
    let gap = date_gap left.value_date right.value_date in
    record {
      left_id = left.id;
      right_ids = right.id ∷ [];
      rule = RuleId.m1_exact;
      score = score_of RuleId.m1_exact decimal_zero decimal_zero gap tol 1;
      amount_residual = decimal_zero;
      date_gap_days = gap;
    }

-- One round of the inner loop; each test that fails is a `continue`.
unfoldable pub m1_pair : Tolerance → Record → Record → List Match
unfolding date_gap exact_match
m1_pair tol left right =
    if not (eq left.amount right.amount)
    then []
    else if ltb tol.date_days (date_gap left.value_date right.value_date)
    then []
    else exact_match tol left right ∷ []

unfoldable pub m1_exact : List Record → List Record → Tolerance → List Match
unfolding m1_pair collect
m1_exact lefts rights tol = collect (λ left. collect (m1_pair tol left) rights) lefts

unfoldable pub tolerant_match : Tolerance → Record → Record → Match
unfolding date_gap score_of amount_tolerance
tolerant_match tol left right =
    let limit = amount_tolerance left.amount tol in
    let residual = sub left.amount right.amount in
    let gap = date_gap left.value_date right.value_date in
    record {
      left_id = left.id;
      right_ids = right.id ∷ [];
      rule = RuleId.m2_tolerant;
      score = score_of RuleId.m2_tolerant residual limit gap tol 1;
      amount_residual = residual;
      date_gap_days = gap;
    }

unfoldable pub m2_pair : Tolerance → Record → Record → List Match
unfolding date_gap tolerant_match amount_tolerance
m2_pair tol left right =
    if lt (amount_tolerance left.amount tol) (abs (sub left.amount right.amount))
    then []
    else if ltb tol.date_days (date_gap left.value_date right.value_date)
    then []
    else tolerant_match tol left right ∷ []

unfoldable pub m2_tolerant : List Record → List Record → Tolerance → List Match
unfolding m2_pair collect
m2_tolerant lefts rights tol = collect (λ left. collect (m2_pair tol left) rights) lefts

-- `itertools.combinations(xs, size)`, in its order.
unfoldable pub combinations {ℓ} : {A : Type ℓ} → ℕ → List A → List (List A)
combinations zero xs = [] ∷ []
combinations (suc k) [] = []
combinations (suc k) (x ∷ xs) = map (◌∷◌ x) (combinations k xs) ++ combinations (suc k) xs

-- `range(lo, lo + n)`
unfoldable pub range_from : ℕ → ℕ → List ℕ
range_from lo zero = []
range_from lo (suc n) = lo ∷ range_from (lo + 1) n

-- `sum(r.amount for r in combo)`, from the left.
unfoldable pub sum_amounts : Decimal → List Record → Decimal
sum_amounts acc [] = acc
sum_amounts acc (r ∷ combo) = sum_amounts (add acc r.amount) combo

-- `max` of the gaps; a combination is never empty.
unfoldable pub max_gap : Record → List Record → ℕ
unfolding date_gap
max_gap left [] = 0
max_gap left (r ∷ combo) = max (date_gap left.value_date r.value_date) (max_gap left combo)

unfoldable pub record_ids : List Record → List Text
record_ids [] = []
record_ids (r ∷ rs) = r.id ∷ record_ids rs

unfoldable pub aggregate_match : Tolerance → Record → ℕ → List Record → Match
unfolding sum_amounts max_gap record_ids score_of amount_tolerance
aggregate_match tol left size combo =
    let limit = amount_tolerance left.amount tol in
    let residual = sub left.amount (sum_amounts decimal_zero combo) in
    let gap = max_gap left combo in
    record {
      left_id = left.id;
      right_ids = sort_by ◌<=◌ (record_ids combo);
      rule = RuleId.m3_aggregate;
      score = score_of RuleId.m3_aggregate residual limit gap tol size;
      amount_residual = residual;
      date_gap_days = gap;
    }

unfoldable pub m3_combo : Tolerance → Record → ℕ → List Record → List Match
unfolding sum_amounts aggregate_match amount_tolerance
m3_combo tol left size combo =
    let residual = sub left.amount (sum_amounts decimal_zero combo) in
    if lt (amount_tolerance left.amount tol) (abs residual)
    then []
    else aggregate_match tol left size combo ∷ []

-- The rights within the date window of a left record.
unfoldable pub in_window : Tolerance → Record → List Record → List Record
unfolding date_gap
in_window tol left = keep (λ right. leb (date_gap left.value_date right.value_date) tol.date_days)

unfoldable pub m3_left : List Record → Tolerance → Record → List Match
unfolding in_window m3_combo combinations range_from collect
m3_left rights tol left =
    let window = in_window tol left rights in
    if ltb (length window) 2
    then []
    else collect (λ size. collect (m3_combo tol left size) (combinations size window))
        (range_from 2 (tol.max_aggregate_size - 1))

unfoldable pub m3_aggregate : List Record → List Record → Tolerance → List Match
unfolding m3_left collect
m3_aggregate lefts rights tol =
    if ltb tol.max_aggregate_size 2 then [] else collect (m3_left rights tol) lefts

-- `GENERATORS`
unfoldable pub generate : RuleId → List Record → List Record → Tolerance → List Match
unfolding m0_reference m1_exact m2_tolerant m3_aggregate
generate RuleId.m0_reference = m0_reference
generate RuleId.m1_exact = m1_exact
generate RuleId.m2_tolerant = m2_tolerant
generate RuleId.m3_aggregate = m3_aggregate
