-- ===== src/Models/Counters.antt =====
-- `collections.Counter`, by the names that the engine counts under.
use reconcileflow.Base.{ℕ, ◌+◌, ◌≡◌, true, arith, leb, if◌then◌else◌}
use reconcileflow.Base.Order.{Ord, leb_total, leb_trans, ◌==◌}
use reconcileflow.Base.Dict.{Dict, find_or, alter, find_or-alter}
use reconcileflow.Models.Rule.{RuleId}

pub data CounterKey : Type 0 where
  records_left records_right blocks candidates_evaluated : CounterKey
  unmatched_left unmatched_right manual_review : CounterKey
  matched : RuleId → CounterKey

-- A number for each name, to compare names by.
abbrev pub counter_code : CounterKey → ℕ
counter_code records_left = 0
counter_code records_right = 1
counter_code blocks = 2
counter_code candidates_evaluated = 3
counter_code unmatched_left = 4
counter_code unmatched_right = 5
counter_code manual_review = 6
counter_code (matched RuleId.m0_reference) = 7
counter_code (matched RuleId.m1_exact) = 8
counter_code (matched RuleId.m2_tolerant) = 9
counter_code (matched RuleId.m3_aggregate) = 10

pub counter_code_injective :
    (j k : CounterKey)
    → leb (counter_code j) (counter_code k) ≡ true
    → leb (counter_code k) (counter_code j) ≡ true
    → j ≡ k
counter_code_injective j k h h' = ground arith

instance abbrev pub counter_key_ord : Ord CounterKey
counter_key_ord = record {
  before = λ j k. leb (counter_code j) (counter_code k);
  total = λ j k. leb_total (counter_code j) (counter_code k);
  trans = λ i j k. leb_trans (counter_code i) (counter_code j) (counter_code k);
  antisymm = counter_code_injective;
}

abbrev pub Counter : Type 0
Counter = Dict CounterKey ℕ

-- `counters[key]`
abbrev pub count : CounterKey → Counter → ℕ
count = find_or 0

-- `counters[key] += n`, which also enters a key that is not there.
unfoldable pub bump : CounterKey → ℕ → Counter → Counter
bump key n = alter 0 key (λ c. c + n)

pub count-bump :
    (j k : CounterKey) (n : ℕ) (c : Counter)
    → count j (bump k n c) ≡ (if k == j then count j c + n else count j c)
unfolding bump
count-bump j k n c = find_or-alter 0 j k (λ m. m + n) c
