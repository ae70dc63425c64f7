-- ===== src/Observation/Conserved.antt =====
-- The series counts every final decision once.
use reconcileflow.Base.{
  ℕ, ◌+◌, ◌≡◌, refl, ap, ◌∙◌, Bool, none, List, [], ◌∷◌, keep, length, arith, inl, inr, Bool-cases,
  if◌then◌else◌,
}
use reconcileflow.Base.Order.{nat_ord, list_ord, ◌==◌}
use reconcileflow.Base.Sorting.{insert_by, sort_by}
use reconcileflow.Base.Dict.{Dict, find, alter}
use reconcileflow.Base.Raised.{ok, ok-injective, >>=-eq-ok, or_key_error}
use reconcileflow.Stream.{BusinessKey, key_ord, Decision, StreamResult}
use reconcileflow.Stream.Results.{effective}
use reconcileflow.Observation.{JournalEntry, CountKey, count_ord, Count}
use reconcileflow.Observation.Series.{
  Origins, origins_of, is_final, outcome_of, Counter, increment, count_final, count_item, count_all,
  counts_of, item_before, series,
}

-- The sum of the counts.
abbrev pub total_of : List Count → ℕ
total_of [] = 0
total_of (c ∷ counts) = c.count + total_of counts

-- The sum of a counter.
abbrev sum_of : List (CountKey × ℕ) → ℕ
sum_of [] = 0
sum_of ((key, n) ∷ rest) = n + sum_of rest

sum_of-alter :
    (key : CountKey) (counter : Counter)
    → sum_of (alter 0 key (λ n. n + 1) counter) ≡ sum_of counter + 1
unfolding alter
sum_of-alter key [] = omega arith
sum_of-alter key ((j, n) ∷ rest) = elim (Bool-cases (j == key)) [
  | inl e ↦ rw e (omega arith)
  | inr e ↦ rw e (let h = sum_of-alter key rest in omega arith)
]

sum_of-insert_by :
    (x : CountKey × ℕ) (xs : List (CountKey × ℕ))
    → sum_of (insert_by item_before x xs) ≡ x.1 + sum_of xs
unfolding insert_by
sum_of-insert_by (k, n) [] = refl
sum_of-insert_by (k, n) ((j, m) ∷ xs) = elim (Bool-cases (item_before (k, n) (j, m))) [
  | inl e ↦ rw e refl
  | inr e ↦ rw e (let h = sum_of-insert_by (k, n) xs in omega arith)
]

sum_of-sort_by : (xs : List (CountKey × ℕ)) → sum_of (sort_by item_before xs) ≡ sum_of xs
unfolding sort_by
sum_of-sort_by [] = refl
sum_of-sort_by ((k, n) ∷ xs) =
    let h = sum_of-sort_by xs in
    let g = sum_of-insert_by (k, n) (sort_by item_before xs) in omega arith

total_of-counts_of : (xs : List (CountKey × ℕ)) → total_of (counts_of xs) ≡ sum_of xs
unfolding counts_of
total_of-counts_of [] = refl
total_of-counts_of ((k, n) ∷ xs) = ap (λ m. n + m) (total_of-counts_of xs)

-- A final decision, among the effective ones.
abbrev pub is_final_item : BusinessKey × Decision → Bool
is_final_item item = is_final item.1.status

module _ (state : Dict BusinessKey Decision) (origins : Origins) where
  count_final-sum :
      (key : BusinessKey) (decision : Decision) (counter : Counter) {counter' : Counter}
      → count_final state origins key decision counter ≡ ok counter'
      → sum_of counter' ≡ sum_of counter + 1
  unfolding count_final increment
  count_final-sum (side, id) decision counter h =
      let (outcome, e, h1) = >>=-eq-ok (outcome_of state decision) _ h in
      let (origin, f, h2) = >>=-eq-ok (or_key_error (find (side, id) origins)) _ h1 in
      rw (← ok-injective h2) (sum_of-alter _ counter)

  count_item-sum :
      (key : BusinessKey) (decision : Decision) (counter : Counter) {counter' : Counter}
      → count_item state origins key decision counter ≡ ok counter'
      → sum_of counter' ≡ sum_of counter + (if is_final decision.status then 1 else 0)
  unfolding count_item
  count_item-sum key decision counter h = elim (Bool-cases (is_final decision.status)) [
    | inl e ↦ rw e (count_final-sum key decision counter (rw e at h))
    | inr e ↦ rw (e, ← ok-injective (rw e at h)) (omega arith)
  ]

  count_all-sum :
      (items : List (BusinessKey × Decision)) (counter : Counter) {counter' : Counter}
      → count_all state origins items counter ≡ ok counter'
      → sum_of counter' ≡ sum_of counter + length (keep is_final_item items)
  unfolding count_all
  count_all-sum [] counter h = rw (← ok-injective h) (omega arith)
  count_all-sum ((key, decision) ∷ rest) counter h =
      let (between, f, h1) = >>=-eq-ok (count_item state origins key decision counter) _ h in
      let a = count_item-sum key decision counter f in
      let b = count_all-sum rest between h1 in ground arith

-- When `series` returns, its counts add up to the number of the effective decisions that are final:
-- each is counted once, under one source, day and outcome.
pub series-total_of :
    (journal : List JournalEntry) (result : StreamResult) {counts : List Count}
    → series journal result ≡ ok counts
    → total_of counts ≡ length (keep is_final_item (effective none result.decisions))
unfolding series
series-total_of journal result h =
    let (origins, e, h1) = >>=-eq-ok (origins_of journal) _ h in
    let state = effective none result.decisions in
    let (counter, f, h2) = >>=-eq-ok (count_all state origins state []) _ h1 in
    let n = count_all-sum state origins state [] f in
    rw (← ok-injective h2) (
      total_of-counts_of (sort_by item_before counter)
      ∙ sum_of-sort_by counter
      ∙ (omega (arith, n)))
