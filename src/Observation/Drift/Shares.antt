-- ===== src/Observation/Drift/Shares.antt =====
-- The hits and totals that src/reconcileflow/observation.py keeps by day: hits are part of a total,
-- and a reference is found after enough dates.
use reconcileflow.Base.{
  ℕ, zero, suc, ◌-◌, ◌≤◌, ◌<◌, ◌≡◌, refl, Bool, true, false, List, [], ◌∷◌, ltb, arith, inl, inr,
  Bool-cases, All, ◌+◌,
}
use reconcileflow.Base.Order.{Ord, Text, nat_ord, list_ord, ◌==◌}
use reconcileflow.Base.Sorting.{All-sort_by}
use reconcileflow.Base.Dict.{Dict, find_or, alter}
use reconcileflow.Base.Raised.{ok}
use reconcileflow.Stream.{Side}
use reconcileflow.Observation.{DriftRule, Count, is_drift}
use reconcileflow.Observation.Drift.{
  Days, is_same_side, add_to_cell, add_count, daily_from, day_before, sort_days, daily, cell_before,
  reference,
}

module _ {ℓ κ μ} {K : Type ℓ} {V : Type κ} ⦃o : Ord K⦄ where
  All-alter :
      (P : K × V → Type μ) (default : V) (k : K) (f : V → V) (d : Dict K V)
      → P (k, f default)
      → ((j : K) (v : V) → P (j, v) → P (j, f v))
      → All P d
      → All P (alter default k f d)
  unfolding alter
  All-alter P default k f [] p keeps h = (p, tt)
  All-alter P default k f ((j, v) ∷ d) p keeps h = elim (Bool-cases (j == k)) [
    | inl e ↦ rw e (keeps j v h.0, h.1)
    | inr e ↦ rw e (h.0, All-alter P default k f d p keeps h.1)
  ]

  pub All-find_or :
      (P : V → Type μ) (default : V) (k : K) (d : Dict K V)
      → P default
      → All (λ (entry : K × V). P entry.1) d
      → P (find_or default k d)
  unfolding find_or
  All-find_or P default k [] p h = p
  All-find_or P default k ((j, v) ∷ d) p h = elim (Bool-cases (j == k)) [
    | inl e ↦ rw e h.0
    | inr e ↦ rw e (All-find_or P default k d p h.1)
  ]

pub min_decisions-le : (rule : DriftRule) → is_drift rule ≡ true → 1 ≤ rule.min_decisions
unfolding is_drift
min_decisions-le rule h = ground arith

-- Hits and a total that contains them.
abbrev pub IsShare : ℕ × ℕ → Type 0
IsShare cell = cell.0 ≤ cell.1

-- A count of a day that has as many dates before it as the span.
abbrev pub IsDated : ℕ → Count → Type 0
IsDated span c = span < c.key.day

-- Shares of such days.
abbrev pub AreShares : ℕ → Days → Type 0
AreShares span by_day = All (λ (entry : ℕ × (ℕ × ℕ)). IsShare entry.1 × (span < entry.0)) by_day

add_to_cell-IsShare :
    (hit : Bool) (n : ℕ) (cell : ℕ × ℕ) → IsShare cell → IsShare (add_to_cell hit n cell)
add_to_cell-IsShare true n cell h = omega arith
add_to_cell-IsShare false n cell h = omega arith

daily_from-AreShares :
    (span : ℕ) (hit : Count → Bool) (side : Side) (counts : List Count) (days : Dict Text Days)
    → All (IsDated span) counts
    → All (λ (entry : Text × Days). AreShares span entry.1) days
    → All (λ (entry : Text × Days). AreShares span entry.1) (daily_from hit side counts days)
unfolding daily_from add_count
daily_from-AreShares span hit side [] days dated h = h
daily_from-AreShares span hit side (c ∷ counts) days dated h =
    let grown : (by_day : Days)
        → AreShares span by_day
        → AreShares span (alter (0, 0) c.key.day (add_to_cell (hit c) c.count) by_day) =
      λ by_day g.
        All-alter (λ (entry : ℕ × (ℕ × ℕ)). IsShare entry.1 × (span < entry.0)) (0, 0) c.key.day _
          by_day (add_to_cell-IsShare (hit c) c.count (0, 0) (omega arith), dated.0)
          (λ day cell k. (add_to_cell-IsShare (hit c) c.count cell k.0, k.1)) g in
    elim (Bool-cases (is_same_side c.key.side side)) [
      | inr e ↦ rw e (daily_from-AreShares span hit side counts days dated.1 h)
      | inl e ↦ rw e (
          daily_from-AreShares span hit side counts _ dated.1 (
            All-alter (λ (entry : Text × Days). AreShares span entry.1) [] c.key.source _ days
              (grown [] tt) (λ source by_day g. grown by_day g) h))
    ]

sort_days-AreShares :
    (span : ℕ) (days : Dict Text Days)
    → All (λ (entry : Text × Days). AreShares span entry.1) days
    → All (λ (entry : Text × Days). AreShares span entry.1) (sort_days days)
unfolding sort_days
sort_days-AreShares span [] h = tt
sort_days-AreShares span ((source, by_day) ∷ rest) h =
    (All-sort_by _ day_before by_day h.0, sort_days-AreShares span rest h.1)

pub daily-AreShares :
    (span : ℕ) (counts : List Count) (side : Side) (hit : Count → Bool)
    → All (IsDated span) counts
    → All (λ (entry : Text × Days). AreShares span entry.1) (daily counts side hit)
unfolding daily
daily-AreShares span counts side hit dated =
    sort_days-AreShares span _ (daily_from-AreShares span hit side counts [] dated tt)

-- After as many dates as the span, the reference is found and is a share.
pub reference-IsShare :
    (by_day : Days) (day span : ℕ)
    → All (λ (entry : ℕ × (ℕ × ℕ)). IsShare entry.1) by_day
    → span < day
    → (before : ℕ × ℕ) × (reference by_day day span ≡ ok before) × IsShare before
unfolding reference cell_before
reference-IsShare by_day day zero h k = ((0, 0), refl, omega arith)
reference-IsShare by_day day (suc span) h k =
    let ((hits, total), e, le) = reference-IsShare by_day day span h (omega arith) in
    let f = All-find_or IsShare (0, 0) (day - suc span) by_day (omega arith) h in
    let t : ltb (suc span) day ≡ true = ground arith in
    (
      (
        hits + (find_or (0, 0) (day - suc span) by_day).0,
        total + (find_or (0, 0) (day - suc span) by_day).1,
      ),
      rw (e, t) refl,
      omega arith,
    )
