-- ===== src/M0/Stable.antt =====
-- What a verdict of the stability gate of src/reconcileflow/m0/stability.py stands for.
use reconcileflow.Base.{
  ◌≡◌, ◌≤◌, refl, ◌⊎◌, inl, inr, Bool, true, false, not, ◌||◌, ||-false, Option, none, some, List,
  [], ◌∷◌, map, length, is_empty, arith, Bool-cases, All, All-imp, In, In-cons,
}
use reconcileflow.Base.Int.{pos, ◌≤ℤ◌}
use reconcileflow.Base.Order.{Text, nat_ord, list_ord}
use reconcileflow.Base.Membership.{In-of_contains}
use reconcileflow.Base.Dict.{keys, find}
use reconcileflow.Base.Raised.{Error, Result, ok, raised, or_key_error, ok-injective, >>=-eq-ok}
use reconcileflow.Decimal.{Decimal, le, lt}
use reconcileflow.Decimal.Order.{le_trans, le_refl, le_of_lt, le_of_not-lt}
use reconcileflow.M0.Stability.{
  stable, Repetition, min_reps, min_gt_ops_per_rep, max_sd, is_subset, same_names, all_track,
  metric_names, values_of, has_few_ops, is_insufficient, worst_of, worst_sd, require, assess,
}

Result-cases {ℓ} :
    {A : Type ℓ} (call : Result A)
    → ((error : Error) × (call ≡ raised error)) ⊎ ((value : A) × (call ≡ ok value))
Result-cases (raised error) = inl (error, refl)
Result-cases (ok value) = inr (value, refl)

-- A check that was passed.
require-eq-true {ℓ} :
    {A : Type ℓ} (test : Bool) (rest : Result A) {value : A}
    → require test rest ≡ ok value
    → test ≡ true
require-eq-true true rest e = refl
require-eq-true false rest e = cc

or_key_error-found {ℓ} : {A : Type ℓ} (o : Option A) {a : A} → or_key_error o ≡ ok a → o ≡ some a
or_key_error-found none e = cc
or_key_error-found (some a) e = cc

pub require-eq-ok {ℓ} :
    {A : Type ℓ} (test : Bool) (rest : Result A) {value : A}
    → require test rest ≡ ok value
    → rest ≡ ok value
require-eq-ok true rest e = e
require-eq-ok false rest e = cc

is_subset-In : (xs ys : List Text) {name : Text} → is_subset xs ys ≡ true → In name xs → In name ys
unfolding is_subset
is_subset-In [] ys h m = elim m [ ]
is_subset-In (x ∷ xs) ys h m = elim (In-cons m) [
  | inl e ↦ rw e (In-of_contains x ys (ground arith))
  | inr n ↦ is_subset-In xs ys (ground arith) n
]

-- Lists of the same members.
abbrev HaveSameNames : List Text → List Text → Type 0
HaveSameNames xs ys = (name : Text) → (In name xs → In name ys) × (In name ys → In name xs)

same_names-HaveSameNames : (xs ys : List Text) → same_names xs ys ≡ true → HaveSameNames xs ys
unfolding same_names
same_names-HaveSameNames xs ys h name =
    (is_subset-In xs ys (ground arith), is_subset-In ys xs (ground arith))

all_track-HaveSameNames :
    (names : List Text) (reps : List Repetition)
    → all_track names reps ≡ true
    → All (λ r. HaveSameNames (keys r.metrics) names) reps
unfolding all_track
all_track-HaveSameNames names [] h = tt
all_track-HaveSameNames names (r ∷ reps) h = (
  same_names-HaveSameNames (keys r.metrics) names (ground arith),
  all_track-HaveSameNames names reps (ground arith),
)

-- Each repetition of a group tracks the names that the group has.
metric_names-HaveSameNames :
    (reps : List Repetition) {names : List Text}
    → metric_names reps ≡ ok names
    → All (λ r. HaveSameNames (keys r.metrics) names) reps
unfolding metric_names
metric_names-HaveSameNames [] e = tt
metric_names-HaveSameNames (r ∷ reps) {names} e =
    let e₁ = require-eq-ok (not (is_empty (keys r.metrics))) _ e in
    elim (Bool-cases (all_track (keys r.metrics) (r ∷ reps))) [
      | inl t ↦
          let g : keys r.metrics ≡ names = ok-injective (rw t at e₁) in
          all_track-HaveSameNames names (r ∷ reps) (rw g at t)
      | inr t ↦ let e₂ = (rw t at e₁) in absurd (cc e₂)
    ]

values_of-found :
    (name : Text) (reps : List Repetition) {values : List Decimal}
    → values_of name reps ≡ ok values
    → map (λ r. find name r.metrics) reps ≡ map some values
unfolding values_of
values_of-found name [] e = rw (← ok-injective e) refl
values_of-found name (r ∷ reps) e =
    let (value, e₁, f₁) = >>=-eq-ok (or_key_error (find name r.metrics)) _ e in
    let (rest, e₂, f₂) = >>=-eq-ok (values_of name reps) _ f₁ in
    let ih = values_of-found name reps e₂ in
    let g : find name r.metrics ≡ some value = or_key_error-found _ e₁ in
    rw (← ok-injective f₂) (rw (g, ih) refl)

has_few_ops-enough :
    (reps : List Repetition)
    → has_few_ops reps ≡ false
    → All (λ r. pos min_gt_ops_per_rep ≤ℤ r.deterministic_gt_ops) reps
unfolding has_few_ops
has_few_ops-enough [] h = tt
has_few_ops-enough (r ∷ reps) h = (ground arith, has_few_ops-enough reps (ground arith))

-- A repetition of the same names as each of the others.
abbrev pub TracksAs : List Repetition → Repetition → Type 0
TracksAs others r = All (λ (q : Repetition). HaveSameNames (keys r.metrics) (keys q.metrics)) others

-- Two groups whose names are the same track the same names throughout.
tracked_together :
    (reps others : List Repetition) (names other_names : List Text)
    → metric_names reps ≡ ok names
    → metric_names others ≡ ok other_names
    → same_names names other_names ≡ true
    → All (TracksAs others) reps
tracked_together reps others names other_names e f h =
    let same = same_names-HaveSameNames names other_names h in
    All-imp (TracksAs others) reps
      (λ r (a : HaveSameNames (keys r.metrics) names).
        All-imp (λ (q : Repetition). HaveSameNames (keys r.metrics) (keys q.metrics)) others
          (λ q (b : HaveSameNames (keys q.metrics) other_names) name. (
            λ m. (b name).1 ((same name).0 ((a name).0 m)),
            λ m. (a name).1 ((same name).1 ((b name).0 m)),
          ))
          (metric_names-HaveSameNames others f))
      (metric_names-HaveSameNames reps e)

module _ (stdev : List Decimal → Decimal) where
  -- The values of a metric are there in each repetition, and deviate by no more than a bound.
  abbrev pub IsWithin : Decimal → List Repetition → Text → Type 0
  IsWithin bound reps name =
      (values : List Decimal) × (map (λ (r : Repetition). find name r.metrics) reps
        ≡ map some values)
      × (le (stdev values) bound ≡ true)

  -- Enough repetitions, of enough operations each, none of whose metrics deviates by more than the
  -- bound.
  abbrev pub IsSteady : List Repetition → Type 0
  IsSteady reps =
      (min_reps ≤ length reps)
      × All (λ (r : Repetition). pos min_gt_ops_per_rep ≤ℤ r.deterministic_gt_ops) reps
      × All
          (λ (r : Repetition). (name : Text) → In name (keys r.metrics) → IsWithin max_sd reps name)
          reps

  worst_of-IsWithin :
      (worst : Decimal) (names : List Text) (reps : List Repetition) {sd : Decimal}
      → worst_of stdev worst names reps ≡ ok sd
      → (le worst sd ≡ true) × ((name : Text) → In name names → IsWithin sd reps name)
  unfolding worst_of
  worst_of-IsWithin worst [] reps e = (rw (← ok-injective e) (le_refl worst), λ name m. elim m [ ])
  worst_of-IsWithin worst (first ∷ names) reps {sd} e =
      let (values, e₁, f₁) = >>=-eq-ok (values_of first reps) _ e in
      let found = values_of-found first reps e₁ in
      elim (Bool-cases (lt worst (stdev values))) [
        | inl l ↦
            let (h, k) = worst_of-IsWithin (stdev values) names reps (rw l at f₁) in
            (
              le_trans worst (stdev values) sd (le_of_lt _ _ l) h,
              λ name m. elim (In-cons m) [ inl g ↦ rw g (values, found, h) | inr n ↦ k name n ],
            )
        | inr l ↦
            let (h, k) = worst_of-IsWithin worst names reps (rw l at f₁) in
            (
              h,
              λ name m. elim (In-cons m) [
                | inl g ↦
                    rw g (values, found, le_trans (stdev values) worst sd (le_of_not-lt _ _ l) h)
                | inr n ↦ k name n
              ],
            )
      ]

  worst_sd-IsWithin :
      (reps : List Repetition) {names : List Text} {sd : Decimal}
      → metric_names reps ≡ ok names
      → worst_sd stdev reps ≡ ok sd
      → (name : Text) → In name names
      → IsWithin sd reps name
  unfolding worst_sd
  worst_sd-IsWithin reps {names = []} e f name m = elim m [ ]
  worst_sd-IsWithin reps {names = first ∷ names} {sd} e f name m =
      let (values, e₁, f₁) = >>=-eq-ok (values_of first reps) _ (rw e at f) in
      let (h, k) = worst_of-IsWithin (stdev values) names reps f₁ in
      elim (In-cons m) [
        | inl g ↦ rw g (values, values_of-found first reps e₁, h)
        | inr n ↦ k name n
      ]

  IsSteady-of_worst :
      (reps : List Repetition) {names : List Text} {sd : Decimal}
      → is_insufficient reps ≡ false
      → metric_names reps ≡ ok names
      → worst_sd stdev reps ≡ ok sd
      → lt max_sd sd ≡ false
      → IsSteady reps
  unfolding is_insufficient
  IsSteady-of_worst reps {names} {sd} i e f l = (
    ground arith,
    has_few_ops-enough reps (ground arith),
    All-imp
        (λ (r : Repetition). (name : Text) → In name (keys r.metrics) → IsWithin max_sd reps name)
        reps
        (λ r (same : HaveSameNames (keys r.metrics) names) name m.
          let (values, found, h) = worst_sd-IsWithin reps e f name ((same name).0 m) in
          (values, found, le_trans (stdev values) sd max_sd h (le_of_not-lt _ _ l)))
        (metric_names-HaveSameNames reps e),
  )

  -- STABLE means what it says: each group has at least five repetitions, each of at least ten
  -- thousand operations; of every metric of any repetition the whole group has values, and their
  -- deviation does not exceed the bound; and the repetitions of the two groups track the same
  -- metrics.
  pub assess-stable :
      (fixed_seed variable_seed : List Repetition)
      → assess stdev fixed_seed variable_seed ≡ ok stable
      → IsSteady fixed_seed × IsSteady variable_seed × All (TracksAs variable_seed) fixed_seed
  unfolding assess
  assess-stable fixed_seed variable_seed e =
      elim (Bool-cases (is_insufficient fixed_seed || is_insufficient variable_seed)) [
        | inl i ↦ let e' = (rw i at e) in absurd (cc e')
        | inr i ↦
            let (i₁, i₂) =
              ||-false (is_insufficient fixed_seed) (is_insufficient variable_seed) i in
            let (fixed_names, e₁, f₁) = >>=-eq-ok (metric_names fixed_seed) _ (rw i at e) in
            let (variable_names, e₂, f₂) = >>=-eq-ok (metric_names variable_seed) _ f₁ in
            let same = require-eq-true (same_names fixed_names variable_names) _ f₂ in
            let (fixed_sd, e₃, f₃) =
              >>=-eq-ok (worst_sd stdev fixed_seed) _
                (require-eq-ok (same_names fixed_names variable_names) _ f₂) in
            elim (Bool-cases (lt max_sd fixed_sd)) [
              | inl l ↦ let f₃' = (rw l at f₃) in absurd (ground arith)
              | inr l ↦
                  let (variable_sd, e₄, f₄) =
                    >>=-eq-ok (worst_sd stdev variable_seed) _ (rw l at f₃) in
                  elim (Bool-cases (lt max_sd variable_sd)) [
                    | inl k ↦ let f₄' = (rw k at f₄) in absurd (cc f₄')
                    | inr k ↦ (
                      IsSteady-of_worst fixed_seed i₁ e₁ e₃ l,
                      IsSteady-of_worst variable_seed i₂ e₂ e₄ k,
                      tracked_together fixed_seed variable_seed fixed_names variable_names e₁ e₂
                          same,
                    )
                  ]
            ]
      ]
