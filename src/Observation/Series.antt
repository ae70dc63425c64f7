-- ===== src/Observation/Series.antt =====
-- The series of src/reconcileflow/observation.py: the final decisions, counted.
use reconcileflow.Base.{ℕ, ◌+◌, Bool, true, false, none, some, List, [], ◌∷◌, if◌then◌else◌}
use reconcileflow.Base.Order.{Text, nat_ord, list_ord, ◌<=◌, ◌==◌}
use reconcileflow.Base.Sorting.{sort_by}
use reconcileflow.Base.Dict.{Dict, find, alter}
use reconcileflow.Base.Text.{text}
use reconcileflow.Base.Raised.{Result, ok, raised, index_error, ◌>>=◌, or_key_error}
use reconcileflow.Stream.{
  left, BusinessKey, key_ord, Decision, Status, provisional, final, superseded, reason_text,
  StreamResult,
}
use reconcileflow.Stream.Results.{effective}
use reconcileflow.Observation.{
  Capture, JournalEntry, arrival, progress, CountKey, count_ord, Count, capture_day,
}

-- The source and the capture day of each record.
abbrev pub Origins : Type 0
Origins = Dict BusinessKey (Text × ℕ)

-- `if key not in origins: ...`
unfoldable pub note_origin : BusinessKey → Text → Capture → Origins → Result Origins
note_origin key source captured_at origins = elim (find key origins) [
  | some origin ↦ ok origins
  | none ↦ do day ← capture_day captured_at; ok (alter (source, day) key (λ origin. origin) origins)
]

unfoldable pub origins_from : List JournalEntry → Origins → Result Origins
origins_from [] origins = ok origins
origins_from (arrival side id source captured_at ∷ journal) origins = do
  origins' ← note_origin (side, id) source captured_at origins
  origins_from journal origins'
origins_from (progress ∷ journal) origins = origins_from journal origins

-- `_origins`
abbrev pub origins_of : List JournalEntry → Result Origins
origins_of journal = origins_from journal []

abbrev pub is_final : Status → Bool
is_final final = true
is_final provisional = false
is_final superseded = false

-- `xs[0]`
abbrev pub first_of : List Text → Result Text
first_of [] = raised index_error
first_of (x ∷ xs) = ok x

abbrev pub counterpart_text : Text
counterpart_text = text "AS_COUNTERPART"

-- The outcome a decision is counted under: a counterpart under its match's rule.
unfoldable pub outcome_of : Dict BusinessKey Decision → Decision → Result Text
outcome_of effective decision =
    if reason_text decision.reason == counterpart_text
    then (do
      id ← first_of decision.input_ids
      match ← or_key_error (find (left, id) effective)
      ok (reason_text match.reason))
    else ok (reason_text decision.reason)

abbrev pub Counter : Type 0
Counter = Dict CountKey ℕ

-- `counter[...] += 1`
unfoldable pub increment : CountKey → Counter → Counter
increment key counter = alter 0 key (λ n. n + 1) counter

-- A final decision.
unfoldable pub count_final :
    Dict BusinessKey Decision → Origins → BusinessKey → Decision → Counter → Result Counter
count_final effective origins (side, id) decision counter = do
  outcome ← outcome_of effective decision
  (source, day) ← or_key_error (find (side, id) origins)
  ok (
      increment
        (record {
          side = side;
          source = source;
          day = day;
          outcome = outcome;
          forced = decision.forced;
        })
        counter)

-- One effective decision: what is not final is passed over.
unfoldable pub count_item :
    Dict BusinessKey Decision → Origins → BusinessKey → Decision → Counter → Result Counter
count_item effective origins key decision counter =
    if is_final decision.status
    then count_final effective origins key decision counter
    else ok counter

-- The loop over the effective decisions.
unfoldable pub count_all :
    Dict BusinessKey Decision → Origins → List (BusinessKey × Decision) → Counter → Result Counter
count_all effective origins [] counter = ok counter
count_all effective origins ((key, decision) ∷ rest) counter = do
  counter' ← count_item effective origins key decision counter
  count_all effective origins rest counter'

-- `Count(*fields, count)`
unfoldable pub counts_of : List (CountKey × ℕ) → List Count
counts_of [] = []
counts_of ((key, n) ∷ rest) = record { key = key; count = n } ∷ counts_of rest

-- `sorted(counter.items())`: no two have one key.
abbrev pub item_before : CountKey × ℕ → CountKey × ℕ → Bool
item_before a b = a.0 <= b.0

-- `series`
unfoldable pub series : List JournalEntry → StreamResult → Result (List Count)
series journal result = do
  origins ← origins_of journal
  let state = effective none result.decisions
  counter ← count_all state origins state []
  ok (counts_of (sort_by item_before counter))
