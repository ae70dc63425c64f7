-- ===== src/Stream/Replay.antt =====
-- `feed`, `_arrival` and `replay` of src/reconcileflow/stream.py.
use reconcileflow.Base.{
  suc, ◌+◌, Bool, true, false, ◌&&◌, Option, none, some, List, [], ◌∷◌, if◌then◌else◌, eqb,
}
use reconcileflow.Base.Order.{Text, nat_ord, list_ord, ◌<=◌, ◌==◌, contains}
use reconcileflow.Base.Sorting.{sort_by}
use reconcileflow.Base.Dict.{keys, find_or, alter}
use reconcileflow.Decimal.{eq}
use reconcileflow.Models.{Record}
use reconcileflow.Engine.{BlockKey, blocking_key}
use reconcileflow.Stream.{
  Side, other, on, put, both, key_ord, Entry, arrival, progress, BlockState, empty_block, final,
  Reason, late, reference_after_final, break_type, Proposal, StreamConfig, StreamResult,
}
use reconcileflow.Base.Raised.{Result, ok, raised, value_error, ◌>>=◌}
use reconcileflow.Stream.Watermark.{Settings, settings_of, horizon, watermark, is_before, latest_of}
use reconcileflow.Stream.Emit.{State, find_key, store, emit}
use reconcileflow.Stream.Settle.{evaluate, settle, open_records}

abbrev pub opt_text_eq : Option Text → Option Text → Bool
opt_text_eq none none = true
opt_text_eq none (some _) = false
opt_text_eq (some _) none = false
opt_text_eq (some a) (some b) = a == b

-- `==` of two records: amounts are compared by value.
unfoldable pub record_eq : Record → Record → Bool
record_eq a b =
    a.id == b.id
    && a.account == b.account
    && eq a.amount b.amount
    && eqb a.value_date b.value_date
    && opt_text_eq a.reference b.reference
    && opt_text_eq a.currency b.currency

-- `self.blocks[key] = block`
unfoldable pub put_block : BlockKey → BlockState → State → State
put_block k b st = record st { blocks = alter b k (λ _. b) st.blocks }

-- `record.reference in final_references`, where no empty reference is ever kept
abbrev pub is_referenced : Option Text → List Text → Bool
is_referenced none refs = false
is_referenced (some r) refs = contains r refs

-- Why an arrival is a break of its own at once, if it is.
unfoldable pub refusal : Settings → State → Side → Record → BlockState → Option Reason
refusal s st side r b =
    if is_before r.value_date (watermark s st.progress b)
    then some late
    else if is_referenced r.reference (on (other side) b.final_references)
    then some reference_after_final
    else none

-- The block with the record in its pool.
unfoldable pub admit : Side → Record → BlockState → BlockState
admit side r b = record b {
  pool = put side (alter r r.id (λ _. r) (on side b.pool)) b.pool;
  latest = put side (latest_of (on side b.latest) (some r.value_date)) b.latest;
}

abbrev pub alone : Settings → Record → Reason → Proposal
alone s r reason = record {
  decision_type = break_type;
  input_ids = r.id ∷ [];
  reason = reason;
  window_end = horizon s r;
}

module _ (hash : Text → Text) (s : Settings) where
  -- `_settle` with fuel for each open record, and the block stored.
  unfoldable pub settle_block : BlockKey → State → BlockState → Result State
  settle_block k st b = do
    (st', b') ← settle hash s (suc (open_records b)) st b
    ok (put_block k b' st')

  -- A record seen for the first time, its entry counted.
  unfoldable pub accept : Side → Record → State → Result State
  accept side r st =
      let k = blocking_key r in
      let b = find_or empty_block k st.blocks in
      elim (refusal s st side r b) [
        | some reason ↦
            ok (put_block k b (emit hash (side, r.id) (alone s r reason) final false st))
        | none ↦ do st' ← evaluate hash s st (admit side r b); settle_block k st' (admit side r b)
      ]

  -- `_arrival`
  unfoldable pub arrive : Side → Record → State → Result State
  arrive side r st = elim (find_key (side, r.id) st.seen) [
    | some old ↦
        if record_eq old r
        then ok (record st { duplicates = st.duplicates + 1 })
        else raised value_error
    | none ↦
        accept side r (record st { seen = store (side, r.id) r st.seen; entries = st.entries + 1 })
  ]

  unfoldable pub settle_blocks : List BlockKey → State → Result State
  settle_blocks [] st = ok st
  settle_blocks (k ∷ ks) st = do
    st' ← settle_block k st (find_or empty_block k st.blocks)
    settle_blocks ks st'

  -- `feed`
  unfoldable pub feed : Entry → State → Result State
  feed (arrival side r) st = arrive side r st
  feed (progress side until) st = settle_blocks (sort_by ◌<=◌ (keys st.blocks)) (record st {
    entries = st.entries + 1;
    progress = put side (latest_of (on side st.progress) (some until)) st.progress;
  })

  unfoldable pub feed_all : List Entry → State → Result State
  feed_all [] st = ok st
  feed_all (e ∷ es) st = do st' ← feed e st; feed_all es st'

abbrev pub initial : State
initial = record {
  seen = [];
  duplicates = 0;
  progress = both none;
  blocks = [];
  current = [];
  decisions = [];
  entries = 0;
}

-- `replay`
unfoldable pub replay : (Text → Text) → List Entry → StreamConfig → Result StreamResult
replay hash journal config = do
  s ← settings_of config
  st ← feed_all hash s journal initial
  ok (record { decisions = st.decisions; duplicates = st.duplicates })
