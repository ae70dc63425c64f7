-- ===== src/Stream/Settle.antt =====
-- Finality: `_evaluate`'s emissions, `_closing` and `_settle` of src/reconcileflow/stream.py.
use reconcileflow.Base.{
  ℕ, zero, suc, ◌+◌, ◌-◌, max, min, Bool, true, false, not, ◌&&◌, Option, none, some, List, [], ◌∷◌,
  ◌++◌, ltb, length, if◌then◌else◌, is_empty,
}
use reconcileflow.Base.Order.{Text, nat_ord, list_ord, ◌<=◌, ◌==◌}
use reconcileflow.Base.Sorting.{sort_by}
use reconcileflow.Base.Dict.{Dict, keys}
use reconcileflow.Models.{Record}
use reconcileflow.Rules.{present}
use reconcileflow.Stream.{
  Side, on, put, BusinessKey, key_ord, BlockState, Decision, Proposal, provisional, final,
}
use reconcileflow.Base.Raised.{Result, ok, raised, out_of_fuel, or_key_error, ◌>>=◌}
use reconcileflow.Stream.Watermark.{Settings, horizon, watermark}
use reconcileflow.Stream.Components.{components}
use reconcileflow.Base.Dict.{find}
use reconcileflow.Stream.Evaluate.{Proposals, proposals_of}
use reconcileflow.Stream.Emit.{State, find_key, fingerprint, emit}

-- `pool.pop(id)`
unfoldable pub remove : Text → Dict Text Record → Dict Text Record
remove k [] = []
remove k ((j, v) ∷ d) = if j == k then d else (j, v) ∷ remove k d

unfoldable pub max_of : List ℕ → ℕ
max_of [] = 0
max_of (x ∷ xs) = max x (max_of xs)

-- The least of the first date and the others.
unfoldable pub min_of : ℕ → List ℕ → ℕ
min_of x [] = x
min_of x (y ∷ ys) = min_of (min x y) ys

unfoldable pub dates : List Record → List ℕ
dates [] = []
dates (r ∷ rs) = r.value_date ∷ dates rs

unfoldable pub horizons : Settings → List Record → List ℕ
horizons s [] = []
horizons s (r ∷ rs) = horizon s r ∷ horizons s rs

-- `max(value dates) - min(value dates)`
unfoldable pub span : List Record → ℕ
span [] = 0
span (r ∷ rs) = max_of (dates (r ∷ rs)) - min_of r.value_date (dates rs)

unfoldable pub records_of : BlockState → List BusinessKey → Result (List Record)
records_of b [] = ok []
records_of b ((side, id) ∷ ks) = do
  r ← or_key_error (find id (on side b.pool))
  rs ← records_of b ks
  ok (r ∷ rs)

unfoldable pub decisions_of : State → List BusinessKey → Result (List Decision)
decisions_of st [] = ok []
decisions_of st (k ∷ ks) = do
  d ← or_key_error (find_key k st.current)
  ds ← decisions_of st ks
  ok (d ∷ ds)

abbrev pub Closing : Type 0
Closing = List (Decision × Bool)

unfoldable pub all_closing : List Decision → Closing
all_closing [] = []
all_closing (d ∷ ds) = (d, false) ∷ all_closing ds

-- Of a component that is cut, the decisions past their own horizon.
unfoldable pub forced_closing : ℕ → List Decision → Closing
forced_closing w [] = []
forced_closing w (d ∷ ds) =
    if ltb d.window_end w then (d, true) ∷ forced_closing w ds else forced_closing w ds

abbrev pub exceeds : Option ℕ → ℕ → Bool
exceeds none n = false
exceeds (some m) n = ltb m n

unfoldable pub closing_component :
    Settings → State → BlockState → ℕ → List BusinessKey → Result Closing
closing_component s st b w component = do
  records ← records_of b component
  decisions ← decisions_of st component
  ok (
      if ltb (max_of (horizons s records)) w
      then all_closing decisions
      else if exceeds s.max_component_days (span records)
      then forced_closing w decisions
      else [])

unfoldable pub closing_components :
    Settings → State → BlockState → ℕ → List (List BusinessKey) → Result Closing
closing_components s st b w [] = ok []
closing_components s st b w (c ∷ cs) = do
  here ← closing_component s st b w c
  rest ← closing_components s st b w cs
  ok (here ++ rest)

-- `_closing`
unfoldable pub closing : Settings → State → BlockState → Result Closing
closing s st b = elim (watermark s st.progress b) [
  | none ↦ ok []
  | some w ↦ closing_components s st b w (components s b)
]

abbrev pub proposal_of : Decision → Proposal
proposal_of d = record {
  decision_type = d.decision_type;
  input_ids = d.input_ids;
  reason = d.reason;
  window_end = d.window_end;
}

abbrev pub with_reference : Option Text → List Text → List Text
with_reference none refs = refs
with_reference (some r) refs = r ∷ refs

-- The block after a record is withdrawn as final.
unfoldable pub withdraw : Side → Text → Record → BlockState → BlockState
withdraw side id r b = record b {
  pool = put side (remove id (on side b.pool)) b.pool;
  final_references =
      put side (with_reference (present r.reference) (on side b.final_references))
        b.final_references;
}

-- The number of open records of a block.
unfoldable pub open_records : BlockState → ℕ
open_records b = length b.pool.on_left + length b.pool.on_right

module _ (hash : Text → Text) (s : Settings) where
  -- Whether a proposal differs from the current decision.
  unfoldable pub is_changed : Proposal → Option Decision → Bool
  is_changed p none = true
  is_changed p (some d) = not (
      fingerprint hash d.decision_type d.input_ids d.reason
      == fingerprint hash p.decision_type p.input_ids p.reason)

  unfoldable pub emit_changed : BusinessKey → Option Proposal → State → State
  emit_changed key none st = st
  emit_changed key (some p) st =
      if is_changed p (find_key key st.current) then emit hash key p provisional false st else st

  unfoldable pub emit_all : Proposals → List BusinessKey → State → State
  emit_all d [] st = st
  emit_all d (k ∷ ks) st = emit_all d ks (emit_changed k (find_key k d) st)

  -- `_evaluate`
  unfoldable pub evaluate : State → BlockState → Result State
  evaluate st b = do d ← proposals_of s b; ok (emit_all d (sort_by ◌<=◌ (keys d)) st)

  -- One decision of the loop in `_settle`.
  unfoldable pub finalise : Decision × Bool → State → BlockState → Result (State × BlockState)
  finalise (d, forced) st b = do
    let (side, id) = d.business_key
    let st' = emit hash d.business_key (proposal_of d) final forced st
    r ← or_key_error (find id (on side b.pool))
    ok (st', withdraw side id r b)

  unfoldable pub finalise_all : Closing → State → BlockState → Result (State × BlockState)
  finalise_all [] st b = ok (st, b)
  finalise_all (c ∷ cs) st b = do (st', b') ← finalise c st b; finalise_all cs st' b'

  -- Re-evaluation of what is left, if anything is.
  unfoldable pub re_evaluate : State → BlockState → Result State
  re_evaluate st b =
      if is_empty b.pool.on_left && is_empty b.pool.on_right then ok st else evaluate st b

  -- One round of the `while` of `_settle`: nothing closes, or what closes is finalised, the rest is
  -- evaluated again, and the loop goes on.
  unfoldable pub settle_round :
      (State → BlockState → Result (State × BlockState))
      → Closing
      → State
      → BlockState
      → Result (State × BlockState)
  settle_round again [] st b = ok (st, b)
  settle_round again (c ∷ cs) st b = do
    (st', b') ← finalise_all (c ∷ cs) st b
    st'' ← re_evaluate st' b'
    again st'' b'

  -- `_settle`, on fuel.
  unfoldable pub settle : ℕ → State → BlockState → Result (State × BlockState)
  settle zero st b = raised out_of_fuel
  settle (suc fuel) st b = do cs ← closing s st b; settle_round (settle fuel) cs st b
