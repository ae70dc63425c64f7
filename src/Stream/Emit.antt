-- ===== src/Stream/Emit.antt =====
-- The replay's state and `_emit` of src/reconcileflow/stream.py. The hash is a parameter.
use reconcileflow.Base.{
  ℕ, ◌+◌, ◌-◌, Bool, true, false, Option, none, some, List, [], ◌∷◌, ◌++◌, if◌then◌else◌,
}
use reconcileflow.Base.Order.{Text, nat_ord, list_ord, ◌==◌}
use reconcileflow.Base.Dict.{Dict, alter}
use reconcileflow.Base.Text.{text, join, decimal_text}
use reconcileflow.Models.{Record}
use reconcileflow.Models.Digests.{digest}
use reconcileflow.Engine.{BlockKey}
use reconcileflow.Stream.{
  Side, left, right, PerSide, BusinessKey, key_ord, BlockState, Decision, DecisionType, Reason,
  Proposal, Status, final, reason_text, type_text,
}

pub record State : Type 0 where
  pub seen : Dict BusinessKey Record
  pub duplicates : ℕ
  pub progress : PerSide (Option ℕ)
  pub blocks : Dict BlockKey BlockState
  pub current : Dict BusinessKey Decision
  pub decisions : List Decision
  -- `position + 1`: the source starts at -1
  pub entries : ℕ

-- `position`, once an entry has been counted
abbrev pub position : State → ℕ
position st = st.entries - 1

module _ {ℓ} {V : Type ℓ} where
  -- `d.get(key)`
  unfoldable pub find_key : BusinessKey → Dict BusinessKey V → Option V
  find_key k [] = none
  find_key k ((j, v) ∷ d) = if j == k then some v else find_key k d

  -- `d[key] = v`
  unfoldable pub store : BusinessKey → V → Dict BusinessKey V → Dict BusinessKey V
  store k v = alter v k (λ _. v)

abbrev pub side_text : Side → Text
side_text left = text "left"
side_text right = text "right"

abbrev pub status_is_final : Status → Bool
status_is_final final = true
status_is_final _ = false

-- `1 if previous is None else previous.chain_version + 1`
abbrev pub next_version : Option Decision → ℕ
next_version none = 1
next_version (some d) = d.chain_version + 1

abbrev pub superseded_id : Option Decision → Option Text
superseded_id none = none
superseded_id (some d) = some d.decision_id

module _ (hash : Text → Text) where
  -- `_Proposal.fingerprint`, and `_fingerprint` of a decision
  unfoldable pub fingerprint : DecisionType → List Text → Reason → Text
  unfolding digest
  fingerprint type inputs reason =
      digest hash (type_text type ∷ join (text ",") inputs ∷ reason_text reason ∷ [])

  -- A final decision is named by its content alone.
  unfoldable pub decision_id_of : BusinessKey → Proposal → Status → Bool → ℕ → Text
  unfolding digest fingerprint
  decision_id_of (side, id) p status forced version =
      let content = fingerprint p.decision_type p.input_ids p.reason in
      let finality = if forced then text "FORCED" else text "FINAL" in
      if status_is_final status
      then digest hash (side_text side ∷ id ∷ content ∷ finality ∷ [])
      else digest hash (side_text side ∷ id ∷ decimal_text version ∷ content ∷ [])

  -- The decision that `_emit` makes.
  unfoldable pub decide : BusinessKey → Proposal → Status → Bool → State → Decision
  unfolding decision_id_of find_key
  decide key p status forced st =
      let previous = find_key key st.current in
      record {
        decision_id = decision_id_of key p status forced (next_version previous);
        business_key = key;
        chain_version = next_version previous;
        status = status;
        decision_type = p.decision_type;
        input_ids = p.input_ids;
        reason = p.reason;
        window_end = p.window_end;
        decided_at = position st;
        final_at = if status_is_final status then some (position st) else none;
        supersedes = superseded_id previous;
        forced = forced;
      }

  unfoldable pub emit : BusinessKey → Proposal → Status → Bool → State → State
  unfolding decide store
  emit key p status forced st =
      let d = decide key p status forced st in
      record st { current = store key d st.current; decisions = st.decisions ++ d ∷ [] }
