-- ===== src/Stream/Results.antt =====
-- `StreamResult` of src/reconcileflow/stream.py: the derived status and the effective state.
use reconcileflow.Base.{
  ℕ, Bool, true, false, ◌||◌, Option, none, some, List, [], ◌∷◌, leb, if◌then◌else◌,
}
use reconcileflow.Base.Order.{Text, nat_ord, list_ord, ◌==◌}
use reconcileflow.Base.Dict.{Dict}
use reconcileflow.Stream.{BusinessKey, key_ord, Decision, Status, superseded}
use reconcileflow.Stream.Emit.{store}

-- `d.supersedes == decision_id`
abbrev pub replaces : Option Text → Text → Bool
replaces none id = false
replaces (some t) id = t == id

unfoldable pub is_superseded : List Decision → Decision → Bool
is_superseded [] decision = false
is_superseded (d ∷ ds) decision =
    replaces d.supersedes decision.decision_id || is_superseded ds decision

-- `status`
unfoldable pub status_of : List Decision → Decision → Status
status_of decisions decision =
    if is_superseded decisions decision then superseded else decision.status

-- Whether a decision was made by a position; no position means the end.
abbrev pub is_by : Option ℕ → Decision → Bool
is_by none d = true
is_by (some n) d = leb d.decided_at n

-- The loop of `effective`, from a state.
unfoldable pub effective_from :
    Option ℕ → Dict BusinessKey Decision → List Decision → Dict BusinessKey Decision
effective_from upto state [] = state
effective_from upto state (d ∷ ds) =
    effective_from upto (if is_by upto d then store d.business_key d state else state) ds

unfoldable pub effective : Option ℕ → List Decision → Dict BusinessKey Decision
effective upto = effective_from upto []
