-- ===== src/Engine.antt =====
-- The engine of src/reconcileflow/engine.py: blocks by key, each resolved and audited in turn. What
-- the source appends to or updates in place is a state that each function returns.
pub mod Resolve
pub mod Audit
pub mod Invariance
pub mod Reasons
pub mod Soundness
pub mod Completeness
use reconcileflow.Base.{Bool, none, some, List, [], ◌∷◌, ◌++◌, ltb, length, Option}
use reconcileflow.Base.Order.{Text, nat_ord, list_ord, ◌<=◌}
use reconcileflow.Base.Sorting.{sort_by, by_key}
use reconcileflow.Base.Dict.{Dict, keys, find_or, alter}
use reconcileflow.Decimal.{decimal_zero}
use reconcileflow.Models.Rule.{rule_order}
use reconcileflow.Models.Counters.{Counter, bump, records_left, records_right, blocks}
use reconcileflow.Models.{Record, Tolerance, MatchResult}
use Resolve.{Resolution, apply_rules}
use Audit.{audit_unmatched}

abbrev pub BlockKey : Type 0
BlockKey = List Text

unfoldable pub blocking_key : Record → BlockKey
blocking_key r = elim r.currency [
  | none ↦ r.account ∷ []
  | some currency ↦ r.account ∷ currency ∷ []
]

-- The left and the right records of a block.
abbrev pub Block : Type 0
Block = List Record × List Record

-- `sorted(records, key=lambda r: r.id)`
unfoldable pub by_id : List Record → List Record
by_id = sort_by (by_key (λ (r : Record). r.id))

-- `len(rights) > tol.max_block_candidates`
unfoldable pub is_oversized : Tolerance → List Record → Bool
is_oversized tol rights = ltb tol.max_block_candidates (length rights)

-- The state of a block before any rule.
abbrev pub unresolved : MatchResult → Resolution
unresolved out = record {
  taken_left = [];
  taken_right = [];
  matches = out.matches;
  counters = out.counters;
}

unfoldable pub resolve_block : Tolerance → List Record → List Record → MatchResult → Resolution
resolve_block tol lefts rights out =
    apply_rules tol (is_oversized tol rights) lefts rights rule_order (unresolved out)

-- The records of a block are sorted by id before anything else.
unfoldable pub block_resolution : Tolerance → Block → MatchResult → Resolution
block_resolution tol (block_left, block_right) out =
    resolve_block tol (by_id block_left) (by_id block_right) out

unfoldable pub reconcile_block : Tolerance → Block → MatchResult → MatchResult
reconcile_block tol (block_left, block_right) out =
    let lefts = by_id block_left in
    let rights = by_id block_right in
    let s = block_resolution tol (block_left, block_right) out in
    let a =
      audit_unmatched lefts rights tol s.taken_left s.taken_right (is_oversized tol rights)
        (record { rejects = out.rejects; counters = s.counters }) in
    record { matches = s.matches; rejects = a.rejects; counters = a.counters }

-- `blocks[blocking_key(record)][0].append(record)`, and `[1]`.
unfoldable pub add_left : Record → Dict BlockKey Block → Dict BlockKey Block
add_left r = alter ([], []) (blocking_key r) (λ b. (b.0 ++ r ∷ [], b.1))

unfoldable pub add_right : Record → Dict BlockKey Block → Dict BlockKey Block
add_right r = alter ([], []) (blocking_key r) (λ b. (b.0, b.1 ++ r ∷ []))

unfoldable pub add_lefts : List Record → Dict BlockKey Block → Dict BlockKey Block
add_lefts [] d = d
add_lefts (r ∷ rs) d = add_lefts rs (add_left r d)

unfoldable pub add_rights : List Record → Dict BlockKey Block → Dict BlockKey Block
add_rights [] d = d
add_rights (r ∷ rs) d = add_rights rs (add_right r d)

unfoldable pub blocks_of : List Record → List Record → Dict BlockKey Block
blocks_of left right = add_rights right (add_lefts left [])

-- `for key in sorted(blocks): ...`
unfoldable pub reconcile_blocks :
    Tolerance → Dict BlockKey Block → List BlockKey → MatchResult → MatchResult
reconcile_blocks tol d [] out = out
reconcile_blocks tol d (key ∷ ks) out =
    reconcile_blocks tol d ks (reconcile_block tol (find_or ([], []) key d) out)

-- `Tolerance()`
abbrev pub default_tolerance : Tolerance
default_tolerance = record {
  amount_abs = decimal_zero;
  amount_rel = decimal_zero;
  date_days = 0;
  max_aggregate_size = 3;
  max_block_candidates = 32;
}

unfoldable pub tolerance_or_default : Option Tolerance → Tolerance
tolerance_or_default none = default_tolerance
tolerance_or_default (some tol) = tol

unfoldable pub reconcile : List Record → List Record → Option Tolerance → MatchResult
reconcile left right tolerance =
    let tol = tolerance_or_default tolerance in
    let d = blocks_of left right in
    let counters =
      bump blocks (length d)
        (bump records_right (length right) (bump records_left (length left) [])) in
    reconcile_blocks tol d (sort_by ◌<=◌ (keys d))
      (record { matches = []; rejects = []; counters = counters })
