-- ===== src/Engine/Soundness.antt =====
-- The matches of a block: each by the criterion of its rule, and no record in two of them.
use mathlib.Core.List.{append-nil}
use reconcileflow.Base.{◌≡◌, refl, sym, List, [], ◌++◌, All}
use reconcileflow.Base.Order.{nat_ord, list_ord}
use reconcileflow.Models.Rule.{rule_order}
use reconcileflow.Models.{Record, Tolerance, Match, MatchResult}
use reconcileflow.Rules.Licence.{Licensed}
use reconcileflow.Rules.Soundness.{generate-Licensed}
use reconcileflow.Engine.Resolve.{available}
use reconcileflow.Engine.Resolve.Exclusive.{
  IsResolved, IsExclusive, lefts_of, rights_of, apply_rules-IsResolved,
}
use reconcileflow.Engine.{
  by_id, is_oversized, unresolved, resolve_block, reconcile_block, block_resolution,
}

pub block_resolution-IsResolved :
    (tol : Tolerance) (bl br : List Record) (out : MatchResult)
    → IsResolved
        (Licensed tol (by_id bl) (by_id br))
        out.matches
        (block_resolution tol (bl, br) out)
unfolding block_resolution resolve_block available lefts_of rights_of
block_resolution-IsResolved tol bl br out =
    apply_rules-IsResolved _ out.matches tol (is_oversized tol (by_id br)) (by_id bl) (by_id br)
      (λ rule tl tr. generate-Licensed tol (by_id bl) (by_id br) _ _ rule) rule_order
      (unresolved out)
      (record {
        new = [];
        appended = sym (append-nil out.matches);
        left_ids = refl;
        right_ids = refl;
        exclusive = tt;
        licensed = tt;
      })

-- A block only appends matches. Each is licensed by its rule: a shared reference; equal amounts, or
-- amounts within the tolerance, in the date window; or between two and `max_aggregate_size`
-- distinct places among the rights in the window whose sum is within the tolerance. None takes a
-- left or a right record that an earlier match of the block has taken.
pub reconcile_block-matches :
    (tol : Tolerance) (bl br : List Record) (out : MatchResult)
    → (new : List Match) × ((reconcile_block tol (bl, br) out).matches ≡ out.matches ++ new)
      × IsExclusive [] [] new
      × All (Licensed tol (by_id bl) (by_id br)) new
unfolding reconcile_block block_resolution
reconcile_block-matches tol bl br out =
    let v = block_resolution-IsResolved tol bl br out in
    (v.new, v.appended, v.exclusive, v.licensed)
