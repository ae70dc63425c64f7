-- ===== src/Engine/Completeness.antt =====
-- No left record vanishes: each leaves the engine matched, or with a typed reason.
use reconcileflow.Base.{
  ◌≡◌, refl, sym, ◌⊎◌, inl, inr, true, false, Option, none, List, [], ◌∷◌, map, In, here, there,
  In-left, In-right, In-keep, In-cons, Bool-cases, is_empty, keep,
}
use reconcileflow.Base.Order.{Text, nat_ord, list_ord, ◌<=◌, ◌==◌, ==_refl, eq_of_==, contains}
use reconcileflow.Base.Membership.{In-of_contains}
use reconcileflow.Base.Sorting.{sort_by, In-sort_by}
use reconcileflow.Base.Dict.{Dict, find_or, note_key}
use reconcileflow.Base.Shuffle.{note_keys}
use reconcileflow.Models.{Record, Tolerance, Match, Reject, MatchResult, no_candidate}
use reconcileflow.Engine.Resolve.Exclusive.{lefts_of}
use reconcileflow.Engine.Audit.{left_rejects}
use reconcileflow.Engine.Reasons.{
  In-reconcile_block, In-reconcile_block_old, oversized-deferred, every_pair_audited,
}
use reconcileflow.Engine.Invariance.{in_block, find_or-blocks_of, keys-blocks_of}
use reconcileflow.Engine.Soundness.{block_resolution-IsResolved, reconcile_block-matches}
use reconcileflow.Engine.{
  BlockKey, Block, blocking_key, by_id, is_oversized, block_resolution, reconcile_block, blocks_of,
  reconcile_blocks, tolerance_or_default, reconcile,
}

-- What a result says of a left record: a match of it, or a reject of it.
pub data IsExplained (l : Record) (result : MatchResult) : Type 0 where
  matched : {m : Match} → In m result.matches → m.left_id ≡ l.id → IsExplained l result
  rejected : {x : Reject} → In x result.rejects → x.left_id ≡ l.id → IsExplained l result

In-lefts_of :
    (x : Text) (taken : List Text) (ms : List Match)
    → In x (lefts_of taken ms)
    → In x taken ⊎ ((m : Match) × In m ms × (m.left_id ≡ x))
unfolding lefts_of
In-lefts_of x taken [] k = inl k
In-lefts_of x taken (m ∷ ms) k = elim (In-lefts_of x (m.left_id ∷ taken) ms k) [
  | inl k' ↦ elim (In-cons k') [ inl e ↦ inr (m, here, sym e) | inr k'' ↦ inl k'' ]
  | inr (n, i, e) ↦ inr (n, there i, e)
]

not-In-nil : {x : Text} → ¬ In x []
not-In-nil m = elim m [ ]

some_right : (br : List Record) → is_empty (by_id br) ≡ false → (r : Record) × In r br
unfolding by_id sort_by
some_right [] e = absurd (cc e)
some_right (r ∷ rs) e = (r, here)

module _ (tol : Tolerance) (bl br : List Record) (out : MatchResult) {l : Record}
    (ml : In l bl) where
  matched-IsExplained :
      contains l.id (block_resolution tol (bl, br) out).taken_left ≡ true
      → IsExplained l (reconcile_block tol (bl, br) out)
  unfolding reconcile_block
  matched-IsExplained h =
      let v = block_resolution-IsResolved tol bl br out in
      elim (In-lefts_of l.id [] v.new (rw v.left_ids at (In-of_contains l.id _ h))) [
        | inl k ↦ absurd (not-In-nil k)
        | inr (m, i, e) ↦ matched {m = m} (rw v.appended (In-right out.matches i)) e
      ]

  rejected-IsExplained :
      contains l.id (block_resolution tol (bl, br) out).taken_left ≡ false
      → IsExplained l (reconcile_block tol (bl, br) out)
  unfolding left_rejects
  rejected-IsExplained h = elim (Bool-cases (is_empty (by_id br))) [
    | inl none_there ↦
        rejected
          (In-reconcile_block tol bl br out ml h
            {x = record { left_id = l.id; right_id = none; reason = no_candidate }}
            (rw none_there here))
          refl
    | inr some_there ↦ elim (Bool-cases (is_oversized tol (by_id br))) [
      | inl big ↦ rejected (oversized-deferred tol bl br out ml h big some_there) refl
      | inr small ↦
          let (r, mr) = some_right br some_there in
          let (reason, e, i) = every_pair_audited tol bl br out ml h mr small in rejected i refl
    ]
  ]

  -- In its block a left record is matched or has a reject.
  reconcile_block-IsExplained : IsExplained l (reconcile_block tol (bl, br) out)
  reconcile_block-IsExplained =
      elim (Bool-cases (contains l.id (block_resolution tol (bl, br) out).taken_left)) [
        | inl h ↦ matched-IsExplained h
        | inr h ↦ rejected-IsExplained h
      ]

module _ (l : Record) where
  -- Later blocks only append.
  reconcile_block-keeps :
      (tol : Tolerance) (bl br : List Record) (out : MatchResult)
      → IsExplained l out
      → IsExplained l (reconcile_block tol (bl, br) out)
  reconcile_block-keeps tol bl br out (matched {m = x} m e) =
      let (new, eq, _, _) = reconcile_block-matches tol bl br out in
      matched {m = x} (rw eq (In-left new m)) e
  reconcile_block-keeps tol bl br out (rejected m e) =
      rejected (In-reconcile_block_old tol bl br out m) e

  reconcile_blocks-keeps :
      (tol : Tolerance) (d : Dict BlockKey Block) (ks : List BlockKey) (out : MatchResult)
      → IsExplained l out
      → IsExplained l (reconcile_blocks tol d ks out)
  unfolding reconcile_blocks
  reconcile_blocks-keeps tol d [] out h = h
  reconcile_blocks-keeps tol d (k ∷ ks) out h =
      let (bl, br) = find_or ([], []) k d in
      reconcile_blocks-keeps tol d ks _ (reconcile_block-keeps tol bl br out h)

  reconcile_blocks-IsExplained :
      (tol : Tolerance) (left right : List Record) {k : BlockKey} {ks : List BlockKey}
      (out : MatchResult)
      → In l left
      → (blocking_key l == k) ≡ true
      → In k ks
      → IsExplained l (reconcile_blocks tol (blocks_of left right) ks out)
  unfolding reconcile_blocks
  reconcile_blocks-IsExplained tol left right {k} out m e (here {xs = ks}) =
      reconcile_blocks-keeps tol (blocks_of left right) ks _ (
        rw (find_or-blocks_of k left right) (
          reconcile_block-IsExplained tol (keep (in_block k) left) (keep (in_block k) right) out
            (In-keep (in_block k) e m)))
  reconcile_blocks-IsExplained tol left right out m e (there i) =
      reconcile_blocks-IsExplained tol left right _ m e i

-- The key of a record is among the keys of the blocks.
In-note_key : (k : BlockKey) (ks : List BlockKey) → In k (note_key k ks)
unfolding note_key
In-note_key k [] = here
In-note_key k (j ∷ ks) = elim (Bool-cases (j == k)) [
  | inl e ↦ rw e (rw (eq_of_== j k e) here)
  | inr e ↦ rw e (there (In-note_key k ks))
]

In-note_key_old :
    (k : BlockKey) {j : BlockKey} {ks : List BlockKey} → In j ks → In j (note_key k ks)
unfolding note_key
In-note_key_old k {j} (here {xs = ks}) = elim (Bool-cases (j == k)) [
  | inl e ↦ rw e here
  | inr e ↦ rw e here
]
In-note_key_old k (there {y = i} m) = elim (Bool-cases (i == k)) [
  | inl e ↦ rw e (there m)
  | inr e ↦ rw e (there (In-note_key_old k m))
]

In-note_keys_old :
    (xs : List BlockKey) {j : BlockKey} {ks : List BlockKey} → In j ks → In j (note_keys xs ks)
unfolding note_keys
In-note_keys_old [] m = m
In-note_keys_old (x ∷ xs) m = In-note_keys_old xs (In-note_key_old x m)

In-note_keys :
    {l : Record} {ls : List Record} (ks : List BlockKey)
    → In l ls
    → In (blocking_key l) (note_keys (map blocking_key ls) ks)
unfolding note_keys
In-note_keys {l} ks (here {xs = ls}) =
    In-note_keys_old (map blocking_key ls) (In-note_key (blocking_key l) ks)
In-note_keys ks (there {y = r} m) = In-note_keys (note_key (blocking_key r) ks) m

-- Every left record leaves `reconcile` in a match, or in a reject with its reason.
pub every_left-IsExplained :
    (left right : List Record) (tolerance : Option Tolerance) (l : Record)
    → In l left
    → IsExplained l (reconcile left right tolerance)
unfolding reconcile
every_left-IsExplained left right tolerance l m =
    reconcile_blocks-IsExplained l (tolerance_or_default tolerance) left right _ m
      (==_refl (blocking_key l))
      (In-sort_by ◌<=◌ (
        rw (keys-blocks_of left right)
          (In-note_keys_old (map blocking_key right) (In-note_keys [] m))))
