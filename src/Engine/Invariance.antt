-- ===== src/Engine/Invariance.antt =====
-- The engine's central property: `reconcile` does not depend on the order of its inputs.
use mathlib.Core.List.{Perm, Permᴰ, Nodup}
use mathlib.Core.List.Permᴰ
use mathlib.Core.List.Nodup
use mathlib.Core.Logic.{∥∥₁_elim}
use reconcileflow.Base.{
  ◌≡◌, refl, ◌∙◌, Option, List, [], ◌∷◌, ◌++◌, map, keep, Bool, inl, inr, Bool-cases,
}
use reconcileflow.Base.Order.{Text, nat_ord, list_ord, ◌==◌}
use reconcileflow.Base.Sorting.{sort_by-eq_of_perm, sort-eq_of_permᴰ}
use reconcileflow.Base.Dict.{Dict, keys, find_or, find_or-alter, keys-alter, length-keys}
use reconcileflow.Base.Shuffle.{
  length-eq_of_permᴰ, keep-permᴰ, map-keep-sublist, note_keys, note_keys-permᴰ,
  note_keys-permᴰ_keys,
}
use reconcileflow.Models.{Record, Tolerance, MatchResult}
use reconcileflow.Engine.{
  BlockKey, Block, blocking_key, by_id, block_resolution, reconcile_block, add_left, add_right,
  add_lefts, add_rights, blocks_of, reconcile_blocks, reconcile,
}
use mathlib.Core.List.{append_assoc, append-nil}

abbrev pub record_id : Record → Text
record_id r = r.id

abbrev pub in_block : BlockKey → Record → Bool
in_block k r = blocking_key r == k

-- What a block holds after the left records were added: those with its key, in order.
find_or-add_lefts :
    (k : BlockKey) (ls : List Record) (d : Dict BlockKey Block)
    → find_or ([], []) k (add_lefts ls d)
      ≡ ((find_or ([], []) k d).0 ++ keep (in_block k) ls, (find_or ([], []) k d).1)
unfolding add_lefts add_left
find_or-add_lefts k [] d = simp append-nil
find_or-add_lefts k (r ∷ ls) d =
    find_or-add_lefts k ls (add_left r d) ∙ elim (Bool-cases (blocking_key r == k)) [
      | inl e ↦ simp (find_or-alter, e, append_assoc)
      | inr e ↦ simp (find_or-alter, e)
    ]

find_or-add_rights :
    (k : BlockKey) (rs : List Record) (d : Dict BlockKey Block)
    → find_or ([], []) k (add_rights rs d)
      ≡ ((find_or ([], []) k d).0, (find_or ([], []) k d).1 ++ keep (in_block k) rs)
unfolding add_rights add_right
find_or-add_rights k [] d = simp append-nil
find_or-add_rights k (r ∷ rs) d =
    find_or-add_rights k rs (add_right r d) ∙ elim (Bool-cases (blocking_key r == k)) [
      | inl e ↦ simp (find_or-alter, e, append_assoc)
      | inr e ↦ simp (find_or-alter, e)
    ]

-- A block is the pair of the records that carry its key.
pub find_or-blocks_of :
    (k : BlockKey) (left right : List Record)
    → find_or ([], []) k (blocks_of left right) ≡ (keep (in_block k) left, keep (in_block k) right)
unfolding blocks_of find_or
find_or-blocks_of k left right = simp (find_or-add_rights, find_or-add_lefts)

keys-add_lefts :
    (ls : List Record) (d : Dict BlockKey Block)
    → keys (add_lefts ls d) ≡ note_keys (map blocking_key ls) (keys d)
unfolding add_lefts add_left note_keys
keys-add_lefts [] d = refl
keys-add_lefts (r ∷ ls) d = keys-add_lefts ls (add_left r d) ∙ simp keys-alter

keys-add_rights :
    (rs : List Record) (d : Dict BlockKey Block)
    → keys (add_rights rs d) ≡ note_keys (map blocking_key rs) (keys d)
unfolding add_rights add_right note_keys
keys-add_rights [] d = refl
keys-add_rights (r ∷ rs) d = keys-add_rights rs (add_right r d) ∙ simp keys-alter

pub keys-blocks_of :
    (left right : List Record)
    → keys (blocks_of left right)
      ≡ note_keys (map blocking_key right) (note_keys (map blocking_key left) [])
unfolding blocks_of
keys-blocks_of left right = simp (keys-add_rights, keys-add_lefts)

keys-permᴰ :
    {left left' right right' : List Record}
    → Permᴰ left left'
    → Permᴰ right right'
    → Permᴰ (keys (blocks_of left right)) (keys (blocks_of left' right'))
keys-permᴰ {left'} {right} p q =
    rw (keys-blocks_of, keys-blocks_of)
      (Permᴰ.trans
        (note_keys-permᴰ_keys (map blocking_key right)
          (note_keys-permᴰ [] (Permᴰ.map blocking_key p)))
        (note_keys-permᴰ (note_keys (map blocking_key left') []) (Permᴰ.map blocking_key q)))

Records-set : IsSet (List Record)
Records-set = hlevel

-- Sorting the records of a block by id undoes any order of the input.
by_id-keep :
    (p : Record → Bool) {xs ys : List Record}
    → Permᴰ xs ys
    → Nodup (map record_id xs)
    → by_id (keep p xs) ≡ by_id (keep p ys)
unfolding by_id
by_id-keep p {xs} q distinct =
    sort_by-eq_of_perm record_id Records-set ∣ keep-permᴰ p q ∣₁
      (Nodup.sublist (map-keep-sublist record_id p xs) distinct)

module _ (tol : Tolerance) {left left' right right' : List Record} (p : Permᴰ left left')
    (q : Permᴰ right right') (distinct_left : Nodup (map record_id left))
    (distinct_right : Nodup (map record_id right)) where
  reconcile_block-perm :
      (k : BlockKey) (out : MatchResult)
      → reconcile_block tol (find_or ([], []) k (blocks_of left right)) out
        ≡ reconcile_block tol (find_or ([], []) k (blocks_of left' right')) out
  unfolding reconcile_block block_resolution
  reconcile_block-perm k out =
      rw
        (
          find_or-blocks_of k left right,
          find_or-blocks_of k left' right',
          by_id-keep (in_block k) p distinct_left,
          by_id-keep (in_block k) q distinct_right,
        )
        refl

  reconcile_blocks-perm :
      (ks : List BlockKey) (out : MatchResult)
      → reconcile_blocks tol (blocks_of left right) ks out
        ≡ reconcile_blocks tol (blocks_of left' right') ks out
  unfolding reconcile_blocks
  reconcile_blocks-perm [] out = refl
  reconcile_blocks-perm (k ∷ ks) out = rw reconcile_block-perm (reconcile_blocks-perm ks _)

reconcile-permᴰ :
    (left right : List Record) {left' right' : List Record} (tolerance : Option Tolerance)
    → Permᴰ left left'
    → Permᴰ right right'
    → Nodup (map record_id left)
    → Nodup (map record_id right)
    → reconcile left right tolerance ≡ reconcile left' right' tolerance
unfolding reconcile
reconcile-permᴰ left right {left'} {right'} tolerance p q dl dr =
    rw
      (
        ← length-keys (blocks_of left right),
        ← length-keys (blocks_of left' right'),
        length-eq_of_permᴰ (keys-permᴰ p q),
        sort-eq_of_permᴰ (keys-permᴰ p q),
        length-eq_of_permᴰ p,
        length-eq_of_permᴰ q,
      )
      (reconcile_blocks-perm _ p q dl dr _ _)

MatchResult-set : IsSet MatchResult
MatchResult-set = hlevel

-- Two presentations of the same records, in any order, give the same result to the last counter:
-- `reconcile` of permuted inputs is equal, provided that no id is repeated on a side.
pub reconcile-perm :
    (left right left' right' : List Record) (tolerance : Option Tolerance)
    → Perm left left'
    → Perm right right'
    → Nodup (map record_id left)
    → Nodup (map record_id right)
    → reconcile left right tolerance ≡ reconcile left' right' tolerance
reconcile-perm left right left' right' tolerance p q dl dr = ∥∥₁_elim p (MatchResult-set _ _) (λ p'.
    ∥∥₁_elim q (MatchResult-set _ _) (λ q'. reconcile-permᴰ left right tolerance p' q' dl dr))
