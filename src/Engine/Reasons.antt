-- ===== src/Engine/Reasons.antt =====
-- Every pair of an unmatched record carries a reason: `_pair_reject_reason` never returns `None` in
-- the audit, since a free pair inside both bounds is always matched.
use reconcileflow.Base.{
  ◌≡◌, refl, inl, inr, Bool, true, false, none, some, List, [], ◌∷◌, In, here, there, In-left,
  In-right, Bool-cases, ltb, is_empty, is_empty_of_In,
}
use reconcileflow.Base.Order.{Text, nat_ord, list_ord, contains}
use reconcileflow.Base.Sorting.{by_key, In-sort_by}
use reconcileflow.Decimal.{abs, sub, lt, eq}
use reconcileflow.Models.{
  Record, Tolerance, MatchResult, Reject, RejectReason, date_out_of_window, amount_out_of_tolerance,
  lost_to_better_candidate, block_too_large,
}
use reconcileflow.Rules.{date_gap, amount_tolerance, present}
use reconcileflow.Rules.Pairs.{In-collect, m0-proposes, m1-proposes, m2-proposes}
use reconcileflow.Engine.Resolve.{is_aggregate}
use reconcileflow.Engine.Resolve.Maximal.{AreFree, apply_rules-not_free}
use reconcileflow.Engine.Audit.{
  Audit, pair_reject_reason, pair_reject, left_rejects, audit_left, audit_lefts, audit_unmatched,
}
use reconcileflow.Engine.{
  by_id, is_oversized, unresolved, resolve_block, block_resolution, reconcile_block,
}

module _ (tol : Tolerance) (lefts rights : List Record) (out : MatchResult) (l r : Record)
    (ml : In l lefts) (mr : In r rights) where
  -- No two free records of a block carry the same reference, whatever their amounts and dates.
  pub no_free_reference :
      (ref : Text)
      → present l.reference ≡ some ref
      → present r.reference ≡ some ref
      → ¬ AreFree l r (resolve_block tol lefts rights out)
  unfolding resolve_block is_aggregate
  no_free_reference ref el er =
      apply_rules-not_free tol (is_oversized tol rights) lefts rights l r ml mr (unresolved out)
        here refl (λ ls rs a b. m0-proposes tol l r a b ref el er)

  -- No two free records of a block have equal amounts within the date window.
  pub no_free_exact :
      eq l.amount r.amount ≡ true
      → ltb tol.date_days (date_gap l.value_date r.value_date) ≡ false
      → ¬ AreFree l r (resolve_block tol lefts rights out)
  unfolding resolve_block is_aggregate
  no_free_exact ea ed =
      apply_rules-not_free tol (is_oversized tol rights) lefts rights l r ml mr (unresolved out)
        (there here) refl (λ ls rs a b. m1-proposes tol l r a b ea ed)

  -- No two free records of a block are within both the tolerance and the date window.
  pub no_free_tolerant :
      lt (amount_tolerance l.amount tol) (abs (sub l.amount r.amount)) ≡ false
      → ltb tol.date_days (date_gap l.value_date r.value_date) ≡ false
      → ¬ AreFree l r (resolve_block tol lefts rights out)
  unfolding resolve_block is_aggregate
  no_free_tolerant ea ed =
      apply_rules-not_free tol (is_oversized tol rights) lefts rights l r ml mr (unresolved out)
        (there (there here)) refl (λ ls rs a b. m2-proposes tol l r a b ea ed)

  -- For an unmatched left record and any right record of its block there is a reason.
  pub pair_has_reason :
      contains l.id (resolve_block tol lefts rights out).taken_left ≡ false
      → (reason : RejectReason) × (pair_reject_reason l r tol
            (contains r.id (resolve_block tol lefts rights out).taken_right)
          ≡ some reason)
  unfolding pair_reject_reason
  pair_has_reason free =
      let taken = contains r.id (resolve_block tol lefts rights out).taken_right in
      elim (Bool-cases taken) [
        | inl t ↦ (lost_to_better_candidate, rw t refl)
        | inr t ↦ elim (Bool-cases (ltb tol.date_days (date_gap l.value_date r.value_date))) [
          | inl d ↦ (date_out_of_window, rw (t, d) refl)
          | inr d ↦
              elim (Bool-cases (lt (amount_tolerance l.amount tol) (abs (sub l.amount r.amount)))) [
                | inl a ↦ (amount_out_of_tolerance, rw (t, d, a) refl)
                | inr a ↦ absurd (no_free_tolerant a d (record { left = free; right = t }))
              ]
        ]
      ]

-- The audit only appends.
In-audit_lefts_old :
    (tol : Tolerance) (taken_right : List Text) (oversized : Bool) (rights : List Record)
    (taken_left : List Text) (ls : List Record) {x : Reject} (a : Audit)
    → In x a.rejects
    → In x (audit_lefts tol taken_right oversized rights taken_left ls a).rejects
unfolding audit_lefts audit_left
In-audit_lefts_old tol right ov rights tl [] a m = m
In-audit_lefts_old tol right ov rights tl (l ∷ ls) a m =
    In-audit_lefts_old tol right ov rights tl ls (audit_left tol right ov rights tl l a)
      (elim (Bool-cases (contains l.id tl)) [
        | inl e ↦ rw (e, audit_left) m
        | inr e ↦ rw (e, audit_left) (In-left (left_rejects tol right ov rights l) m)
      ])

-- Each unmatched left record's rejects are in the audit.
In-audit_lefts :
    (tol : Tolerance) (taken_right : List Text) (oversized : Bool) (rights : List Record)
    (taken_left : List Text) {l : Record} {ls : List Record} {x : Reject} (a : Audit)
    → contains l.id taken_left ≡ false
    → In x (left_rejects tol taken_right oversized rights l)
    → In l ls
    → In x (audit_lefts tol taken_right oversized rights taken_left ls a).rejects
unfolding audit_lefts audit_left
In-audit_lefts tol right ov rights tl {l = l} a e m (here {xs = ls}) =
    In-audit_lefts_old tol right ov rights tl ls (audit_left tol right ov rights tl l a)
      (rw (e, audit_left) (In-right a.rejects m))
In-audit_lefts tol right ov rights tl a e m (there {y = y} k) =
    In-audit_lefts tol right ov rights tl (audit_left tol right ov rights tl y a) e m k

-- A block only appends rejects.
pub In-reconcile_block_old :
    (tol : Tolerance) (bl br : List Record) (out : MatchResult) {x : Reject}
    → In x out.rejects
    → In x (reconcile_block tol (bl, br) out).rejects
unfolding reconcile_block audit_unmatched
In-reconcile_block_old tol bl br out m =
    In-audit_lefts_old tol _ (is_oversized tol (by_id br)) (by_id br) _ (by_id bl) _ m

module _ (tol : Tolerance) (bl br : List Record) (out : MatchResult) {l : Record} (ml : In l bl)
    (free : contains l.id (block_resolution tol (bl, br) out).taken_left ≡ false) where
  pub In-reconcile_block :
      {x : Reject}
      → In x (
          left_rejects tol
            (block_resolution tol (bl, br) out).taken_right
            (is_oversized tol (by_id br))
            (by_id br)
            l)
      → In x (reconcile_block tol (bl, br) out).rejects
  unfolding reconcile_block block_resolution audit_unmatched by_id
  In-reconcile_block m =
      In-audit_lefts tol _ (is_oversized tol (by_id br)) (by_id br) _ _ free m (In-sort_by _ ml)

  -- A block past the bound is deferred: each unmatched left record leaves with BLOCK_TOO_LARGE.
  pub oversized-deferred :
      is_oversized tol (by_id br) ≡ true
      → is_empty (by_id br) ≡ false
      → In
          (record { left_id = l.id; right_id = none; reason = block_too_large })
          (reconcile_block tol (bl, br) out).rejects
  unfolding left_rejects
  oversized-deferred o e = In-reconcile_block (rw (e, o) here)

  -- Within the bound, the audit of an unmatched left record names every right record of its block,
  -- with the reason that applies to the pair.
  pub every_pair_audited :
      {r : Record}
      → In r br
      → is_oversized tol (by_id br) ≡ false
      → (reason : RejectReason) × (pair_reject_reason l r tol
            (contains r.id (block_resolution tol (bl, br) out).taken_right)
          ≡ some reason)
        × In
            (record { left_id = l.id; right_id = some r.id; reason = reason })
            (reconcile_block tol (bl, br) out).rejects
  unfolding left_rejects block_resolution pair_reject by_id
  every_pair_audited {r} mr o =
      let (reason, e) =
        pair_has_reason tol (by_id bl) (by_id br) out l r (In-sort_by _ ml) (In-sort_by _ mr)
          free in
      (
        reason,
        e,
        In-reconcile_block (
            rw (is_empty_of_In (In-sort_by (by_key (λ (x : Record). x.id)) mr), o)
              (In-left _
                (In-collect (pair_reject tol _ l) (rw (e, pair_reject) here) (In-sort_by _ mr)))),
      )
