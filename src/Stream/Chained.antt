-- ===== src/Stream/Chained.antt =====
-- A whole replay only appends decisions, chains them, and keeps the last one of each key.
use mathlib.Core.Path.{subst}
use reconcileflow.Base.{
  zero, suc, ◌+◌, ◌≡◌, refl, ap, ◌∙◌, Bool, false, none, List, [], ◌∷◌, arith, inl, inr, Bool-cases,
  Option-cases, is_empty, ◌&&◌, ℕ,
}
use reconcileflow.Base.Order.{Text, nat_ord, list_ord}
use reconcileflow.Base.Dict.{find_or}
use reconcileflow.Models.{Record}
use reconcileflow.Engine.{BlockKey, blocking_key}
use reconcileflow.Stream.{
  Side, on, key_ord, Decision, final, BlockState, Entry, arrival, progress, empty_block,
}
use reconcileflow.Base.Raised.{Result, ok, or_key_error, >>=-eq-ok, ok-injective}
use reconcileflow.Stream.Watermark.{Settings}
use reconcileflow.Base.Dict.{find}
use reconcileflow.Stream.Emit.{State, find_key, store, emit}
use reconcileflow.Stream.Results.{effective}
use reconcileflow.Stream.History.{
  IsChained, Appends, Appends-same, Appends-trans, Extends, Extends-same, Extends-trans,
  emit-Extends, evaluate-Extends,
}
use reconcileflow.Stream.Settle.{
  Closing, closing, proposal_of, evaluate, finalise, finalise_all, re_evaluate, settle_round,
  settle, open_records,
}
use reconcileflow.Stream.Replay.{
  put_block, refusal, admit, alone, settle_block, accept, arrive, settle_blocks, feed, feed_all,
  record_eq, initial,
}

module _ (hash : Text → Text) (s : Settings) where
  finalise-Extends :
      (d : Decision) (forced : Bool) (st : State) (b : BlockState) {st' : State} {b' : BlockState}
      → finalise hash s (d, forced) st b ≡ ok (st', b')
      → Extends st st'
  unfolding finalise
  finalise-Extends d forced st b e =
      let (r, _, e') =
        >>=-eq-ok (or_key_error (find d.business_key.1 (on d.business_key.0 b.pool))) _ e in
      subst (Extends st) (ap (λ (p : State × BlockState). p.0) (ok-injective e'))
        (emit-Extends hash d.business_key (proposal_of d) final forced st)

  finalise_all-Extends :
      (cs : Closing) (st : State) (b : BlockState) {st' : State} {b' : BlockState}
      → finalise_all hash s cs st b ≡ ok (st', b')
      → Extends st st'
  unfolding finalise_all
  finalise_all-Extends [] st b e =
      Extends-same st _ (ground arith) (ground arith) (ground arith) (ground arith)
  finalise_all-Extends ((d, forced) ∷ cs) st b {st'} e =
      let ((st₁, b₁), e₁, e₂) = >>=-eq-ok (finalise hash s (d, forced) st b) _ e in
      Extends-trans st st₁ st' (finalise-Extends d forced st b e₁)
        (finalise_all-Extends cs st₁ b₁ e₂)

  re_evaluate-Extends :
      (st : State) (b : BlockState) {st' : State}
      → re_evaluate hash s st b ≡ ok st'
      → Extends st st'
  unfolding re_evaluate
  re_evaluate-Extends st b e =
      elim (Bool-cases (is_empty b.pool.on_left && is_empty b.pool.on_right)) [
        | inl h ↦
            subst (Extends st) (ok-injective (rw h at e)) (Extends-same st st refl refl refl refl)
        | inr h ↦ evaluate-Extends hash s st b (rw h at e)
      ]

  settle_round-Extends :
      (again : State → BlockState → Result (State × BlockState)) (cs : Closing) (st : State)
      (b : BlockState) {st' : State} {b' : BlockState}
      → ((t : State) (c : BlockState) (t' : State) (c' : BlockState)
          → again t c ≡ ok (t', c')
          → Extends t t')
      → settle_round hash s again cs st b ≡ ok (st', b')
      → Extends st st'
  unfolding settle_round
  settle_round-Extends again [] st b ih e =
      Extends-same st _ (ground arith) (ground arith) (ground arith) (ground arith)
  settle_round-Extends again (c ∷ cs) st b {st'} {b'} ih e =
      let ((st₁, b₁), e₁, e₂) = >>=-eq-ok (finalise_all hash s (c ∷ cs) st b) _ e in
      let (st₂, e₃, e₄) = >>=-eq-ok (re_evaluate hash s st₁ b₁) _ e₂ in
      Extends-trans st st₁ st' (finalise_all-Extends (c ∷ cs) st b e₁)
        (Extends-trans st₁ st₂ st' (re_evaluate-Extends st₁ b₁ e₃) (ih st₂ b₁ st' b' e₄))

  settle-Extends :
      (fuel : ℕ) (st : State) (b : BlockState) (st' : State) (b' : BlockState)
      → settle hash s fuel st b ≡ ok (st', b')
      → Extends st st'
  unfolding settle
  settle-Extends zero st b st' b' e = cc
  settle-Extends (suc fuel) st b st' b' e =
      let (cs, _, e₁) = >>=-eq-ok (closing s st b) _ e in
      settle_round-Extends (settle hash s fuel) cs st b (settle-Extends fuel) e₁

  settle_block-Extends :
      (k : BlockKey) (st : State) (b : BlockState) {st' : State}
      → settle_block hash s k st b ≡ ok st'
      → Extends st st'
  unfolding settle_block put_block
  settle_block-Extends k st b e =
      let ((st₁, b₁), e₁, e₂) = >>=-eq-ok (settle hash s (suc (open_records b)) st b) _ e in
      subst (Extends st) (ok-injective e₂) (
        Extends-trans st st₁ (put_block k b₁ st₁) (settle-Extends _ st b st₁ b₁ e₁)
          (Extends-same st₁ (put_block k b₁ st₁) refl refl refl refl))

  pub accept-Extends :
      (side : Side) (r : Record) (st : State) {st' : State}
      → accept hash s side r st ≡ ok st'
      → Extends st st'
  unfolding accept put_block
  accept-Extends side r st {st'} e =
      let b = find_or empty_block (blocking_key r) st.blocks in
      elim (Option-cases (refusal s st side r b)) [
        | inl h ↦
            let (st₁, e₁, e₂) =
              >>=-eq-ok (evaluate hash s st (admit side r b)) _ (rw (accept, h) at e) in
            Extends-trans st st₁ st' (evaluate-Extends hash s st (admit side r b) e₁)
              (settle_block-Extends (blocking_key r) st₁ (admit side r b) e₂)
        | inr (reason, h) ↦
            let t = emit hash (side, r.id) (alone s r reason) final false st in
            subst (Extends st) (ok-injective (rw (accept, h) at e)) (
              Extends-trans st t (put_block (blocking_key r) b t)
                (emit-Extends hash (side, r.id) (alone s r reason) final false st)
                (Extends-same t (put_block (blocking_key r) b t) refl refl refl refl))
      ]

  pub arrive-Appends :
      (side : Side) (r : Record) (st : State) {st' : State}
      → arrive hash s side r st ≡ ok st'
      → Appends st st'
  unfolding arrive
  arrive-Appends side r st {st'} e = elim (Option-cases (find_key (side, r.id) st.seen)) [
    | inl h ↦
        let counted = record st { seen = store (side, r.id) r st.seen; entries = st.entries + 1 } in
        Appends-trans st counted st' (Appends-same st counted refl refl)
          (accept-Extends side r counted (rw (arrive, h) at e)).appends
    | inr (old, h) ↦ elim (Bool-cases (record_eq old r)) [
      | inl same ↦
          subst (Appends st) (ok-injective (rw (arrive, h, same) at e))
            (Appends-same st (record st { duplicates = st.duplicates + 1 }) refl refl)
      | inr different ↦ absurd (cc (rw (arrive, h, different) at e))
    ]
  ]

  pub settle_blocks-Extends :
      (ks : List BlockKey) (st : State) {st' : State}
      → settle_blocks hash s ks st ≡ ok st'
      → Extends st st'
  unfolding settle_blocks
  settle_blocks-Extends [] st e =
      subst (Extends st) (ok-injective e) (Extends-same st st refl refl refl refl)
  settle_blocks-Extends (k ∷ ks) st {st'} e =
      let b = find_or empty_block k st.blocks in
      let (st₁, e₁, e₂) = >>=-eq-ok (settle_block hash s k st b) _ e in
      Extends-trans st st₁ st' (settle_block-Extends k st b e₁) (settle_blocks-Extends ks st₁ e₂)

  -- An entry that is accepted appends decisions and changes none. Each of them replaces the last
  -- decision of its business key before it, by id, with the next rank in that key's chain, or
  -- begins the chain; and `current` is updated with exactly these, in order.
  pub feed-Appends : (e : Entry) (st st' : State) → feed hash s e st ≡ ok st' → Appends st st'
  unfolding feed
  feed-Appends (arrival side r) st st' e = arrive-Appends side r st e
  feed-Appends (progress side until) st st' e =
      Appends-trans st _ st' (Appends-same st _ refl refl) (settle_blocks-Extends _ _ e).appends

  feed_all-Appends :
      (es : List Entry) (st st' : State) → feed_all hash s es st ≡ ok st' → Appends st st'
  unfolding feed_all
  feed_all-Appends [] st st' e = subst (Appends st) (ok-injective e) (Appends-same st st refl refl)
  feed_all-Appends (x ∷ es) st st' e =
      let (st₁, e₁, e₂) = >>=-eq-ok (feed hash s x st) _ e in
      Appends-trans st st₁ st' (feed-Appends x st st₁ e₁) (feed_all-Appends es st₁ st' e₂)

  -- From the start of a replay, the decisions form chains, and `current` is the effective state
  -- that `StreamResult.effective` derives from the history alone.
  pub feed_all-effective :
      (journal : List Entry) (st : State)
      → feed_all hash s journal initial ≡ ok st
      → IsChained [] st.decisions × (st.current ≡ effective none st.decisions)
  unfolding effective
  feed_all-effective journal st e =
      let x = feed_all-Appends journal initial st e in
      (rw x.appended x.chained, x.followed ∙ rw x.appended refl)
