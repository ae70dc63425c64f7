-- ===== src/Stream/Termination.antt =====
-- The loop of `_settle` ends: each round withdraws a record, so a block's open records bound it.
use reconcileflow.Base.{
  ℕ, zero, suc, ◌+◌, ◌<◌, ◌≡◌, ap, Bool, Option, none, some, List, [], ◌∷◌, arith, length, inl, inr,
  Bool-cases, Option-cases, is_empty, ◌&&◌,
}
use reconcileflow.Base.Order.{Text, nat_ord, list_ord, ◌==◌}
use reconcileflow.Base.Dict.{Dict}
use reconcileflow.Engine.{BlockKey, blocking_key}
use reconcileflow.Models.{Record}
use reconcileflow.Stream.{
  Side, left, right, on, key_ord, BlockState, Decision, Entry, arrival, progress, StreamConfig,
  empty_block,
}
use reconcileflow.Base.Raised.{Result, ok, or_key_error, >>=-eq-ok, ok-injective}
use reconcileflow.Stream.Watermark.{Settings, settings_of}
use reconcileflow.Base.Dict.{find}
use reconcileflow.Stream.Evaluate.{proposals_of}
use reconcileflow.Stream.Emit.{State, find_key}
use reconcileflow.Stream.Ends.{
  Ends, Ends-ok, Ends-or_key_error, Ends-bind, proposals_of-Ends, closing-Ends,
}
use reconcileflow.Stream.Settle.{
  remove, Closing, closing, withdraw, open_records, evaluate, finalise, finalise_all, re_evaluate,
  settle_round, settle,
}
use reconcileflow.Stream.Replay.{
  settle_block, refusal, admit, accept, arrive, settle_blocks, feed, feed_all, initial, replay,
  record_eq,
}
use reconcileflow.Base.Dict.{find_or}

-- A record that is found and removed leaves the pool one shorter.
length-remove :
    (k : Text) (d : Dict Text Record) {r : Record}
    → find k d ≡ some r
    → length (remove k d) + 1 ≡ length d
unfolding find remove
length-remove k [] e = cc
length-remove k ((j, v) ∷ d) e = elim (Bool-cases (j == k)) [
  | inl h ↦ rw h (omega arith)
  | inr h ↦ rw h (omega (arith, length-remove k d (rw h at e)))
]

or_key_error-ok {ℓ} : {A : Type ℓ} (o : Option A) {a : A} → or_key_error o ≡ ok a → o ≡ some a
or_key_error-ok none e = cc
or_key_error-ok (some b) e = cc

open_records-withdraw :
    (side : Side) (id : Text) (r : Record) (b : BlockState)
    → find id (on side b.pool) ≡ some r
    → open_records (withdraw side id r b) + 1 ≡ open_records b
unfolding open_records withdraw
open_records-withdraw left id r b e = omega (arith, length-remove id b.pool.on_left e)
open_records-withdraw right id r b e = omega (arith, length-remove id b.pool.on_right e)

module _ (hash : Text → Text) (s : Settings) where
  evaluate-Ends : (st : State) (b : BlockState) → Ends (evaluate hash s st b)
  unfolding evaluate
  evaluate-Ends st b = Ends-bind (proposals_of s b) _ (proposals_of-Ends s b) (λ d _. Ends-ok _)

  re_evaluate-Ends : (st : State) (b : BlockState) → Ends (re_evaluate hash s st b)
  unfolding re_evaluate
  re_evaluate-Ends st b = elim (Bool-cases (is_empty b.pool.on_left && is_empty b.pool.on_right)) [
    | inl h ↦ rw h (Ends-ok st)
    | inr h ↦ rw h (evaluate-Ends st b)
  ]

  finalise-shrinks :
      (c : Decision × Bool) (st : State) (b : BlockState) {st' : State} {b' : BlockState}
      → finalise hash s c st b ≡ ok (st', b')
      → open_records b' + 1 ≡ open_records b
  unfolding finalise
  finalise-shrinks (d, forced) st b e =
      let (side, id) = d.business_key in
      let (r, e₁, e₂) = >>=-eq-ok (or_key_error (find id (on side b.pool))) _ e in
      rw (← ap (λ (p : State × BlockState). open_records p.1) (ok-injective e₂))
        (open_records-withdraw side id r b (or_key_error-ok _ e₁))

  finalise_all-shrinks :
      (cs : Closing) (st : State) (b : BlockState) {st' : State} {b' : BlockState}
      → finalise_all hash s cs st b ≡ ok (st', b')
      → open_records b' + length cs ≡ open_records b
  unfolding finalise_all
  finalise_all-shrinks [] st b e =
      omega (arith, ap (λ (p : State × BlockState). open_records p.1) (ok-injective e))
  finalise_all-shrinks (c ∷ cs) st b e =
      let ((st₁, b₁), e₁, e₂) = >>=-eq-ok (finalise hash s c st b) _ e in
      omega (arith, finalise-shrinks c st b e₁, finalise_all-shrinks cs st₁ b₁ e₂)

  finalise-Ends :
      (c : Decision × Bool) (st : State) (b : BlockState) → Ends (finalise hash s c st b)
  unfolding finalise
  finalise-Ends (d, forced) st b =
      Ends-bind (or_key_error (find d.business_key.1 (on d.business_key.0 b.pool))) _
        (Ends-or_key_error _) (λ r _. Ends-ok _)

  finalise_all-Ends :
      (cs : Closing) (st : State) (b : BlockState) → Ends (finalise_all hash s cs st b)
  unfolding finalise_all
  finalise_all-Ends [] st b = Ends-ok _
  finalise_all-Ends (c ∷ cs) st b =
      Ends-bind (finalise hash s c st b) _ (finalise-Ends c st b)
        (λ (st₁, b₁) _. finalise_all-Ends cs st₁ b₁)

  settle_round-Ends :
      (again : State → BlockState → Result (State × BlockState)) (cs : Closing) (st : State)
      (b : BlockState)
      → ((t : State) (c : BlockState) → open_records c < open_records b → Ends (again t c))
      → Ends (settle_round hash s again cs st b)
  unfolding settle_round
  settle_round-Ends again [] st b ih = Ends-ok _
  settle_round-Ends again (c ∷ cs) st b ih =
      Ends-bind (finalise_all hash s (c ∷ cs) st b) _ (finalise_all-Ends (c ∷ cs) st b)
        (λ (st₁, b₁) e.
          Ends-bind (re_evaluate hash s st₁ b₁) _ (re_evaluate-Ends st₁ b₁)
            (λ st₂ _. ih st₂ b₁ (omega (arith, finalise_all-shrinks (c ∷ cs) st b e))))

  -- The loop of `_settle` never runs out of fuel once the fuel passes the number of open records.
  pub settle-Ends :
      (fuel : ℕ) (st : State) (b : BlockState)
      → open_records b < fuel
      → Ends (settle hash s fuel st b)
  unfolding settle
  settle-Ends zero st b h = absurd (omega arith)
  settle-Ends (suc fuel) st b h = Ends-bind (closing s st b) _ (closing-Ends s st b) (λ cs _.
      settle_round-Ends (settle hash s fuel) cs st b (λ t c k. settle-Ends fuel t c (omega arith)))

  settle_block-Ends :
      (k : BlockKey) (st : State) (b : BlockState) → Ends (settle_block hash s k st b)
  unfolding settle_block
  settle_block-Ends k st b =
      Ends-bind (settle hash s (suc (open_records b)) st b) _ (settle-Ends _ st b (omega arith))
        (λ p _. Ends-ok _)

  settle_blocks-Ends : (ks : List BlockKey) (st : State) → Ends (settle_blocks hash s ks st)
  unfolding settle_blocks
  settle_blocks-Ends [] st = Ends-ok st
  settle_blocks-Ends (k ∷ ks) st =
      Ends-bind (settle_block hash s k st (find_or empty_block k st.blocks)) _
        (settle_block-Ends k st _) (λ st' _. settle_blocks-Ends ks st')

  accept-Ends : (side : Side) (r : Record) (st : State) → Ends (accept hash s side r st)
  unfolding accept
  accept-Ends side r st =
      let b = find_or empty_block (blocking_key r) st.blocks in
      elim (Option-cases (refusal s st side r b)) [
        | inl h ↦
            rw (accept, h)
              (Ends-bind (evaluate hash s st (admit side r b)) _ (evaluate-Ends st (admit side r b))
                (λ st' _. settle_block-Ends (blocking_key r) st' (admit side r b)))
        | inr (reason, h) ↦ rw (accept, h) (Ends-ok _)
      ]

  arrive-Ends : (side : Side) (r : Record) (st : State) → Ends (arrive hash s side r st)
  unfolding arrive
  arrive-Ends side r st = elim (Option-cases (find_key (side, r.id) st.seen)) [
    | inl h ↦ rw (arrive, h) (accept-Ends side r _)
    | inr (old, h) ↦ elim (Bool-cases (record_eq old r)) [
      | inl same ↦ rw (arrive, h, same) (Ends-ok _)
      | inr other ↦ rw (arrive, h, other) (λ e. cc)
    ]
  ]

  feed-Ends : (e : Entry) (st : State) → Ends (feed hash s e st)
  unfolding feed
  feed-Ends (arrival side r) st = arrive-Ends side r st
  feed-Ends (progress side until) st = settle_blocks-Ends _ _

  feed_all-Ends : (es : List Entry) (st : State) → Ends (feed_all hash s es st)
  unfolding feed_all
  feed_all-Ends [] st = Ends-ok st
  feed_all-Ends (e ∷ es) st =
      Ends-bind (feed hash s e st) _ (feed-Ends e st) (λ st' _. feed_all-Ends es st')

settings_of-Ends : (config : StreamConfig) → Ends (settings_of config)
unfolding settings_of
settings_of-Ends config e = ground arith

-- A replay of any journal under any configuration ends: it returns, or raises an exception of the
-- source; the fuel given to the loop of `_settle`, one more than the open records, is enough.
pub replay-Ends :
    (hash : Text → Text) (journal : List Entry) (config : StreamConfig)
    → Ends (replay hash journal config)
unfolding replay
replay-Ends hash journal config = Ends-bind (settings_of config) _ (settings_of-Ends config) (λ s _.
    Ends-bind (feed_all hash s journal initial) _ (feed_all-Ends hash s journal initial)
      (λ st _. Ends-ok _))
