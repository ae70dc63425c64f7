-- ===== src/Stream/Arrivals.antt =====
-- What an arrival does when its record was seen before, or comes too late.
use reconcileflow.Base.{
  ℕ, ◌+◌, ◌≡◌, refl, true, false, Option, none, some, [], ◌∷◌, ◌++◌, arith, inl, inr, Bool-cases,
  eqb, leb, List, ◌<◌, ◌≤◌, max, ◌⊎◌, false, Option-cases, if◌then◌else◌,
}
use reconcileflow.Base.Order.{Text, nat_ord, list_ord, ◌==◌, ==_refl, ==_iff, eq_of_==}
use reconcileflow.Base.Dict.{Dict, alter, find_or}
use reconcileflow.Decimal.{Decimal, eq, le}
use reconcileflow.Models.{Record}
use reconcileflow.Engine.{BlockKey, blocking_key}
use reconcileflow.Stream.{
  Side, left, right, on, BusinessKey, key_ord, Entry, arrival, progress, Decision, BlockState,
  empty_block, final, break_type, late,
}
use reconcileflow.Base.Raised.{ok, ok-injective, >>=-eq-ok}
use reconcileflow.Stream.Watermark.{Settings, horizon, watermark, is_before, latest_of}
use reconcileflow.Stream.Emit.{State, find_key, store, emit, decide}
use reconcileflow.Stream.Chained.{accept-Extends, settle_blocks-Extends}
use reconcileflow.Stream.History.{effective_from-append}
use reconcileflow.Stream.Results.{effective_from, effective}
use reconcileflow.Stream.Replay.{
  arrive, accept, refusal, put_block, alone, feed, feed_all, record_eq, opt_text_eq,
}

find_key-store_self {ℓ} :
    {V : Type ℓ} (k : BusinessKey) (v : V) (d : Dict BusinessKey V)
    → find_key k (store k v d) ≡ some v
unfolding find_key store alter
find_key-store_self k v [] = rw (==_refl k) refl
find_key-store_self k v ((j, w) ∷ d) = elim (Bool-cases (j == k)) [
  | inl e ↦ rw e (rw e refl)
  | inr e ↦ rw e (rw e (find_key-store_self k v d))
]

-- What was stored first under a key is found after a new key is stored.
find_key-store_new {ℓ} :
    {V : Type ℓ} (j k : BusinessKey) (w : V) (d : Dict BusinessKey V) {v : V}
    → find_key j d ≡ none
    → find_key k d ≡ some v
    → find_key k (store j w d) ≡ some v
unfolding find_key store alter
find_key-store_new j k w [] new found = absurd (cc found)
find_key-store_new j k w ((i, u) ∷ d) new found = elim (Bool-cases (i == j)) [
  | inl e ↦ absurd (cc (rw e at new))
  | inr e ↦ elim (Bool-cases (i == k)) [
    | inl f ↦ rw e (rw f (rw f at found))
    | inr f ↦ rw e (rw f (find_key-store_new j k w d (rw e at new) (rw f at found)))
  ]
]

find_or-put {ℓ} :
    {V : Type ℓ} (default v : V) (j k : BlockKey) (d : Dict BlockKey V)
    → find_or default j (alter v k (λ _. v) d) ≡ (if k == j then v else find_or default j d)
unfolding find_or alter
find_or-put default v j k [] = ground arith
find_or-put default v j k ((i, u) ∷ d) =
    ground (arith, ==_iff i k, ==_iff i j, ==_iff k j, find_or-put default v j k d)

-- A dict with what a key has already put again under it reads the same.
find_or-put_same {ℓ} :
    {V : Type ℓ} (default : V) (j k : BlockKey) (d : Dict BlockKey V)
    → find_or default j (alter (find_or default k d) k (λ _. find_or default k d) d)
      ≡ find_or default j d
find_or-put_same default j k d = elim (Bool-cases (k == j)) [
  | inl e ↦ rw (find_or-put default (find_or default k d) j k d, e) (rw (eq_of_== k j e) refl)
  | inr e ↦ rw (find_or-put default (find_or default k d) j k d, e) refl
]

leb_refl : (n : ℕ) → leb n n ≡ true
leb_refl n = ground arith

eq_refl_decimal : (a : Decimal) → eq a a ≡ true
unfolding eq le
eq_refl_decimal a = rw leb_refl refl

opt_text_eq_refl : (o : Option Text) → opt_text_eq o o ≡ true
opt_text_eq_refl none = refl
opt_text_eq_refl (some t) = ==_refl t

eqb_refl : (n : ℕ) → eqb n n ≡ true
eqb_refl n = ground arith

record_eq_refl : (r : Record) → record_eq r r ≡ true
unfolding record_eq
record_eq_refl r =
    rw
      (
        ==_refl r.id,
        ==_refl r.account,
        eq_refl_decimal r.amount,
        eqb_refl r.value_date,
        opt_text_eq_refl r.reference,
        opt_text_eq_refl r.currency,
      )
      refl

-- `date.max.toordinal()`
abbrev pub last_date : ℕ
last_date = 3652059

-- A side has a date, from its block or announced, that a day and the lateness are before.
abbrev pub HasPassed : Settings → State → BlockState → Side → ℕ → Type 0
HasPassed s st b side day =
    (date : ℕ) × ((on side b.latest ≡ some date) ⊎ (on side st.progress ≡ some date))
    × (day + s.lateness < date)

latest_of-known :
    (x y : Option ℕ) (date : ℕ)
    → (x ≡ some date) ⊎ (y ≡ some date)
    → (known : ℕ) × (latest_of x y ≡ some known) × (date ≤ known)
latest_of-known none none date (inl e) = cc
latest_of-known none none date (inr e) = cc
latest_of-known none (some b) date (inl e) = cc
latest_of-known none (some b) date (inr e) = (b, refl, ground arith)
latest_of-known (some a) none date (inl e) = (a, refl, ground arith)
latest_of-known (some a) none date (inr e) = cc
latest_of-known (some a) (some b) date (inl e) = (max a b, refl, ground arith)
latest_of-known (some a) (some b) date (inr e) = (max a b, refl, ground arith)

is_before-watermark :
    (s : Settings) (st : State) (b : BlockState) (day : ℕ)
    → HasPassed s st b left day
    → HasPassed s st b right day
    → is_before day (watermark s st.progress b) ≡ true
unfolding watermark
is_before-watermark s st b day (p, e, h) (q, f, k) =
    let (x, e', h') = latest_of-known b.latest.on_left st.progress.on_left p e in
    let (y, f', k') = latest_of-known b.latest.on_right st.progress.on_right q f in
    rw (e', f') (ground arith)

module _ (hash : Text → Text) (s : Settings) where
  -- No entry forgets a record that was seen.
  feed-seen :
      (e : Entry) (key : BusinessKey) (st st' : State) {old : Record}
      → find_key key st.seen ≡ some old
      → feed hash s e st ≡ ok st'
      → find_key key st'.seen ≡ some old
  unfolding feed arrive
  feed-seen (progress side until) key st st' found e =
      let x = settle_blocks-Extends hash s _ _ e in rw x.seen_kept found
  feed-seen (arrival side r) key st st' found e =
      elim (Option-cases (find_key (side, r.id) st.seen)) [
        | inl new ↦
            let counted = record st {
              seen = store (side, r.id) r st.seen;
              entries = st.entries + 1;
            } in
            let x = accept-Extends hash s side r counted (rw (arrive, new) at e) in
            rw x.seen_kept (find_key-store_new (side, r.id) key r st.seen new found)
        | inr (first, h) ↦ elim (Bool-cases (record_eq first r)) [
          | inl same ↦ rw (← ok-injective (rw (arrive, h, same) at e)) found
          | inr different ↦ absurd (cc (rw (arrive, h, different) at e))
        ]
      ]

  feed_all-seen :
      (es : List Entry) (key : BusinessKey) (st st' : State) {old : Record}
      → find_key key st.seen ≡ some old
      → feed_all hash s es st ≡ ok st'
      → find_key key st'.seen ≡ some old
  unfolding feed_all
  feed_all-seen [] key st st' found e = rw (← ok-injective e) found
  feed_all-seen (x ∷ es) key st st' found e =
      let (st₁, e₁, e₂) = >>=-eq-ok (feed hash s x st) _ e in
      feed_all-seen es key st₁ st' (feed-seen x key st st₁ found e₁) e₂

  -- An arrival that was taken is in what was seen, as itself or as an equal record.
  arrive-seen :
      (side : Side) (r : Record) (st st' : State)
      → feed hash s (arrival side r) st ≡ ok st'
      → (old : Record) × (find_key (side, r.id) st'.seen ≡ some old) × (record_eq old r ≡ true)
  unfolding feed arrive
  arrive-seen side r st st' e = elim (Option-cases (find_key (side, r.id) st.seen)) [
    | inl new ↦
        let counted = record st { seen = store (side, r.id) r st.seen; entries = st.entries + 1 } in
        let x = accept-Extends hash s side r counted (rw (arrive, new) at e) in
        (r, rw x.seen_kept (find_key-store_self (side, r.id) r st.seen), record_eq_refl r)
    | inr (first, h) ↦ elim (Bool-cases (record_eq first r)) [
      | inl same ↦ (first, rw (← ok-injective (rw (arrive, h, same) at e)) h, same)
      | inr different ↦ absurd (cc (rw (arrive, h, different) at e))
    ]
  ]

  -- Delivery is idempotent: after an arrival was taken, and whatever entries were fed since, delivering
  -- the same record again on the same side counts one duplicate and changes nothing else.
  pub feed-redelivery :
      (side : Side) (r : Record) (later : List Entry) (st st' : State)
      → feed_all hash s (arrival side r ∷ later) st ≡ ok st'
      → feed hash s (arrival side r) st' ≡ ok (record st' { duplicates = st'.duplicates + 1 })
  unfolding feed_all feed arrive
  feed-redelivery side r later st st' e =
      let (st₁, e₁, e₂) = >>=-eq-ok (feed hash s (arrival side r) st) _ e in
      let (old, found, same) = arrive-seen side r st st₁ e₁ in
      let kept = feed_all-seen later (side, r.id) st₁ st' found e₂ in
      rw (feed, arrive, kept, same) refl

  -- An arrival of a new record, whose horizon is a date, is accepted and becomes at once a break
  -- when both sides, by their block or by their announced progress, have reached a date that is
  -- later than its value date by more than the lateness. The break is one final decision, not
  -- forced, appended to the decisions; it has the record as its only input, its horizon as the end
  -- of its window and the reason LATE, and is the record's effective decision.
  -- Every block reads as before, so the record never enters a pool.
  pub feed-late :
      (side : Side) (r : Record) (st : State)
      → find_key (side, r.id) st.seen ≡ none
      → horizon s r ≤ last_date
      → HasPassed s st (find_or empty_block (blocking_key r) st.blocks) left r.value_date
      → HasPassed s st (find_or empty_block (blocking_key r) st.blocks) right r.value_date
      → (st' : State) × (d : Decision) × (feed hash s (arrival side r) st ≡ ok st')
        × (st'.decisions ≡ st.decisions ++ d ∷ [])
        × (d.business_key ≡ (side, r.id))
        × (d.status ≡ final)
        × (d.decision_type ≡ break_type)
        × (d.input_ids ≡ r.id ∷ [])
        × (d.window_end ≡ horizon s r)
        × (d.reason ≡ late)
        × (d.forced ≡ false)
        × (find_key (side, r.id) (effective none st'.decisions) ≡ some d)
        × ((k : BlockKey) → find_or empty_block k st'.blocks ≡ find_or empty_block k st.blocks)
  unfolding feed arrive accept refusal put_block emit decide effective effective_from
  feed-late side r st new dated on_left on_right =
      let k = blocking_key r in
      let b = find_or empty_block k st.blocks in
      let counted = record st { seen = store (side, r.id) r st.seen; entries = st.entries + 1 } in
      let before = is_before-watermark s st b r.value_date on_left on_right in
      let e : refusal s counted side r b ≡ some late = rw (refusal, before) refl in
      let d = decide hash (side, r.id) (alone s r late) final false counted in
      (
        put_block k b (emit hash (side, r.id) (alone s r late) final false counted),
        d,
        rw (arrive, new, accept, e) refl,
        refl,
        refl,
        refl,
        refl,
        refl,
        refl,
        refl,
        refl,
        rw (effective_from-append [] st.decisions (d ∷ []))
            (find_key-store_self (side, r.id) d (effective_from none [] st.decisions)),
        λ j. find_or-put_same empty_block j k st.blocks,
      )
