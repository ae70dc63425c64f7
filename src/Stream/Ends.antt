-- ===== src/Stream/Ends.antt =====
-- The calls of the replay other than the loop of `_settle` need no fuel.
use reconcileflow.Base.{
  ℕ, ◌≡◌, refl, ◌≢◌, Option, none, some, List, [], ◌∷◌, inl, inr, Option-cases,
}
use reconcileflow.Base.Order.{Text, nat_ord, list_ord}
use reconcileflow.Base.Dict.{Dict}
use reconcileflow.Models.{Record, Match, Reject}
use reconcileflow.Stream.{on, BusinessKey, key_ord, BlockState}
use reconcileflow.Base.Raised.{Result, ok, raised, out_of_fuel, or_key_error, ◌>>=◌}
use reconcileflow.Stream.Watermark.{Settings, watermark}
use reconcileflow.Stream.Components.{components}
use reconcileflow.Base.Dict.{find}
use reconcileflow.Stream.Evaluate.{
  max_horizon, Proposals, propose_match, propose_matches, Reasons, note_reject, note_rejects,
  proposals_of,
}
use reconcileflow.Stream.Emit.{State, find_key}
use reconcileflow.Stream.Settle.{
  records_of, decisions_of, closing_component, closing_components, closing,
}

-- The call does not run out of fuel: it returns, or raises an exception of the source.
abbrev pub Ends {ℓ} : {A : Type ℓ} → Result A → Type ℓ
Ends r = r ≢ raised out_of_fuel

pub Ends-ok {ℓ} : {A : Type ℓ} (a : A) → Ends (ok a)
Ends-ok a e = cc

pub Ends-or_key_error {ℓ} : {A : Type ℓ} (o : Option A) → Ends (or_key_error o)
Ends-or_key_error none e = cc
Ends-or_key_error (some a) e = cc

pub Ends-bind {ℓ κ} :
    {A : Type ℓ} {B : Type κ} (m : Result A) (f : A → Result B)
    → Ends m
    → ((a : A) → m ≡ ok a → Ends (f a))
    → Ends (m >>= f)
Ends-bind (ok a) f h k = k a refl
Ends-bind (raised e) f h k = λ p. h (cc p)

max_horizon-Ends :
    (s : Settings) (rights : Dict Text Record) (rs : List Text) (h : ℕ)
    → Ends (max_horizon s rights rs h)
unfolding max_horizon
max_horizon-Ends s rights [] h = Ends-ok h
max_horizon-Ends s rights (r ∷ rs) h =
    Ends-bind (or_key_error (find r rights)) _ (Ends-or_key_error (find r rights))
      (λ x _. max_horizon-Ends s rights rs _)

propose_match-Ends :
    (s : Settings) (lefts rights : Dict Text Record) (m : Match) (d : Proposals)
    → Ends (propose_match s lefts rights m d)
unfolding propose_match
propose_match-Ends s lefts rights m d =
    Ends-bind (or_key_error (find m.left_id lefts)) _ (Ends-or_key_error _) (λ l _.
      Ends-bind (max_horizon s rights m.right_ids _) _ (max_horizon-Ends s rights m.right_ids _)
        (λ w _. Ends-ok _))

propose_matches-Ends :
    (s : Settings) (lefts rights : Dict Text Record) (ms : List Match) (d : Proposals)
    → Ends (propose_matches s lefts rights ms d)
unfolding propose_matches
propose_matches-Ends s lefts rights [] d = Ends-ok d
propose_matches-Ends s lefts rights (m ∷ ms) d =
    Ends-bind (propose_match s lefts rights m d) _ (propose_match-Ends s lefts rights m d)
      (λ d' _. propose_matches-Ends s lefts rights ms d')

note_reject-Ends :
    (s : Settings) (lefts rights : Dict Text Record) (x : Reject) (d : Reasons)
    → Ends (note_reject s lefts rights x d)
unfolding note_reject
note_reject-Ends s lefts rights x d = elim (Option-cases x.right_id) [
  | inl e ↦ rw (note_reject, e) (Ends-ok _)
  | inr (right_id, e) ↦
      rw (note_reject, e)
        (Ends-bind (or_key_error (find x.left_id lefts)) _ (Ends-or_key_error _) (λ l _.
          Ends-bind (or_key_error (find right_id rights)) _ (Ends-or_key_error _)
            (λ r _. Ends-ok _)))
]

note_rejects-Ends :
    (s : Settings) (lefts rights : Dict Text Record) (xs : List Reject) (d : Reasons)
    → Ends (note_rejects s lefts rights xs d)
unfolding note_rejects
note_rejects-Ends s lefts rights [] d = Ends-ok d
note_rejects-Ends s lefts rights (x ∷ xs) d =
    Ends-bind (note_reject s lefts rights x d) _ (note_reject-Ends s lefts rights x d)
      (λ d' _. note_rejects-Ends s lefts rights xs d')

pub proposals_of-Ends : (s : Settings) (b : BlockState) → Ends (proposals_of s b)
unfolding proposals_of
proposals_of-Ends s b =
    Ends-bind (propose_matches s _ _ _ []) _ (propose_matches-Ends s _ _ _ []) (λ d _.
      Ends-bind (note_rejects s _ _ _ []) _ (note_rejects-Ends s _ _ _ []) (λ rs _. Ends-ok _))

records_of-Ends : (b : BlockState) (ks : List BusinessKey) → Ends (records_of b ks)
unfolding records_of
records_of-Ends b [] = Ends-ok []
records_of-Ends b ((side, id) ∷ ks) =
    Ends-bind (or_key_error (find id (on side b.pool))) _ (Ends-or_key_error _)
      (λ r _. Ends-bind (records_of b ks) _ (records_of-Ends b ks) (λ rs _. Ends-ok _))

decisions_of-Ends : (st : State) (ks : List BusinessKey) → Ends (decisions_of st ks)
unfolding decisions_of
decisions_of-Ends st [] = Ends-ok []
decisions_of-Ends st (k ∷ ks) =
    Ends-bind (or_key_error (find_key k st.current)) _ (Ends-or_key_error _)
      (λ r _. Ends-bind (decisions_of st ks) _ (decisions_of-Ends st ks) (λ rs _. Ends-ok _))

closing_components-Ends :
    (s : Settings) (st : State) (b : BlockState) (w : ℕ) (cs : List (List BusinessKey))
    → Ends (closing_components s st b w cs)
unfolding closing_components closing_component
closing_components-Ends s st b w [] = Ends-ok []
closing_components-Ends s st b w (c ∷ cs) =
    Ends-bind (closing_component s st b w c) _
      (Ends-bind (records_of b c) _ (records_of-Ends b c)
        (λ rs _. Ends-bind (decisions_of st c) _ (decisions_of-Ends st c) (λ ds _. Ends-ok _)))
      (λ h _.
        Ends-bind (closing_components s st b w cs) _ (closing_components-Ends s st b w cs)
          (λ t _. Ends-ok _))

pub closing-Ends : (s : Settings) (st : State) (b : BlockState) → Ends (closing s st b)
unfolding closing
closing-Ends s st b = elim (Option-cases (watermark s st.progress b)) [
  | inl e ↦ rw (closing, e) (Ends-ok [])
  | inr (w, e) ↦ rw (closing, e) (closing_components-Ends s st b w (components s b))
]
