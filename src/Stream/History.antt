-- ===== src/Stream/History.antt =====
-- The history of decisions only grows, and each decision is chained to the one that it replaces.
use mathlib.Core.List.{append_assoc, append-nil}
use mathlib.Core.Path.{subst}
use reconcileflow.Base.{
  ◌≡◌, refl, sym, ◌∙◌, Bool, false, Option, none, some, List, [], ◌∷◌, ◌++◌, inl, inr, Bool-cases,
}
use reconcileflow.Base.Order.{Text, nat_ord, list_ord, ◌<=◌}
use reconcileflow.Base.Dict.{Dict, keys}
use reconcileflow.Base.Sorting.{sort_by}
use reconcileflow.Stream.{BusinessKey, key_ord, Decision, Proposal, Status, provisional, BlockState}
use reconcileflow.Base.Raised.{ok, >>=-eq-ok, ok-injective}
use reconcileflow.Stream.Watermark.{Settings}
use reconcileflow.Stream.Evaluate.{Proposals, proposals_of}
use reconcileflow.Stream.Emit.{State, find_key, store, next_version, superseded_id, decide, emit}
use reconcileflow.Stream.Results.{effective_from}
use reconcileflow.Stream.Settle.{emit_changed, emit_all, evaluate, is_changed}

-- Each decision replaces the last one of its key before it, and its rank follows from that.
abbrev pub IsChained : Dict BusinessKey Decision → List Decision → Type 0
IsChained state [] = Unit
IsChained state (d ∷ ds) =
    (d.supersedes ≡ superseded_id (find_key d.business_key state))
    × (d.chain_version ≡ next_version (find_key d.business_key state))
    × IsChained (store d.business_key d state) ds

-- Decisions are appended, chained, and `current` follows them.
pub record Appends (st st' : State) : Type 0 where
  pub new : List Decision
  pub appended : st'.decisions ≡ st.decisions ++ new
  pub followed : st'.current ≡ effective_from none st.current new
  pub chained : IsChained st.current new

pub Appends-same :
    (st st' : State) → st'.decisions ≡ st.decisions → st'.current ≡ st.current → Appends st st'
unfolding effective_from
Appends-same st st' d c = record {
  new = [];
  appended = d ∙ sym (append-nil st.decisions);
  followed = c;
  chained = tt;
}

pub effective_from-append :
    (state : Dict BusinessKey Decision) (ds es : List Decision)
    → effective_from none state (ds ++ es) ≡ effective_from none (effective_from none state ds) es
unfolding effective_from
effective_from-append state [] es = refl
effective_from-append state (d ∷ ds) es = effective_from-append (store d.business_key d state) ds es

IsChained-append :
    (state : Dict BusinessKey Decision) (ds es : List Decision)
    → IsChained state ds
    → IsChained (effective_from none state ds) es
    → IsChained state (ds ++ es)
unfolding effective_from
IsChained-append state [] es h k = k
IsChained-append state (d ∷ ds) es h k =
    (h.0, h.1, IsChained-append (store d.business_key d state) ds es h.2 k)

pub Appends-trans : (a b c : State) → Appends a b → Appends b c → Appends a c
Appends-trans a b c x y = record {
  new = x.new ++ y.new;
  appended = y.appended ∙ rw x.appended (append_assoc a.decisions x.new y.new);
  followed = y.followed ∙ rw x.followed (sym (effective_from-append a.current x.new y.new));
  chained = IsChained-append a.current x.new y.new x.chained (rw (← x.followed) y.chained);
}

-- A step within one journal entry: the records seen and the position stay.
pub record Extends (st st' : State) : Type 0 where
  pub appends : Appends st st'
  pub seen_kept : st'.seen ≡ st.seen
  pub entries_kept : st'.entries ≡ st.entries

pub Extends-same :
    (st st' : State)
    → st'.decisions ≡ st.decisions
    → st'.current ≡ st.current
    → st'.seen ≡ st.seen
    → st'.entries ≡ st.entries
    → Extends st st'
Extends-same st st' d c n e = record {
  appends = Appends-same st st' d c;
  seen_kept = n;
  entries_kept = e;
}

pub Extends-trans : (a b c : State) → Extends a b → Extends b c → Extends a c
Extends-trans a b c x y = record {
  appends = Appends-trans a b c x.appends y.appends;
  seen_kept = y.seen_kept ∙ x.seen_kept;
  entries_kept = y.entries_kept ∙ x.entries_kept;
}

module _ (hash : Text → Text) where
  pub emit-Extends :
      (key : BusinessKey) (p : Proposal) (status : Status) (forced : Bool) (st : State)
      → Extends st (emit hash key p status forced st)
  unfolding emit effective_from
  emit-Extends key p status forced st = record {
    appends = record {
      new = decide hash key p status forced st ∷ [];
      appended = refl;
      followed = refl;
      chained = (refl, refl, tt);
    };
    seen_kept = refl;
    entries_kept = refl;
  }

  module _ (s : Settings) where
    emit_changed-Extends :
        (key : BusinessKey) (o : Option Proposal) (st : State)
        → Extends st (emit_changed hash s key o st)
    unfolding emit_changed
    emit_changed-Extends key none st = Extends-same st st refl refl refl refl
    emit_changed-Extends key (some p) st =
        elim (Bool-cases (is_changed hash s p (find_key key st.current))) [
          | inl e ↦ rw e (emit-Extends key p provisional false st)
          | inr e ↦ rw e (Extends-same st st refl refl refl refl)
        ]

    emit_all-Extends :
        (d : Proposals) (ks : List BusinessKey) (st : State) → Extends st (emit_all hash s d ks st)
    unfolding emit_all
    emit_all-Extends d [] st = Extends-same st st refl refl refl refl
    emit_all-Extends d (k ∷ ks) st =
        Extends-trans st (emit_changed hash s k (find_key k d) st) (emit_all hash s d (k ∷ ks) st)
          (emit_changed-Extends k (find_key k d) st) (emit_all-Extends d ks _)

    pub evaluate-Extends :
        (st : State) (b : BlockState) {st' : State} → evaluate hash s st b ≡ ok st' → Extends st st'
    unfolding evaluate
    evaluate-Extends st b e =
        let (d, _, e') = >>=-eq-ok (proposals_of s b) _ e in
        subst (Extends st) (ok-injective e') (emit_all-Extends d (sort_by ◌<=◌ (keys d)) st)
