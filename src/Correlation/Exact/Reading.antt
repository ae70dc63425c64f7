-- ===== src/Correlation/Exact/Reading.antt =====
-- The content of an observation determines what is read of it.
use reconcileflow.Base.{
  ◌≡◌, refl, sym, ap, ◌∙◌, false, Option, some, List, [], ◌∷◌, In, here, there, In-cons, inl, inr,
  Bool-cases, Option-cases,
}
use reconcileflow.Base.Order.{Text, nat_ord, list_ord, ◌<=◌, ◌==◌, eq_of_==, ==_refl, ==_false}
use reconcileflow.Base.Sorting.{sort_by, In-sort_by}
use reconcileflow.Base.Sameness.{IsSingle, In-of_sort_by}
use reconcileflow.Base.Dict.{Dict, keys, find}
use reconcileflow.Correlation.Exact.{Observation, items, content}
use reconcileflow.Correlation.Exact.Links.{value_of, parts_of, composite_of}
use reconcileflow.Correlation.Exact.Carriers.{is_on}

-- The recorded identifiers are those of a mapping: no key twice.
abbrev pub IsMapping : Observation → Type 0
IsMapping obs = IsSingle (keys obs.keys)

In-items : (k v : Text) (d : Dict Text Text) → find k d ≡ some v → In (k ∷ v ∷ []) (items d)
unfolding find items
In-items k v [] h = absurd (cc h)
In-items k v ((j, w) ∷ d) h = elim (Bool-cases (j == k)) [
  | inl e ↦
      let h' : some w ≡ some v = rw e at h in let q : w ≡ v = cc in rw (eq_of_== j k e, q) here
  | inr e ↦ there (In-items k v d (rw e at h))
]

In-keys_of_items : (k v : Text) (d : Dict Text Text) → In (k ∷ v ∷ []) (items d) → In k (keys d)
unfolding items
In-keys_of_items k v [] m = elim m [ ]
In-keys_of_items k v ((j, w) ∷ d) m = elim (In-cons m) [
  | inl q ↦ let e : k ≡ j = cc in rw e here
  | inr n ↦ there (In-keys_of_items k v d n)
]

find_of_items :
    (k v : Text) (d : Dict Text Text)
    → IsSingle (keys d)
    → In (k ∷ v ∷ []) (items d)
    → find k d ≡ some v
unfolding find items
find_of_items k v [] single m = elim m [ ]
find_of_items k v ((j, w) ∷ d) single m = elim (In-cons m) [
  | inl q ↦ let e : k ≡ j = cc in let e' : v ≡ w = cc in rw (e, e', ==_refl j) refl
  | inr n ↦
      let f : (j == k) ≡ false = ==_false j k (λ e. single.0 (rw e (In-keys_of_items k v d n))) in
      rw f (find_of_items k v d single.1 n)
]

content-items :
    (o o' : Observation)
    → content o ≡ content o'
    → sort_by ◌<=◌ (items o.keys) ≡ sort_by ◌<=◌ (items o'.keys)
unfolding content
content-items o o' h = cc

find_of_content :
    (o o' : Observation) (k v : Text)
    → IsMapping o'
    → content o ≡ content o'
    → find k o.keys ≡ some v
    → find k o'.keys ≡ some v
find_of_content o o' k v single h e =
    find_of_items k v o'.keys single
      (In-of_sort_by ◌<=◌ _ (rw (← content-items o o' h) (In-sort_by ◌<=◌ (In-items k v o.keys e))))

-- The value recorded for an identifier.
pub find-content :
    (o o' : Observation) (k : Text)
    → IsMapping o
    → IsMapping o'
    → content o ≡ content o'
    → find k o.keys ≡ find k o'.keys
find-content o o' k single single' h = elim (Option-cases (find k o.keys)) [
  | inr (v, e) ↦ e ∙ sym (find_of_content o o' k v single' h e)
  | inl e ↦ elim (Option-cases (find k o'.keys)) [
    | inl e' ↦ e ∙ sym e'
    | inr (v, e') ↦ let f = find_of_content o' o k v single (sym h) e' in absurd (cc (sym e ∙ f))
  ]
]

-- A reading that the content determines.
abbrev pub IsReading {ℓ} : {K : Type ℓ} → (Observation → K → Option Text) → Type ℓ
IsReading {K} read =
    (o o' : Observation) (key : K)
    → IsMapping o
    → IsMapping o'
    → content o ≡ content o'
    → read o key ≡ read o' key

pub value_of-IsReading : IsReading value_of
unfolding value_of
value_of-IsReading o o' key m m' h = find-content o o' key m m' h

parts_of-content :
    (o o' : Observation) (identifiers : List Text)
    → IsMapping o
    → IsMapping o'
    → content o ≡ content o'
    → parts_of o identifiers ≡ parts_of o' identifiers
unfolding parts_of
parts_of-content o o' [] m m' h = refl
parts_of-content o o' (i ∷ identifiers) m m' h =
    rw (find-content o o' i m m' h, parts_of-content o o' identifiers m m' h) refl

pub composite_of-IsReading : IsReading composite_of
unfolding composite_of
composite_of-IsReading o o' identifiers m m' h =
    rw (composite_of, parts_of-content o o' identifiers m m' h) refl

-- The side an observation is on.
pub is_on-content :
    (side : List Text) (o o' : Observation) → content o ≡ content o' → is_on side o ≡ is_on side o'
unfolding content
is_on-content side o o' h =
    let e : (o.point ∷ o.side ∷ []) ≡ (o'.point ∷ o'.side ∷ []) = cc in ap (λ s. s == side) e
