-- ===== src/Base/Shuffle.antt =====
-- What a permutation of a list keeps: its length, its filtered parts, and the keys that a dictionary
-- built from it has, up to their order.
use mathlib.Core.List.{Permᴰ, Sublist}
use mathlib.Core.List.Permᴰ
use mathlib.Core.List.Sublist
use mathlib.Core.List.{nil-sublist}
use reconcileflow.Base.{
  ◌≡◌, refl, ◌∙◌, Bool, List, [], ◌∷◌, map, arith, length, keep, inl, inr, Bool-cases,
}
use reconcileflow.Base.Order.{Ord, ◌==◌, eq_of_==, ==_comm}
use reconcileflow.Base.Dict.{note_key, note_key_old, note_key_new}

module _ {ℓ} {A : Type ℓ} where
  pub length-eq_of_permᴰ : {xs ys : List A} → Permᴰ xs ys → length xs ≡ length ys
  length-eq_of_permᴰ Permᴰ.nil = refl
  length-eq_of_permᴰ (Permᴰ.cons e p) = omega (arith, length-eq_of_permᴰ p)
  length-eq_of_permᴰ (Permᴰ.swap e f) = refl
  length-eq_of_permᴰ (Permᴰ.trans p q) = length-eq_of_permᴰ p ∙ length-eq_of_permᴰ q

  keep-cons :
      (p : A → Bool) {a b : A} (xs ys : List A)
      → a ≡ b
      → Permᴰ (keep p xs) (keep p ys)
      → Permᴰ (keep p (a ∷ xs)) (keep p (b ∷ ys))
  keep-cons p {a} {b} xs ys e h =
      rw e (elim (Bool-cases (p b)) [ inl t ↦ rw t (Permᴰ.cons refl h) | inr f ↦ rw f h ])

  keep-swap :
      (p : A → Bool) (a b : A) (l : List A) → Permᴰ (keep p (a ∷ b ∷ l)) (keep p (b ∷ a ∷ l))
  keep-swap p a b l = elim (Bool-cases (p a)) [
    | inl s ↦ elim (Bool-cases (p b)) [
      | inl t ↦ rw (s, t) (Permᴰ.swap refl refl)
      | inr t ↦ rw (s, t) (Permᴰ.refl _)
    ]
    | inr s ↦ rw s (Permᴰ.refl _)
  ]

  pub keep-permᴰ : (p : A → Bool) {xs ys : List A} → Permᴰ xs ys → Permᴰ (keep p xs) (keep p ys)
  keep-permᴰ p Permᴰ.nil = Permᴰ.nil
  keep-permᴰ p (Permᴰ.cons {l₁ = xs} {l₂ = ys} e q) = keep-cons p xs ys e (keep-permᴰ p q)
  keep-permᴰ p (Permᴰ.swap {a = a} {b = b} {l = l} e f) = rw (← e, ← f) (keep-swap p a b l)
  keep-permᴰ p (Permᴰ.trans q r) = Permᴰ.trans (keep-permᴰ p q) (keep-permᴰ p r)

  pub map-keep-sublist {κ} :
      {B : Type κ} (f : A → B) (p : A → Bool) (xs : List A) → Sublist (map f (keep p xs)) (map f xs)
  map-keep-sublist f p [] = nil-sublist []
  map-keep-sublist f p (x ∷ xs) = elim (Bool-cases (p x)) [
    | inl t ↦ rw t (Sublist.cons-cons (f x) (map-keep-sublist f p xs))
    | inr t ↦ rw t (Sublist.cons (f x) (map-keep-sublist f p xs))
  ]

module _ {ℓ} {K : Type ℓ} ⦃o : Ord K⦄ where
  note_key-permᴰ : (k : K) {xs ys : List K} → Permᴰ xs ys → Permᴰ (note_key k xs) (note_key k ys)
  unfolding note_key
  note_key-permᴰ k Permᴰ.nil = Permᴰ.refl _
  note_key-permᴰ k (Permᴰ.cons {a = a} {b = b} e p) = rw e (elim (Bool-cases (b == k)) [
    | inl t ↦ rw t (Permᴰ.cons refl p)
    | inr t ↦ rw t (Permᴰ.cons refl (note_key-permᴰ k p))
  ])
  note_key-permᴰ k (Permᴰ.swap {a = a} {b = b} e f) =
      rw (← e, ← f)
        (elim (Bool-cases (a == k)) [
          | inl s ↦ elim (Bool-cases (b == k)) [
            | inl t ↦ rw (s, t) (Permᴰ.swap refl refl)
            | inr t ↦ rw (s, t) (Permᴰ.swap refl refl)
          ]
          | inr s ↦ elim (Bool-cases (b == k)) [
            | inl t ↦ rw (s, t) (Permᴰ.swap refl refl)
            | inr t ↦ rw (s, t) (Permᴰ.swap refl refl)
          ]
        ])
  note_key-permᴰ k (Permᴰ.trans p q) = Permᴰ.trans (note_key-permᴰ k p) (note_key-permᴰ k q)

  note_key-comm_nil : (a b : K) → Permᴰ (note_key a (note_key b [])) (note_key b (note_key a []))
  unfolding note_key
  note_key-comm_nil a b = elim (Bool-cases (a == b)) [
    | inl s ↦ rw (==_comm b a, s, eq_of_== a b s) (Permᴰ.refl _)
    | inr s ↦ rw (==_comm b a, s) (Permᴰ.swap refl refl)
  ]

  note_key-comm :
      (a b : K) (ks : List K) → Permᴰ (note_key a (note_key b ks)) (note_key b (note_key a ks))
  note_key-comm a b [] = note_key-comm_nil a b
  note_key-comm a b (y ∷ ks) = elim (Bool-cases (y == a)) [
    | inl s ↦ elim (Bool-cases (y == b)) [
      | inl t ↦
          rw (note_key_old b y ks t, note_key_old a y ks s, note_key_old b y ks t) (Permᴰ.refl _)
      | inr t ↦
          rw (note_key_new b y ks t, note_key_old a y ks s, note_key_old a y (note_key b ks) s)
            (rw (note_key_new b y ks t) (Permᴰ.refl _))
    ]
    | inr s ↦ elim (Bool-cases (y == b)) [
      | inl t ↦
          rw (note_key_old b y ks t, note_key_new a y ks s, note_key_old b y (note_key a ks) t)
            (Permᴰ.refl _)
      | inr t ↦
          rw
            (
              note_key_new b y ks t,
              note_key_new a y ks s,
              note_key_new a y (note_key b ks) s,
              note_key_new b y (note_key a ks) t,
            )
            (Permᴰ.cons refl (note_key-comm a b ks))
    ]
  ]

  -- The keys after a write for each of a list.
  unfoldable pub note_keys : List K → List K → List K
  note_keys [] ks = ks
  note_keys (x ∷ xs) ks = note_keys xs (note_key x ks)

  pub note_keys-permᴰ_keys :
      (xs : List K) {ks js : List K} → Permᴰ ks js → Permᴰ (note_keys xs ks) (note_keys xs js)
  unfolding note_keys
  note_keys-permᴰ_keys [] p = p
  note_keys-permᴰ_keys (x ∷ xs) p = note_keys-permᴰ_keys xs (note_key-permᴰ x p)

  pub note_keys-permᴰ :
      {xs ys : List K} (ks : List K) → Permᴰ xs ys → Permᴰ (note_keys xs ks) (note_keys ys ks)
  unfolding note_keys
  note_keys-permᴰ ks Permᴰ.nil = Permᴰ.refl ks
  note_keys-permᴰ ks (Permᴰ.cons {a = a} {b = b} e p) = rw e (note_keys-permᴰ (note_key b ks) p)
  note_keys-permᴰ ks (Permᴰ.swap {a = a} {b = b} {l = l} e f) =
      rw (← e, ← f) (note_keys-permᴰ_keys l (note_key-comm b a ks))
  note_keys-permᴰ ks (Permᴰ.trans p q) = Permᴰ.trans (note_keys-permᴰ ks p) (note_keys-permᴰ ks q)
