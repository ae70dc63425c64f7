-- ===== src/Base/Sameness.antt =====
-- Lists without repetition that have the same members: a sort does not tell them apart.
use mathlib.Core.List.{
  Mem, Permᴰ, Nodup, Nodup-cons, Nodup-nil, not-mem-nil, mem-cons_self, mem-cons_of_mem,
  eq-or-mem_of_mem-cons, perm_ext_iff_of_Nodup,
}
use mathlib.Core.Logic.Or
use mathlib.Core.Logic.{∥∥₁_elim}
use reconcileflow.Base.{
  ◌≡◌, sym, Bool, true, List, [], ◌∷◌, In, here, there, In-cons, All-In, All-of_In, keep, map, inl,
  inr, Bool-cases,
}
use reconcileflow.Base.Order.{Ord, ◌<=◌, contains}
use reconcileflow.Base.Membership.{In-of_contains, contains-cons_self, contains-cons_of}
use reconcileflow.Base.Sorting.{All-sort_by, sort_by, sort-eq_of_permᴰ}

pub Mem_of_In {ℓ} : {A : Type ℓ} {a : A} {xs : List A} → In a xs → Mem a xs
Mem_of_In here = mem-cons_self
Mem_of_In (there {y = y} m) = mem-cons_of_mem y (Mem_of_In m)

is_true_prop : (b : Bool) → IsProp (b ≡ true)
is_true_prop b = hlevel

module _ {ℓ} {K : Type ℓ} ⦃o : Ord K⦄ where
  contains_of_Mem : (a : K) (xs : List K) → Mem a xs → contains a xs ≡ true
  contains_of_Mem a [] m = absurd (not-mem-nil m)
  contains_of_Mem a (x ∷ xs) m =
      Or.elim (is_true_prop _) (eq-or-mem_of_mem-cons m) (λ e. rw e (contains-cons_self x xs))
        (λ m'. contains-cons_of a x xs (contains_of_Mem a xs m'))

  pub In-of_Mem : (a : K) (xs : List K) → Mem a xs → In a xs
  In-of_Mem a xs m = In-of_contains a xs (contains_of_Mem a xs m)

  -- No member of `xs` is repeated.
  abbrev pub IsSingle : List K → Type ℓ
  IsSingle [] = Unit
  IsSingle (x ∷ xs) = (¬ In x xs) × IsSingle xs

  IsSingle-Nodup : (xs : List K) → IsSingle xs → Nodup xs
  IsSingle-Nodup [] h = Nodup-nil
  IsSingle-Nodup (x ∷ xs) h = Nodup-cons.1 (λ m. h.0 (In-of_Mem x xs m), IsSingle-Nodup xs h.1)

  pub sort_by-eq_of_same :
      IsSet (List K)
      → (xs ys : List K) → IsSingle xs
      → IsSingle ys
      → ((a : K) → In a xs → In a ys)
      → ((a : K) → In a ys → In a xs)
      → sort_by ◌<=◌ xs ≡ sort_by ◌<=◌ ys
  sort_by-eq_of_same set xs ys hx hy f g =
      ∥∥₁_elim
        ((perm_ext_iff_of_Nodup (IsSingle-Nodup xs hx) (IsSingle-Nodup ys hy)).1
          (λ a. (λ m. Mem_of_In (f a (In-of_Mem a xs m)), λ m. Mem_of_In (g a (In-of_Mem a ys m)))))
        (set _ _) (λ p. sort-eq_of_permᴰ p)

pub In-permᴰ {ℓ} : {A : Type ℓ} {x : A} {xs ys : List A} → Permᴰ xs ys → In x xs → In x ys
In-permᴰ Permᴰ.nil m = m
In-permᴰ (Permᴰ.cons e p) m = elim (In-cons m) [
  | inl q ↦ rw (q, e) here
  | inr m' ↦ there (In-permᴰ p m')
]
In-permᴰ (Permᴰ.swap e f) m = elim (In-cons m) [
  | inl q ↦ rw (q, e) (there here)
  | inr m' ↦ elim (In-cons m') [ inl q ↦ rw (q, f) here | inr n ↦ there (there n) ]
]
In-permᴰ (Permᴰ.trans p q) m = In-permᴰ q (In-permᴰ p m)

-- A member of the filtered list is a member that passes.
pub In-of_keep {ℓ} :
    {A : Type ℓ} {x : A} (p : A → Bool) (xs : List A) → In x (keep p xs) → In x xs × (p x ≡ true)
In-of_keep p [] m = elim m [ ]
In-of_keep p (y ∷ xs) m = elim (Bool-cases (p y)) [
  | inl e ↦ elim (In-cons (rw e at m)) [
    | inl q ↦ (rw q here, rw q e)
    | inr m' ↦ let (n, h) = In-of_keep p xs m' in (there n, h)
  ]
  | inr e ↦ let (n, h) = In-of_keep p xs (rw e at m) in (there n, h)
]

pub In-map {ℓ κ} :
    {A : Type ℓ} {B : Type κ} (f : A → B) {x : A} {xs : List A} → In x xs → In (f x) (map f xs)
In-map f here = here
In-map f (there m) = there (In-map f m)

-- A member of the image is the image of a member.
pub In-of_map {ℓ κ} :
    {A : Type ℓ} {B : Type κ} (f : A → B) {y : B} (xs : List A)
    → In y (map f xs)
    → (x : A) × In x xs × (f x ≡ y)
In-of_map f [] m = elim m [ ]
In-of_map f (x ∷ xs) m = elim (In-cons m) [
  | inl q ↦ (x, here, sym q)
  | inr m' ↦ let (z, n, e) = In-of_map f xs m' in (z, there n, e)
]

pub In-of_sort_by {ℓ} :
    {A : Type ℓ} (le : A → A → Bool) {x : A} (xs : List A) → In x (sort_by le xs) → In x xs
In-of_sort_by le xs m =
    All-In (λ y. In y xs) m (All-sort_by (λ y. In y xs) le xs (All-of_In _ xs (λ y n. n)))
