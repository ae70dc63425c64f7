-- ===== src/Base/Sorting.antt =====
-- `sorted`: a stable sort by a test, and why a sort by distinct keys forgets the order of its input.
use mathlib.Core.List.{Perm, Permᴰ, Nodup, Nodup-cons, mem-cons_self}
use mathlib.Core.List.Perm
use mathlib.Core.Logic.{∥∥₁_elim}
use mathlib.Core.Path.{ap₂}
use reconcileflow.Base.{
  ◌≡◌, refl, ◌∙◌, ◌≢◌, Bool, List, [], ◌∷◌, map, arith, if◌then◌else◌, length, ◌+◌, All, In, here,
  there, inl, inr, Bool-cases,
}
use reconcileflow.Base.Order.{Ord, ◌<=◌, ◌==◌, eq_of_==, ==_of_eq}

module _ {ℓ} {A : Type ℓ} where
  unfoldable pub insert_by : (A → A → Bool) → A → List A → List A
  insert_by le x [] = x ∷ []
  insert_by le x (y ∷ ys) = if le x y then x ∷ y ∷ ys else y ∷ insert_by le x ys

  -- Python's `sorted`: what the test does not separate stays in input order.
  unfoldable pub sort_by : (A → A → Bool) → List A → List A
  unfolding insert_by
  sort_by le [] = []
  sort_by le (x ∷ xs) = insert_by le x (sort_by le xs)

  insert_by-perm : (le : A → A → Bool) (x : A) (ys : List A) → Perm (insert_by le x ys) (x ∷ ys)
  unfolding insert_by
  insert_by-perm le x [] = Perm.refl _
  insert_by-perm le x (y ∷ ys) = elim (Bool-cases (le x y)) [
    | inl e ↦ rw e (Perm.refl _)
    | inr e ↦ rw e (Perm.trans (Perm.cons y (insert_by-perm le x ys)) (Perm.swap x y ys))
  ]

  pub sort_by-perm : (le : A → A → Bool) (xs : List A) → Perm (sort_by le xs) xs
  unfolding sort_by
  sort_by-perm le [] = Perm.refl _
  sort_by-perm le (x ∷ xs) =
      Perm.trans (insert_by-perm le x (sort_by le xs)) (Perm.cons x (sort_by-perm le xs))

  In-insert_by : (le : A → A → Bool) (x : A) (ys : List A) → In x (insert_by le x ys)
  unfolding insert_by
  In-insert_by le x [] = here
  In-insert_by le x (y ∷ ys) = elim (Bool-cases (le x y)) [
    | inl e ↦ rw e here
    | inr e ↦ rw e (there (In-insert_by le x ys))
  ]

  In-insert_by_of_In :
      (le : A → A → Bool) (x : A) {z : A} {ys : List A} → In z ys → In z (insert_by le x ys)
  unfolding insert_by
  In-insert_by_of_In le x {z} (here {xs = ys}) = elim (Bool-cases (le x z)) [
    | inl e ↦ rw e (there here)
    | inr e ↦ rw e here
  ]
  In-insert_by_of_In le x (there {y = y} {xs = ys} m) = elim (Bool-cases (le x y)) [
    | inl e ↦ rw e (there (there m))
    | inr e ↦ rw e (there (In-insert_by_of_In le x m))
  ]

  -- a member is still there after the sort
  pub In-sort_by : (le : A → A → Bool) {x : A} {xs : List A} → In x xs → In x (sort_by le xs)
  unfolding sort_by
  In-sort_by le {x} (here {xs = xs}) = In-insert_by le x (sort_by le xs)
  In-sort_by le (there {y = y} {xs = xs} m) = In-insert_by_of_In le y (In-sort_by le m)

  All-insert_by {κ} :
      (P : A → Type κ) (le : A → A → Bool) (x : A) (ys : List A)
      → P x
      → All P ys
      → All P (insert_by le x ys)
  unfolding insert_by
  All-insert_by P le x [] p h = (p, tt)
  All-insert_by P le x (y ∷ ys) p h = elim (Bool-cases (le x y)) [
    | inl e ↦ rw e (p, h)
    | inr e ↦ rw e (h.0, All-insert_by P le x ys p h.1)
  ]

  pub All-sort_by {κ} :
      (P : A → Type κ) (le : A → A → Bool) (xs : List A) → All P xs → All P (sort_by le xs)
  unfolding sort_by
  All-sort_by P le [] h = tt
  All-sort_by P le (x ∷ xs) h = All-insert_by P le x (sort_by le xs) h.0 (All-sort_by P le xs h.1)

  length-insert_by :
      (le : A → A → Bool) (x : A) (ys : List A) → length (insert_by le x ys) ≡ length ys + 1
  unfolding insert_by
  length-insert_by le x [] = omega arith
  length-insert_by le x (y ∷ ys) = ground (arith, length-insert_by le x ys)

  pub length-sort_by : (le : A → A → Bool) (xs : List A) → length (sort_by le xs) ≡ length xs
  unfolding sort_by
  length-sort_by le [] = refl
  length-sort_by le (x ∷ xs) =
      omega (arith, length-insert_by le x (sort_by le xs), length-sort_by le xs)

module _ {ℓ κ} {A : Type ℓ} {K : Type κ} ⦃o : Ord K⦄ (key : A → K) where
  -- `sorted(xs, key=key)`
  abbrev pub by_key : A → A → Bool
  by_key x y = key x <= key y

  insert_by_comm :
      (a b : A) (l : List A)
      → key a ≢ key b
      → insert_by by_key a (insert_by by_key b l) ≡ insert_by by_key b (insert_by by_key a l)
  unfolding insert_by
  insert_by_comm a b [] ne = ground (arith, o.antisymm (key a) (key b), o.total (key a) (key b))
  insert_by_comm a b (y ∷ ys) ne = ground (
    arith,
    o.antisymm (key a) (key b),
    o.total (key a) (key b),
    o.trans (key a) (key b) (key y),
    o.trans (key b) (key a) (key y),
    insert_by_comm a b ys ne,
  )

  sort_by-eq_of_permᴰ :
      {xs ys : List A} → Permᴰ xs ys → Nodup (map key xs) → sort_by by_key xs ≡ sort_by by_key ys
  unfolding sort_by
  sort_by-eq_of_permᴰ Permᴰ.nil d = refl
  sort_by-eq_of_permᴰ (Permᴰ.cons {a = a} {b = b} e p) d =
      ap₂ (insert_by by_key) e (sort_by-eq_of_permᴰ p (Nodup-cons.0 d).1)
  sort_by-eq_of_permᴰ (Permᴰ.swap {a = a} {b = b} {l = l} e f) d =
      insert_by_comm a b (sort_by by_key l) (λ k. (Nodup-cons.0 d).0 (rw k mem-cons_self))
      ∙ ap₂ (λ x y. insert_by by_key x (insert_by by_key y (sort_by by_key l))) f e
  sort_by-eq_of_permᴰ (Permᴰ.trans p q) d =
      sort_by-eq_of_permᴰ p d ∙ sort_by-eq_of_permᴰ q (Perm.nodup (Perm.map key ∣ p ∣₁) d)

  -- Two orders of the same records, with distinct keys, sort to the same list.
  pub sort_by-eq_of_perm :
      IsSet (List A)
      → {xs ys : List A} → Perm xs ys
      → Nodup (map key xs)
      → sort_by by_key xs ≡ sort_by by_key ys
  sort_by-eq_of_perm is_set p d = ∥∥₁_elim p (is_set _ _) (λ q. sort_by-eq_of_permᴰ q d)

module _ {ℓ} {K : Type ℓ} ⦃o : Ord K⦄ where
  insert_comm :
      (a b : K) (l : List K)
      → insert_by ◌<=◌ a (insert_by ◌<=◌ b l) ≡ insert_by ◌<=◌ b (insert_by ◌<=◌ a l)
  insert_comm a b l = elim (Bool-cases (a == b)) [
    | inl e ↦ rw (eq_of_== a b e) refl
    | inr e ↦ insert_by_comm (λ (x : K). x) a b l (λ p. cc (==_of_eq a b p))
  ]

  -- Sorting by the values themselves forgets their order, repetitions included.
  pub sort-eq_of_permᴰ : {xs ys : List K} → Permᴰ xs ys → sort_by ◌<=◌ xs ≡ sort_by ◌<=◌ ys
  unfolding sort_by
  sort-eq_of_permᴰ Permᴰ.nil = refl
  sort-eq_of_permᴰ (Permᴰ.cons e p) = ap₂ (insert_by ◌<=◌) e (sort-eq_of_permᴰ p)
  sort-eq_of_permᴰ (Permᴰ.swap {a = a} {b = b} {l = l} e f) =
      insert_comm a b (sort_by ◌<=◌ l)
      ∙ ap₂ (λ x y. insert_by ◌<=◌ x (insert_by ◌<=◌ y (sort_by ◌<=◌ l))) f e
  sort-eq_of_permᴰ (Permᴰ.trans p q) = sort-eq_of_permᴰ p ∙ sort-eq_of_permᴰ q
