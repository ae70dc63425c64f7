-- ===== src/Base/Lists.antt =====
-- Lists measured by native numbers, and predicates on all members of a list.
use Prim.Native.Nat.{ℕ, suc, ◌+◌, ◌≤◌}
use mathlib.Core.Path.{◌≡◌, refl}
use mathlib.Core.Bool.{Bool, true, false}
use mathlib.Core.List.{List, [], ◌∷◌, ◌++◌, map}
use native.Mathlib.Omega.{arith}
use mathlib.Core.Logic.{◌⊎◌, inl, inr}
use reconcileflow.Base.Tests.{if◌then◌else◌, Bool-cases}

module _ {ℓ} {A : Type ℓ} where
  abbrev pub length : List A → ℕ
  length [] = 0
  length (x ∷ xs) = suc (length xs)

  pub length-append : (xs ys : List A) → length (xs ++ ys) ≡ length xs + length ys
  length-append [] ys = omega arith
  length-append (x ∷ xs) ys = omega (arith, length-append xs ys)

  -- `[x for x in xs if p(x)]`
  abbrev pub keep : (A → Bool) → List A → List A
  keep p [] = []
  keep p (x ∷ xs) = if p x then x ∷ keep p xs else keep p xs

  pub length-keep-le : (p : A → Bool) (xs : List A) → length (keep p xs) ≤ length xs
  length-keep-le p [] = omega arith
  length-keep-le p (x ∷ xs) = ground (arith, length-keep-le p xs)

  abbrev pub is_empty : List A → Bool
  is_empty [] = true
  is_empty (_ ∷ _) = false

pub length-map {ℓ κ} :
    {A : Type ℓ} {B : Type κ} (f : A → B) (xs : List A) → length (map f xs) ≡ length xs
length-map f [] = refl
length-map f (x ∷ xs) = omega (arith, length-map f xs)

module _ {ℓ κ} {A : Type ℓ} where
  abbrev pub All : (A → Type κ) → List A → Type κ
  All P [] = Unit
  All P (x ∷ xs) = P x × All P xs

  pub All-append : (P : A → Type κ) (xs ys : List A) → All P xs → All P ys → All P (xs ++ ys)
  All-append P [] ys hx hy = hy
  All-append P (x ∷ xs) ys hx hy = (hx.0, All-append P xs ys hx.1 hy)

  pub All-left : (P : A → Type κ) (xs ys : List A) → All P (xs ++ ys) → All P xs
  All-left P [] ys h = tt
  All-left P (x ∷ xs) ys h = (h.0, All-left P xs ys h.1)

  pub All-right : (P : A → Type κ) (xs ys : List A) → All P (xs ++ ys) → All P ys
  All-right P [] ys h = h
  All-right P (x ∷ xs) ys h = All-right P xs ys h.1

  pub All-keep : (P : A → Type κ) (p : A → Bool) (xs : List A) → All P xs → All P (keep p xs)
  All-keep P p [] h = tt
  All-keep P p (x ∷ xs) h = ground (arith, All-keep P p xs h.1)

  -- what holds of every value holds of every member
  pub All-of_forall : (P : A → Type κ) (xs : List A) → ((x : A) → P x) → All P xs
  All-of_forall P [] f = tt
  All-of_forall P (x ∷ xs) f = (f x, All-of_forall P xs f)

module _ {ℓ κ μ} {A : Type ℓ} {P : A → Type κ} (Q : A → Type μ) where
  pub All-imp : (xs : List A) → ((x : A) → P x → Q x) → All P xs → All Q xs
  All-imp [] f h = tt
  All-imp (x ∷ xs) f h = (f x h.0, All-imp xs f h.1)

module _ {ℓ} {A : Type ℓ} where
  -- membership with the place kept
  pub data In (x : A) : List A → Type ℓ where
    here : {xs : List A} → In x (x ∷ xs)
    there : {y : A} {xs : List A} → In x xs → In x (y ∷ xs)

  pub In-left : {x : A} {xs : List A} (ys : List A) → In x xs → In x (xs ++ ys)
  In-left ys here = here
  In-left ys (there m) = there (In-left ys m)

  pub In-right : {x : A} (xs : List A) {ys : List A} → In x ys → In x (xs ++ ys)
  In-right [] m = m
  In-right (y ∷ xs) m = there (In-right xs m)

  pub In-keep : {x : A} (p : A → Bool) {xs : List A} → p x ≡ true → In x xs → In x (keep p xs)
  In-keep {x} p h here = rw h here
  In-keep p h (there {y = y} {xs = xs} m) = elim (Bool-cases (p y)) [
    | inl e ↦ rw e (there (In-keep p h m))
    | inr e ↦ rw e (In-keep p h m)
  ]

  pub All-In {κ} : (P : A → Type κ) {x : A} {xs : List A} → In x xs → All P xs → P x
  All-In P here h = h.0
  All-In P (there m) h = All-In P m h.1

  -- a property of each member, from one of each value that is there
  pub All-of_In {κ} : (P : A → Type κ) (xs : List A) → ((x : A) → In x xs → P x) → All P xs
  All-of_In P [] f = tt
  All-of_In P (x ∷ xs) f = (f x here, All-of_In P xs (λ y m. f y (there m)))

  pub is_empty_of_In : {x : A} {xs : List A} → In x xs → is_empty xs ≡ false
  is_empty_of_In here = refl
  is_empty_of_In (there m) = refl

  pub In-cons : {x y : A} {xs : List A} → In x (y ∷ xs) → (x ≡ y) ⊎ In x xs
  In-cons here = inl refl
  In-cons (there m) = inr m
