-- ===== src/Base/Order.antt =====
-- The order and the equality that Python's comparisons stand for: numbers, and sequences compared
-- element by element (a text is the sequence of its code points, a tuple that of its parts).
use reconcileflow.Base.{
  ℕ, ◌≡◌, refl, ◌↔◌, Bool, true, false, ◌&&◌, List, [], ◌∷◌, arith, leb, if◌then◌else◌, inl, inr,
  Bool-cases,
}

pub record Ord {ℓ} (A : Type ℓ) : Type ℓ where
  pub before : A → A → Bool
  pub total : (a b : A) → before a b ≡ false → before b a ≡ true
  pub trans : (a b c : A) → before a b ≡ true → before b c ≡ true → before a c ≡ true
  pub antisymm : (a b : A) → before a b ≡ true → before b a ≡ true → a ≡ b

module _ {ℓ} {A : Type ℓ} ⦃o : Ord A⦄ where
  infix 50 ◌<=◌ ◌==◌
  abbrev pub ◌<=◌ : A → A → Bool
  a <= b = o.before a b

  -- both sides of the order: by antisymmetry, equality
  unfoldable pub ◌==◌ : A → A → Bool
  a == b = a <= b && b <= a

  pub <=_refl : (a : A) → (a <= a) ≡ true
  <=_refl a = elim (Bool-cases (a <= a)) [ inl h ↦ h | inr h ↦ o.total a a h ]

  pub ==_refl : (a : A) → (a == a) ≡ true
  unfolding ◌==◌
  ==_refl a = rw <=_refl refl

  pub eq_of_== : (a b : A) → (a == b) ≡ true → a ≡ b
  unfolding ◌==◌
  eq_of_== a b h = o.antisymm a b (ground arith) (ground arith)

  pub ==_of_eq : (a b : A) → a ≡ b → (a == b) ≡ true
  ==_of_eq a b e = rw e (==_refl b)

  pub ==_iff : (a b : A) → ((a == b) ≡ true) ↔ (a ≡ b)
  ==_iff a b = (eq_of_== a b, ==_of_eq a b)

  pub ==_false : (a b : A) → ¬ (a ≡ b) → (a == b) ≡ false
  ==_false a b h = elim (Bool-cases (a == b)) [ inl e ↦ absurd (h (eq_of_== a b e)) | inr e ↦ e ]

  pub ==_comm : (a b : A) → (a == b) ≡ (b == a)
  unfolding ◌==◌
  ==_comm a b = ground arith

  -- `a in xs`
  unfoldable pub contains : A → List A → Bool
  contains a [] = false
  contains a (x ∷ xs) = if x == a then true else contains a xs

pub leb_total : (a b : ℕ) → leb a b ≡ false → leb b a ≡ true
leb_total a b h = ground arith

pub leb_trans : (a b c : ℕ) → leb a b ≡ true → leb b c ≡ true → leb a c ≡ true
leb_trans a b c h k = ground arith

pub leb_antisymm : (a b : ℕ) → leb a b ≡ true → leb b a ≡ true → a ≡ b
leb_antisymm a b h k = ground arith

instance abbrev pub nat_ord : Ord ℕ
nat_ord = record { before = leb; total = leb_total; trans = leb_trans; antisymm = leb_antisymm }

module _ {ℓ} {A : Type ℓ} ⦃o : Ord A⦄ where
  -- The first pair that differs decides; a proper prefix comes first.
  unfoldable pub lex : List A → List A → Bool
  lex [] ys = true
  lex (x ∷ xs) [] = false
  lex (x ∷ xs) (y ∷ ys) = if x <= y then (if y <= x then lex xs ys else true) else false

  pub lex_total : (xs ys : List A) → lex xs ys ≡ false → lex ys xs ≡ true
  unfolding lex
  lex_total [] ys h = absurd (ground arith)
  lex_total (x ∷ xs) [] h = refl
  lex_total (x ∷ xs) (y ∷ ys) h = ground (arith, o.total x y, lex_total xs ys)

  pub lex_trans : (xs ys zs : List A) → lex xs ys ≡ true → lex ys zs ≡ true → lex xs zs ≡ true
  unfolding lex
  lex_trans [] ys zs h k = refl
  lex_trans (x ∷ xs) [] zs h k = absurd (ground arith)
  lex_trans (x ∷ xs) (y ∷ ys) [] h k = absurd (ground arith)
  lex_trans (x ∷ xs) (y ∷ ys) (z ∷ zs) h k =
      ground (arith, o.trans x y z, o.trans z x y, o.trans y z x, lex_trans xs ys zs)

  pub lex_antisymm : (xs ys : List A) → lex xs ys ≡ true → lex ys xs ≡ true → xs ≡ ys
  unfolding lex
  lex_antisymm [] [] h k = refl
  lex_antisymm [] (y ∷ ys) h k = absurd (ground arith)
  lex_antisymm (x ∷ xs) [] h k = absurd (ground arith)
  lex_antisymm (x ∷ xs) (y ∷ ys) h k = ground (arith, o.antisymm x y, lex_antisymm xs ys)

  instance abbrev pub list_ord : Ord (List A)
  list_ord = record { before = lex; total = lex_total; trans = lex_trans; antisymm = lex_antisymm }

-- A text is the sequence of its code points.
abbrev pub Text : Type 0
Text = List ℕ
