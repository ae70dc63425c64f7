-- ===== src/Base/Dict.antt =====
-- A Python dict or defaultdict: an association list in insertion order.
use reconcileflow.Base.{
  ◌≡◌, refl, ap, suc, true, false, Option, none, some, List, [], ◌∷◌, arith, if◌then◌else◌, length,
  inl, inr, Bool-cases,
}
use reconcileflow.Base.Order.{Ord, ◌==◌, ==_iff}

abbrev pub Dict {ℓ κ} : Type ℓ → Type κ → Type (ℓ ⊔ κ)
Dict K V = List (K × V)

module _ {ℓ} {K : Type ℓ} ⦃o : Ord K⦄ where
  -- The keys after a write: a new key goes to the end.
  unfoldable pub note_key : K → List K → List K
  note_key k [] = k ∷ []
  note_key k (j ∷ ks) = if j == k then j ∷ ks else j ∷ note_key k ks

  pub note_key_old : (k j : K) (ks : List K) → (j == k) ≡ true → note_key k (j ∷ ks) ≡ j ∷ ks
  unfolding note_key
  note_key_old k j ks h = rw h refl

  pub note_key_new :
      (k j : K) (ks : List K) → (j == k) ≡ false → note_key k (j ∷ ks) ≡ j ∷ note_key k ks
  unfolding note_key
  note_key_new k j ks h = rw h refl

module _ {ℓ κ} {K : Type ℓ} {V : Type κ} where
  abbrev pub keys : Dict K V → List K
  keys [] = []
  keys ((k, _) ∷ d) = k ∷ keys d

  module _ ⦃o : Ord K⦄ where
    -- `d.get(k, default)`
    unfoldable pub find_or : V → K → Dict K V → V
    find_or default k [] = default
    find_or default k ((j, v) ∷ d) = if j == k then v else find_or default k d

    -- `d.get(k)`
    unfoldable pub find : K → Dict K V → Option V
    find k [] = none
    find k ((j, v) ∷ d) = if j == k then some v else find k d

    -- `d[k] = f(d.get(k, default))`: a new key goes to the end.
    unfoldable pub alter : V → K → (V → V) → Dict K V → Dict K V
    alter default k f [] = (k, f default) ∷ []
    alter default k f ((j, v) ∷ d) = if j == k then (j, f v) ∷ d else (j, v) ∷ alter default k f d

    pub find_or-alter :
        (default : V) (j k : K) (f : V → V) (d : Dict K V)
        → find_or default j (alter default k f d)
          ≡ (if k == j then f (find_or default j d) else find_or default j d)
    unfolding find_or alter
    find_or-alter default j k f [] = ground arith
    find_or-alter default j k f ((i, v) ∷ d) =
        ground (arith, ==_iff i k, ==_iff i j, ==_iff k j, find_or-alter default j k f d)

    pub keys-alter :
        (default : V) (k : K) (f : V → V) (d : Dict K V)
        → keys (alter default k f d) ≡ note_key k (keys d)
    unfolding alter note_key
    keys-alter default k f [] = refl
    keys-alter default k f ((j, v) ∷ d) = elim (Bool-cases (j == k)) [
      | inl e ↦ rw e refl
      | inr e ↦ rw (e, keys-alter default k f d) refl
    ]

  pub length-keys : (d : Dict K V) → length (keys d) ≡ length d
  length-keys [] = refl
  length-keys ((k, v) ∷ d) = ap suc (length-keys d)
