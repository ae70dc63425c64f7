-- ===== src/Base/Raised.antt =====
-- A call that returns or raises.
use mathlib.Core.Path.{◌≡◌, refl}
use mathlib.Core.Option.{Option, none, some}

-- The exceptions of the source (`InvalidOperation` is of `decimal`), and the end of the fuel, which is no exception of it.
pub data Error : Type 0 where
  value_error key_error index_error type_error attribute_error overflow_error : Error
  invalid_operation out_of_fuel : Error

pub data Result {ℓ} (A : Type ℓ) : Type ℓ where
  raised : Error → Result A
  ok : A → Result A

module _ {ℓ κ} {A : Type ℓ} {B : Type κ} where
  infixl 5 ◌>>=◌
  -- An exception ends the call; else it goes on with the value returned.
  abbrev pub ◌>>=◌ : Result A → (A → Result B) → Result B
  raised error >>= next = raised error
  ok value >>= next = next value

  pub >>=-eq-ok :
      (call : Result A) (next : A → Result B) {b : B}
      → (call >>= next) ≡ ok b
      → (value : A) × (call ≡ ok value) × (next value ≡ ok b)
  >>=-eq-ok (raised error) next returned = cc
  >>=-eq-ok (ok value) next returned = (value, refl, returned)

-- `d[key]`, from what `d.get(key)` finds.
abbrev pub or_key_error {ℓ} : {A : Type ℓ} → Option A → Result A
or_key_error none = raised key_error
or_key_error (some a) = ok a

pub ok-injective {ℓ} : {A : Type ℓ} {a b : A} → ok a ≡ ok b → a ≡ b
ok-injective e = cc
