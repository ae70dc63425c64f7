-- ===== src/Base/Text.antt =====
-- Text literals as code points, `str.join`, and the printed form of a number.
use Prim.Native.Char.{code}
use Prim.Native.String.{String}
use reconcileflow.Base.{ℕ, zero, suc, ◌+◌, ◌/◌, ◌%◌, List, [], ◌∷◌, ◌++◌, ltb, true, false}
use reconcileflow.Base.Order.{Text}

abbrev pub text : String → Text
text String.[] = []
text (String.◌∷◌ c s) = code c ∷ text s

-- `separator.join(parts)`
unfoldable pub join : Text → List Text → Text
join separator [] = []
join separator (p ∷ []) = p
join separator (p ∷ q ∷ ps) = p ++ separator ++ join separator (q ∷ ps)

unfoldable pub decimal_from : ℕ → ℕ → Text
decimal_from zero n = []
decimal_from (suc fuel) n = elim (ltb n 10) [
  | true ↦ (b'0' + n) ∷ []
  | false ↦ decimal_from fuel (n / 10) ++ (b'0' + n % 10) ∷ []
]

-- `str(n)`; a number has at most `n + 1` digits.
unfoldable pub decimal_text : ℕ → Text
decimal_text n = decimal_from (n + 1) n
