-- ===== src/Output/Decimal.antt =====
-- `std::to_string` of an `int`.
use russia_tetris.Base.{
  ℕ, zero, suc, ◌+◌, ◌/◌, ◌%◌, ℤ, pos, negsuc, List, [], ◌∷◌, ◌++◌, ltb, if◌then◌else◌,
}

-- The decimal digits of `n`; a fuel above `n` is enough.
unfoldable pub digits : ℕ → ℕ → List ℕ
digits zero n = []
digits (suc f) n =
    let more = digits f (n / 10) in if ltb n 10 then (48 + n) ∷ [] else more ++ (48 + n % 10) ∷ []

unfoldable pub to_string : ℤ → List ℕ
unfolding digits
to_string (pos n) = digits (suc n) n
to_string (negsuc n) = 45 ∷ digits (suc (suc n)) (suc n)
