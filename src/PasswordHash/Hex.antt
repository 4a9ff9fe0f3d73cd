-- ===== src/PasswordHash/Hex.antt =====
-- src/TetrisGame/PasswordHash.cpp: bytes as hexadecimal text.
pub mod RoundTrip
use russia_tetris.Base.{
  ℕ, ◌+◌, ◌-◌, ◌*◌, ◌/◌, ◌%◌, List, [], ◌∷◌, Bool, true, false, not, ◌&&◌, ◌||◌, ltb, leb,
  if◌then◌else◌, Option, none, some, length, ◌==◌, ◌>>=◌,
}

-- "0123456789abcdef"[d]
unfoldable pub hex_char : ℕ → ℕ
hex_char d = if ltb d 10 then 48 + d else 87 + d

-- A byte shifted right by four bits, and its four lowest bits.
unfoldable pub to_hex : List ℕ → List ℕ
unfolding hex_char
to_hex [] = []
to_hex (b ∷ bs) = hex_char (b / 16) ∷ hex_char (b % 16) ∷ to_hex bs

-- -1 is `none`.
unfoldable pub hex_digit : ℕ → Option ℕ
hex_digit c =
    if leb 48 c && leb c 57
    then some (c - 48)
    else if leb 97 c && leb c 102
    then some (c - 97 + 10)
    else if leb 65 c && leb c 70
    then some (c - 65 + 10)
    else none

-- (hi << 4) | lo, where lo has four bits; the text has an even length where this is called.
unfoldable pub hex_pairs : List ℕ → Option (List ℕ)
unfolding hex_digit
hex_pairs [] = some []
hex_pairs (c ∷ []) = none
hex_pairs (c ∷ d ∷ rest) = do
  hi ← hex_digit c
  lo ← hex_digit d
  bytes ← hex_pairs rest
  some ((hi * 16 + lo) ∷ bytes)

unfoldable pub from_hex : List ℕ → Option (List ℕ)
unfolding hex_pairs
from_hex text = if length text == 0 || not (length text % 2 == 0) then none else hex_pairs text
