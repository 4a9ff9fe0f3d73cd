-- ===== src/PasswordHash/Hex/RoundTrip.antt =====
-- Hexadecimal text read back.
use russia_tetris.Base.{
  ℕ, ◌+◌, ◌*◌, ◌/◌, ◌%◌, ◌<◌, ◌≡◌, refl, List, [], ◌∷◌, some, length, arith, true, false, ◌==◌,
  ◌>>=◌, suc,
}
use russia_tetris.PasswordHash.Hex.{hex_char, to_hex, hex_digit, hex_pairs, from_hex}

-- Every number of the list is a byte.
pub data Bytes : List ℕ → Type 0 where
  empty : Bytes []
  byte : {b : ℕ} {bs : List ℕ} → b < 256 → Bytes bs → Bytes (b ∷ bs)

hex_digit-char : (d : ℕ) → d < 16 → hex_digit (hex_char d) ≡ some d
unfolding hex_digit hex_char
hex_digit-char d h = ground arith

hex_pairs-to_hex : (bs : List ℕ) → Bytes bs → hex_pairs (to_hex bs) ≡ some bs
unfolding hex_pairs to_hex
hex_pairs-to_hex [] empty = refl
hex_pairs-to_hex (b ∷ bs) (byte h rest) =
    let eq : b / 16 * 16 + b % 16 ≡ b = omega arith in
    rw (
      hex_digit-char (b / 16) (omega arith),
      hex_digit-char (b % 16) (omega arith),
      hex_pairs-to_hex bs rest,
      ◌>>=◌,
      eq,
    )

pub length-to_hex : (bs : List ℕ) → length (to_hex bs) ≡ length bs * 2
unfolding to_hex
length-to_hex [] = refl
length-to_hex (b ∷ bs) = omega (arith, length-to_hex bs)

-- What `to_hex` writes for one byte or more, `from_hex` reads back.
pub from_hex-to_hex :
    (b : ℕ) (bs : List ℕ) → Bytes (b ∷ bs) → from_hex (to_hex (b ∷ bs)) ≡ some (b ∷ bs)
unfolding from_hex
from_hex-to_hex b bs h =
    let n = suc (length bs) * 2 in
    let some_bytes : (n == 0) ≡ false = ground arith in
    let pairs : (n % 2 == 0) ≡ true = ground arith in
    rw (length-to_hex (b ∷ bs), some_bytes, pairs, hex_pairs-to_hex (b ∷ bs) h)
