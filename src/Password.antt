-- ===== src/Password.antt =====
-- src/TetrisGame/PasswordPolicy.h: which passwords a new registration may use.
pub mod Accepted
pub mod Encoded
use russia_tetris.Base.{
  ℕ, suc, ◌/◌, List, [], ◌∷◌, Bool, true, not, ◌&&◌, ◌||◌, leb, ◌==◌, if◌then◌else◌,
}

abbrev pub min_length : ℕ
min_length = 8

-- (c & 0xC0) == 0x80 for a byte: its two highest bits are 10.
unfoldable pub continuation : ℕ → Bool
continuation c = c / 64 == 2

unfoldable pub utf8_length : List ℕ → ℕ
unfolding continuation
utf8_length [] = 0
utf8_length (c ∷ cs) = let rest = utf8_length cs in if not (continuation c) then suc rest else rest

-- No byte other than a space or a tab.
unfoldable pub is_blank : List ℕ → Bool
is_blank [] = true
is_blank (c ∷ cs) = (c == 32 || c == 9) && is_blank cs

unfoldable pub check : List ℕ → Bool
unfolding utf8_length is_blank
check password = leb min_length (utf8_length password) && not (is_blank password)
