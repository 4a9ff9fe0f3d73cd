-- ===== src/Tests/Password.antt =====
-- Two passwords.
use russia_tetris.Base.{ℕ, ◌≤◌, ◌≡◌, refl, ◌↔◌, List, [], ◌∷◌, true, false, length}
use russia_tetris.Password.{check, utf8_length, is_blank, continuation}
use russia_tetris.Password.Encoded.{Visible, encode, encode_text, check-encode_text}

abbrev eight : List ℕ
eight = 116 ∷ 101 ∷ 116 ∷ 114 ∷ 105 ∷ 115 ∷ 33 ∷ 49 ∷ []

-- Three code points in nine bytes.
abbrev three : List ℕ
three = 229 ∷ 175 ∷ 134 ∷ 231 ∷ 160 ∷ 129 ∷ 229 ∷ 146 ∷ 140 ∷ []

eight_accepted : check eight ≡ true
unfolding check utf8_length is_blank continuation
eight_accepted = refl

three_refused : check three ≡ false
unfolding check utf8_length is_blank continuation
three_refused = refl

-- Eight characters in 19 bytes, the first a space.
abbrev mixed : List ℕ
mixed = 32 ∷ 23494 ∷ 30721 ∷ 21644 ∷ 233 ∷ 49 ∷ 128512 ∷ 50 ∷ []

mixed_accepted : check (encode_text mixed) ≡ true
unfolding check utf8_length is_blank continuation encode_text encode
mixed_accepted = refl

check-encode_text_example :
    (check (encode_text mixed) ≡ true) ↔ ((8 ≤ length mixed) × Visible mixed)
check-encode_text_example = check-encode_text mixed
