-- ===== src/Password/Encoded.antt =====
-- The policy on passwords that are written in UTF-8, character by character.
use russia_tetris.Base.{
  ℕ, suc, ◌+◌, ◌/◌, ◌%◌, ◌≤◌, ◌<◌, ◌≡◌, ◌≢◌, ◌↔◌, refl, inl, inr, List, [], ◌∷◌, ◌++◌, length, true,
  false, ltb, ◌||◌, ◌&&◌, ◌==◌, Bool-cases, if◌then◌else◌, arith,
}
use russia_tetris.Password.{utf8_length, is_blank, continuation, check}

-- The bytes of a code point as RFC 3629 has them.
unfoldable pub encode : ℕ → List ℕ
encode c =
    if ltb c 128
    then c ∷ []
    else if ltb c 2048
    then (192 + c / 64) ∷ (128 + c % 64) ∷ []
    else if ltb c 65536
    then (224 + c / 4096) ∷ (128 + c / 64 % 64) ∷ (128 + c % 64) ∷ []
    else (240 + c / 262144) ∷ (128 + c / 4096 % 64) ∷ (128 + c / 64 % 64) ∷ (128 + c % 64) ∷ []

unfoldable pub encode_text : List ℕ → List ℕ
unfolding encode
encode_text [] = []
encode_text (c ∷ cs) = encode c ++ encode_text cs

-- A character that is neither a space nor a tab.
pub data Visible : List ℕ → Type 0 where
  here : {c : ℕ} {cs : List ℕ} → c ≢ 32 → c ≢ 9 → Visible (c ∷ cs)
  later : {c : ℕ} {cs : List ℕ} → Visible cs → Visible (c ∷ cs)

trailing : (x : ℕ) → continuation (128 + x % 64) ≡ true
unfolding continuation
trailing x = ground arith

leading : (x : ℕ) → 192 ≤ x → continuation x ≡ false
unfolding continuation
leading x h = ground arith

plain : (x : ℕ) → x < 128 → continuation x ≡ false
unfolding continuation
plain x h = ground arith

visible_byte : (x : ℕ) → 128 ≤ x → (x == 32 || x == 9) ≡ false
visible_byte x h = ground arith

-- What the two loops of the policy make of the bytes of one character.
record Counted (c : ℕ) (bytes rest : List ℕ) : Type 0 where
  counted_once : utf8_length (bytes ++ rest) ≡ suc (utf8_length rest)
  blank_as_it : is_blank (bytes ++ rest) ≡ ((c == 32 || c == 9) && is_blank rest)

one_byte : (c : ℕ) (rest : List ℕ) → c < 128 → Counted c (c ∷ []) rest
unfolding utf8_length is_blank
one_byte c rest h = record { counted_once = rw (plain c h) refl; blank_as_it = refl }

two_bytes :
    (c a x : ℕ) (rest : List ℕ) → 128 ≤ c → 192 ≤ a → Counted c (a ∷ (128 + x % 64) ∷ []) rest
unfolding utf8_length is_blank
two_bytes c a x rest h k = record {
  counted_once = rw (leading a k) (rw (trailing x) refl);
  blank_as_it = rw (visible_byte a (omega arith)) (rw (visible_byte c h) refl);
}

three_bytes :
    (c a x y : ℕ) (rest : List ℕ)
    → 128 ≤ c
    → 192 ≤ a
    → Counted c (a ∷ (128 + x % 64) ∷ (128 + y % 64) ∷ []) rest
unfolding utf8_length is_blank
three_bytes c a x y rest h k = record {
  counted_once = rw (leading a k) (rw (trailing x) (rw (trailing y) refl));
  blank_as_it = rw (visible_byte a (omega arith)) (rw (visible_byte c h) refl);
}

four_bytes :
    (c a x y z : ℕ) (rest : List ℕ)
    → 128 ≤ c
    → 192 ≤ a
    → Counted c (a ∷ (128 + x % 64) ∷ (128 + y % 64) ∷ (128 + z % 64) ∷ []) rest
unfolding utf8_length is_blank
four_bytes c a x y z rest h k = record {
  counted_once = rw (leading a k) (rw (trailing x) (rw (trailing y) (rw (trailing z) refl)));
  blank_as_it = rw (visible_byte a (omega arith)) (rw (visible_byte c h) refl);
}

encode-Counted : (c : ℕ) (rest : List ℕ) → Counted c (encode c) rest
unfolding encode
encode-Counted c rest = elim (Bool-cases (ltb c 128)) [
  | inl one ↦ rw (one, encode) (one_byte c rest (ground (arith, one)))
  | inr more1 ↦
      let big : 128 ≤ c = ground (arith, more1) in
      rw (more1, encode)
        (elim (Bool-cases (ltb c 2048)) [
          | inl two ↦ rw (two, encode) (two_bytes c (192 + c / 64) c rest big (omega arith))
          | inr more2 ↦
              rw (more2, encode)
                (elim (Bool-cases (ltb c 65536)) [
                  | inl three ↦
                      rw (three, encode)
                        (three_bytes c (224 + c / 4096) (c / 64) c rest big (omega arith))
                  | inr more3 ↦
                      rw (more3, encode)
                        (four_bytes c (240 + c / 262144) (c / 4096) (c / 64) c rest big
                          (omega arith))
                ])
        ])
]

-- The policy counts the characters of a text, not its bytes.
pub utf8_length-encode_text : (cs : List ℕ) → utf8_length (encode_text cs) ≡ length cs
unfolding encode_text utf8_length
utf8_length-encode_text [] = refl
utf8_length-encode_text (c ∷ cs) =
    omega (arith, (encode-Counted c (encode_text cs)).counted_once, utf8_length-encode_text cs)

shown_lem : (cs : List ℕ) → Visible cs → is_blank (encode_text cs) ≡ false
unfolding encode_text
shown_lem [] v = elim v [ ]
shown_lem (c ∷ cs) (here a b) =
    rw (encode-Counted c (encode_text cs)).blank_as_it (ground (arith, a, b))
shown_lem (c ∷ cs) (later v) =
    rw (encode-Counted c (encode_text cs)).blank_as_it (ground (arith, shown_lem cs v))

find_shown : (cs : List ℕ) → is_blank (encode_text cs) ≡ false → Visible cs
unfolding encode_text is_blank
find_shown [] h = cc
find_shown (c ∷ cs) h =
    let e = (encode-Counted c (encode_text cs)).blank_as_it in
    elim (Bool-cases (c == 32 || c == 9)) [
      | inl blank ↦ later (find_shown cs (ground (arith, blank, e, h)))
      | inr shown ↦ here (ground (arith, shown)) (ground (arith, shown))
    ]

-- A password written in UTF-8 is accepted exactly when it has eight characters at least, however many
-- bytes they take, and one of them is neither a space nor a tab.
pub check-encode_text :
    (cs : List ℕ) → (check (encode_text cs) ≡ true) ↔ ((8 ≤ length cs) × Visible cs)
unfolding check
check-encode_text cs =
    let n = utf8_length-encode_text cs in
    (
      (λ h. (ground (arith, n), find_shown cs (ground arith))),
      λ h. ground (arith, h.0, n, shown_lem cs h.1),
    )
