-- ===== src/PasswordHash/Parsed.antt =====
-- The parser of a credential on what `hash` writes.
use russia_tetris.Base.{
  ℕ, zero, suc, ◌+◌, ◌-◌, ◌*◌, ◌/◌, ◌%◌, ◌^◌, ◌<◌, ◌≤◌, ◌≡◌, ◌≢◌, refl, ◌∙◌, Bool, ◌&&◌, ap, pos,
  List, [], ◌∷◌, ◌++◌, some, length, arith, true, false, Bool-cases, inl, inr, ltb, ◌==◌, ◌>>=◌,
  length-append, drop, same_text, not, ◌||◌,
}
use russia_tetris.Output.Decimal.{digits, to_string}
use russia_tetris.PasswordHash.{
  ParsedCredential, dollar, algo_tag, hashed_prefix, is_hashed, split, read_digits, read_iterations,
  read_parts, parse_credential, write_credential, read_fields, check_sizes, guard, extend,
}
use russia_tetris.PasswordHash.Hex.{hex_char, to_hex, from_hex}
use russia_tetris.PasswordHash.Hex.RoundTrip.{Bytes, from_hex-to_hex}

-- A text without a dollar sign.
data Plain : List ℕ → Type 0 where
  nil : Plain []
  other : {c : ℕ} {cs : List ℕ} → c ≢ dollar → Plain cs → Plain (c ∷ cs)

abbrev plain_test : List ℕ → Bool
plain_test [] = true
plain_test (c ∷ cs) = not (c == dollar) && plain_test cs

Plain-append : (a b : List ℕ) → Plain a → Plain b → Plain (a ++ b)
Plain-append [] b p q = q
Plain-append (c ∷ cs) b (other n p) q = other n (Plain-append cs b p q)

digits-Plain : (f n : ℕ) → Plain (digits f n)
unfolding digits
digits-Plain zero n = nil
digits-Plain (suc f) n = elim (Bool-cases (ltb n 10)) [
  | inl e ↦ rw e (other (λ h. omega arith) nil)
  | inr e ↦
      rw e (
        Plain-append (digits f (n / 10)) _ (digits-Plain f (n / 10)) (other (λ h. omega arith) nil))
]

hex_char-plain : (d : ℕ) → hex_char d ≢ dollar
unfolding hex_char
hex_char-plain d h = ground arith

to_hex-Plain : (bs : List ℕ) → Plain (to_hex bs)
unfolding to_hex
to_hex-Plain [] = nil
to_hex-Plain (b ∷ bs) =
    other (hex_char-plain (b / 16)) (other (hex_char-plain (b % 16)) (to_hex-Plain bs))

split_one : (a : List ℕ) → Plain a → split a ≡ a ∷ []
unfolding split extend
split_one [] p = refl
split_one (c ∷ cs) (other n p) =
    let d : (c == dollar) ≡ false = ground (arith, n) in rw (d, split_one cs p)

split_first : (a b : List ℕ) → Plain a → split (a ++ (dollar ∷ b)) ≡ a ∷ split b
unfolding split extend
split_first [] b p = refl
split_first (c ∷ cs) b (other n p) =
    let d : (c == dollar) ≡ false = ground (arith, n) in rw (d, split_first cs b p)

read_one : (n : ℕ) → n < 10 → read_digits ((48 + n) ∷ []) 0 ≡ some n
unfolding read_digits
read_one n h = ground arith

read_digits-append :
    (a : List ℕ) (c n m : ℕ)
    → read_digits a n ≡ some m
    → c < 10
    → read_digits (a ++ (48 + c) ∷ []) n ≡ some (m * 10 + c)
unfolding read_digits
read_digits-append [] c n m h lt = ground arith
read_digits-append (x ∷ xs) c n m h lt = elim (Bool-cases (ltb x 48 || ltb 57 x)) [
  | inl e ↦ cc
  | inr e ↦ rw e (read_digits-append xs c (n * 10 + (x - 48)) m (rw e at h) lt)
]

read_digits-digits : (f n : ℕ) → n < f → read_digits (digits f n) 0 ≡ some n
unfolding digits
read_digits-digits zero n h = absurd (omega arith)
read_digits-digits (suc f) n h = elim (Bool-cases (ltb n 10)) [
  | inl e ↦ rw e (read_one n (ground arith))
  | inr e ↦
      let eq : n / 10 * 10 + n % 10 ≡ n = omega arith in
      rw (
        e,
        read_digits-append (digits f (n / 10)) (n % 10) 0 (n / 10)
            (read_digits-digits f (n / 10) (ground arith)) (omega arith),
        eq,
      )
]

length-digits : (f n : ℕ) → 0 < f → 1 ≤ length (digits f n)
unfolding digits
length-digits zero n h = absurd (omega arith)
length-digits (suc f) n h = ground (arith, length-append (digits f (n / 10)) ((48 + n % 10) ∷ []))

length-digits-le : (k f n : ℕ) → n < 10 ^ k → 1 ≤ k → length (digits f n) ≤ k
unfolding digits
length-digits-le k zero n h p = omega arith
length-digits-le zero (suc f) n h p = absurd (omega arith)
length-digits-le (suc zero) (suc f) n h p = ground arith
length-digits-le (suc (suc k)) (suc f) n h p =
    let e : 10 ^ (suc (suc k)) ≡ 10 ^ (suc k) * 10 = omega arith in
    let less : n / 10 < 10 ^ (suc k) = omega arith in
    ground (
      arith,
      length-append (digits f (n / 10)) ((48 + n % 10) ∷ []),
      length-digits-le (suc k) f (n / 10) less (omega arith),
    )

read_iterations-digits :
    (n : ℕ) → 1 ≤ n → n ≤ 10000000 → read_iterations (to_string (pos n)) ≡ some n
unfolding read_iterations to_string guard
read_iterations-digits n low high =
    let text = digits (suc n) n in
    let short : ltb 9 (length text) ≡ false =
      ground (arith, length-digits-le 9 (suc n) n (omega arith) (omega arith)) in
    let some_digit : (length text == 0) ≡ false =
      ground (arith, length-digits (suc n) n (omega arith)) in
    let small : ltb 10000000 n ≡ false = ground arith in
    let positive : ltb n 1 ≡ false = ground arith in
    rw (short, some_digit, read_digits-digits (suc n) n (omega arith), small, positive, ◌>>=◌)

is_hashed-prefix : (rest : List ℕ) → is_hashed (hashed_prefix ++ rest) ≡ true
unfolding is_hashed same_text
is_hashed-prefix rest = refl

-- The fields that the parser lets through.
pub data ValidCredential : ParsedCredential → Type 0 where
  valid :
      {c : ParsedCredential}
      → 1 ≤ c.iterations
      → c.iterations ≤ 10000000
      → Bytes c.salt
      → 8 ≤ length c.salt
      → length c.salt ≤ 64
      → Bytes c.digest
      → length c.digest ≡ 32
      → ValidCredential c

from_hex-nonempty : (bs : List ℕ) → Bytes bs → 1 ≤ length bs → from_hex (to_hex bs) ≡ some bs
from_hex-nonempty [] h p = absurd (omega arith)
from_hex-nonempty (b ∷ bs) h p = from_hex-to_hex b bs h

read_parts-valid :
    (c : ParsedCredential)
    → ValidCredential c
    → read_parts (algo_tag ∷ to_string (pos c.iterations) ∷ to_hex c.salt ∷ to_hex c.digest ∷ [])
      ≡ some c
unfolding read_parts read_fields check_sizes
read_parts-valid c (valid low high sb s8 s64 db d32) =
    let not_short : ltb (length c.salt) 8 ≡ false = ground arith in
    let not_long : ltb 64 (length c.salt) ≡ false = ground arith in
    let right_size : (length c.digest == 32) ≡ true = ground arith in
    rw (
      read_iterations-digits c.iterations low high,
      from_hex-nonempty c.salt sb (omega arith),
      from_hex-nonempty c.digest db (omega arith),
      not_short,
      not_long,
      right_size,
      ◌>>=◌,
    )

to_string-Plain : (n : ℕ) → Plain (to_string (pos n))
unfolding to_string
to_string-Plain n = digits-Plain (suc n) n

plain_test-Plain : (a : List ℕ) → plain_test a ≡ true → Plain a
plain_test-Plain [] h = nil
plain_test-Plain (c ∷ cs) h = other (ground (arith, h)) (plain_test-Plain cs (ground (arith, h)))

algo_tag-Plain : Plain algo_tag
algo_tag-Plain = plain_test-Plain algo_tag refl

split-written :
    (c : ParsedCredential)
    → split (drop 1 (write_credential c))
      ≡ algo_tag ∷ to_string (pos c.iterations) ∷ to_hex c.salt ∷ to_hex c.digest ∷ []
unfolding write_credential
split-written c =
    let a = to_string (pos c.iterations) in
    split_first algo_tag (a ++ (dollar ∷ to_hex c.salt ++ (dollar ∷ to_hex c.digest)))
      algo_tag-Plain
    ∙ ap (λ (t : List (List ℕ)). algo_tag ∷ t)
        (split_first a (to_hex c.salt ++ (dollar ∷ to_hex c.digest)) (to_string-Plain c.iterations)
          ∙ ap (λ (t : List (List ℕ)). a ∷ t)
              (split_first (to_hex c.salt) (to_hex c.digest) (to_hex-Plain c.salt)
                ∙ ap (λ (t : List (List ℕ)). to_hex c.salt ∷ t)
                    (split_one (to_hex c.digest) (to_hex-Plain c.digest))))

written_hashed : (c : ParsedCredential) → is_hashed (write_credential c) ≡ true
unfolding write_credential
written_hashed c = is_hashed-prefix _

-- A credential of 1 to ten million iterations, a salt of 8 to 64 bytes and a digest of 32 bytes is
-- read back from the text that is written for it.
pub parse_credential-written :
    (c : ParsedCredential) → ValidCredential c → parse_credential (write_credential c) ≡ some c
unfolding parse_credential
parse_credential-written c v = rw (written_hashed c, split-written c) (read_parts-valid c v)
