-- ===== src/PasswordHash.antt =====
-- src/TetrisGame/PasswordHash.h and PasswordHash.cpp: stored passwords, written
-- "$pbkdf2-sha256$<iterations>$<salt>$<digest>", and the texts of before, which are the password.
pub mod Hex
pub mod Parsed
pub mod Verify
pub mod Decides
pub mod Hashed
use russia_tetris.Base.{
  ℕ, zero, suc, ◌+◌, ◌-◌, ◌*◌, ◌/◌, ◌%◌, pos, List, [], ◌∷◌, ◌++◌, Bool, true, false, not, ◌&&◌,
  ◌||◌, ltb, leb, ◌==◌, if◌then◌else◌, Option, none, some, length, take, drop, ◌>>=◌, same_text,
}
use russia_tetris.Output.Decimal.{to_string}
use Hex.{to_hex, from_hex}

abbrev pub iterations_now : ℕ
iterations_now = 100000

abbrev pub salt_bytes : ℕ
salt_bytes = 16

abbrev pub hash_bytes : ℕ
hash_bytes = 32

abbrev pub dollar : ℕ
dollar = 36

-- "pbkdf2-sha256"
abbrev pub algo_tag : List ℕ
algo_tag = 112 ∷ 98 ∷ 107 ∷ 100 ∷ 102 ∷ 50 ∷ 45 ∷ 115 ∷ 104 ∷ 97 ∷ 50 ∷ 53 ∷ 54 ∷ []

abbrev pub hashed_prefix : List ℕ
hashed_prefix = dollar ∷ algo_tag ++ dollar ∷ []

-- stored.compare(0, 15, kHashedPrefix) == 0
unfoldable pub is_hashed : List ℕ → Bool
unfolding same_text
is_hashed stored = same_text (take 15 stored) hashed_prefix

unfoldable pub extend : ℕ → List (List ℕ) → List (List ℕ)
extend c [] = []
extend c (p ∷ ps) = (c ∷ p) ∷ ps

-- The parts of a text between its dollar signs.
unfoldable pub split : List ℕ → List (List ℕ)
unfolding extend
split [] = [] ∷ []
split (c ∷ cs) = let rest = split cs in if c == dollar then [] ∷ rest else extend c rest

unfoldable pub read_digits : List ℕ → ℕ → Option ℕ
read_digits [] n = some n
read_digits (c ∷ cs) n = if ltb c 48 || ltb 57 c then none else read_digits cs (n * 10 + (c - 48))

pub record ParsedCredential : Type 0 where
  pub iterations : ℕ
  pub salt : List ℕ
  pub digest : List ℕ

unfoldable pub guard : Bool → Option (Unit {0})
guard true = some tt
guard false = none

unfoldable pub read_iterations : List ℕ → Option ℕ
unfolding read_digits guard
read_iterations text = do
  a ← guard (not (length text == 0 || ltb 9 (length text)))
  n ← read_digits text 0
  b ← guard (not (ltb n 1 || ltb 10000000 n))
  some n

unfoldable pub check_sizes : ℕ → List ℕ → List ℕ → Option ParsedCredential
check_sizes n s h =
    if ltb (length s) 8 || ltb 64 (length s) || not (length h == hash_bytes)
    then none
    else some (record { iterations = n; salt = s; digest = h })

unfoldable pub read_fields : Option ℕ → Option (List ℕ) → Option (List ℕ) → Option ParsedCredential
unfolding check_sizes
read_fields none s h = none
read_fields (some n) none h = none
read_fields (some n) (some s) none = none
read_fields (some n) (some s) (some h) = check_sizes n s h

unfoldable pub read_parts : List (List ℕ) → Option ParsedCredential
unfolding read_iterations from_hex read_fields same_text
read_parts (tag ∷ count ∷ salt_text ∷ hash_text ∷ []) =
    if same_text tag algo_tag
    then read_fields (read_iterations count) (from_hex salt_text) (from_hex hash_text)
    else none
read_parts _ = none

unfoldable pub parse_credential : List ℕ → Option ParsedCredential
unfolding is_hashed split read_parts
parse_credential stored = if is_hashed stored then read_parts (split (drop 1 stored)) else none

-- What `hash` writes.
unfoldable pub write_credential : ParsedCredential → List ℕ
unfolding to_string to_hex
write_credential c =
    hashed_prefix
    ++ (to_string (pos c.iterations) ++ (dollar ∷ to_hex c.salt ++ (dollar ∷ to_hex c.digest)))
