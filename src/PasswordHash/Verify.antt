-- ===== src/PasswordHash/Verify.antt =====
-- Hashing a password and checking one, with OpenSSL as a parameter.
use russia_tetris.Base.{
  ℕ, List, [], ◌∷◌, Bool, true, false, not, ◌||◌, ltb, ◌==◌, if◌then◌else◌, Option, none, some,
  length, ◌>>=◌,
}
use russia_tetris.PasswordHash.{
  ParsedCredential, iterations_now, salt_bytes, hash_bytes, is_hashed, parse_credential,
  write_credential,
}
use russia_tetris.PasswordHash.Hex.{to_hex}

-- `PKCS5_PBKDF2_HMAC` with SHA-256, on a password, a salt, the iterations and the length of the
-- result, `none` when it fails; and `CRYPTO_memcmp`.
pub record Crypto : Type 0 where
  pub pbkdf2 : List ℕ → List ℕ → ℕ → ℕ → Option (List ℕ)
  pub memcmp : List ℕ → List ℕ → ℕ → ℕ

-- The result of `verify`, and what it leaves in `*needsRehash`.
pub record Verdict : Type 0 where
  pub accepted : Bool
  pub needs_rehash : Bool

abbrev pub refused : Verdict
refused = record { accepted = false; needs_rehash = false }

abbrev pub accepted_with : Bool → Verdict
accepted_with rehash = record { accepted = true; needs_rehash = rehash }

abbrev pub outdated : ParsedCredential → Bool
outdated c = not (c.iterations == iterations_now) || not (length c.salt == salt_bytes)

module _ (crypto : Crypto) where
  unfoldable pub derive : List ℕ → List ℕ → ℕ → ℕ → Option (List ℕ)
  derive password salt iterations out_len =
      if ltb 4096 (length password) || ltb 256 (length salt) || ltb 256 out_len
      then none
      else crypto.pbkdf2 password salt iterations out_len

  unfoldable pub constant_time_equals : List ℕ → List ℕ → ℕ → Bool
  constant_time_equals a b n = crypto.memcmp a b n == 0

  unfoldable pub verify_digest : List ℕ → ParsedCredential → Verdict
  unfolding derive constant_time_equals
  verify_digest password c = elim (derive password c.salt c.iterations hash_bytes) [
    | none ↦ refused
    | some d ↦
        if not (constant_time_equals d c.digest hash_bytes)
        then refused
        else accepted_with (outdated c)
  ]

  -- A text of before: the password itself.
  unfoldable pub verify_plain : List ℕ → List ℕ → Verdict
  unfolding constant_time_equals
  verify_plain password stored =
      if length stored == 0 || not (length stored == length password)
      then refused
      else if not (constant_time_equals stored password (length stored))
      then refused
      else accepted_with true

  unfoldable pub verify : List ℕ → List ℕ → Verdict
  unfolding parse_credential verify_digest verify_plain is_hashed
  verify password stored = elim (parse_credential stored) [
    | some c ↦ verify_digest password c
    | none ↦ if is_hashed stored then refused else verify_plain password stored
  ]

  -- `random` is what `RAND_bytes` gives for the salt; `none` stands for the exception.
  unfoldable pub hash : Option (List ℕ) → List ℕ → Option (List ℕ)
  unfolding derive write_credential
  hash random password = do
    salt ← random
    d ← derive password salt iterations_now hash_bytes
    some (write_credential (record { iterations = iterations_now; salt = salt; digest = d }))

  -- "dummy-credential-fallback"
  abbrev pub dummy_seed : Option (List ℕ) → List ℕ
  dummy_seed (some material) = to_hex material
  dummy_seed none =
      100 ∷ 117 ∷ 109 ∷ 109 ∷ 121 ∷ 45 ∷ 99 ∷ 114 ∷ 101 ∷ 100 ∷ 101 ∷ 110 ∷ 116 ∷ 105 ∷ 97 ∷ 108
      ∷ 45 ∷ 102 ∷ 97 ∷ 108 ∷ 108 ∷ 98 ∷ 97 ∷ 99 ∷ 107 ∷ []

  unfoldable pub build_dummy : Option (List ℕ) → Option (List ℕ) → List ℕ
  unfolding hash
  build_dummy material random = elim (hash random (dummy_seed material)) [
    | none ↦ []
    | some stored ↦ stored
  ]

  -- `gDummyCredential` is `none` until the first call. What is computed only for its time is left
  -- out: it changes nothing.
  unfoldable pub verify_dummy :
      Option (List ℕ) → Option (List ℕ) → Option (List ℕ) → List ℕ → Bool × Option (List ℕ)
  unfolding build_dummy
  verify_dummy material random (some dummy) password = (false, some dummy)
  verify_dummy material random none password = (false, some (build_dummy material random))
