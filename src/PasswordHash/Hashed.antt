-- ===== src/PasswordHash/Hashed.antt =====
-- What `hash` writes, under `verify`.
use russia_tetris.Base.{
  ℕ, ◌≡◌, ◌↔◌, sym, List, false, ◌||◌, ltb, Option, none, some, length, ◌>>=◌, arith, Bool-cases,
  Option-cases, inl, inr,
}
use russia_tetris.PasswordHash.{
  ParsedCredential, iterations_now, hash_bytes, parse_credential, write_credential,
}
use russia_tetris.PasswordHash.Hex.RoundTrip.{Bytes}
use russia_tetris.PasswordHash.Parsed.{valid, parse_credential-written}
use russia_tetris.PasswordHash.Verify.{Crypto, accepted_with, outdated, derive, verify, hash}
use russia_tetris.PasswordHash.Decides.{Lawful, verify_digest_iff}

abbrev pub written_now : List ℕ → List ℕ → ParsedCredential
written_now salt d = record { iterations = iterations_now; salt = salt; digest = d }

module _ (crypto : Crypto) (laws : Lawful crypto) where
  derive-lawful :
      (p s : List ℕ) (n m : ℕ) (d : List ℕ)
      → derive crypto p s n m ≡ some d
      → (length d ≡ m) × Bytes d
  unfolding derive
  derive-lawful p s n m d h =
      elim (Bool-cases (ltb 4096 (length p) || ltb 256 (length s) || ltb 256 m)) [
        | inl e ↦ cc
        | inr e ↦ laws.fills (rw e at h)
      ]

  written-parsed :
      (salt d p : List ℕ)
      → Bytes salt
      → length salt ≡ 16
      → derive crypto p salt iterations_now hash_bytes ≡ some d
      → parse_credential (write_credential (written_now salt d)) ≡ some (written_now salt d)
  written-parsed salt d p sb size eq =
      let (d32, db) = derive-lawful p salt iterations_now hash_bytes d eq in
      parse_credential-written (written_now salt d)
        (valid (omega arith) (omega arith) sb (omega arith) (omega arith) db d32)

  verify_written :
      (salt d p q : List ℕ)
      → Bytes salt
      → length salt ≡ 16
      → derive crypto p salt iterations_now hash_bytes ≡ some d
      → (verify crypto q (write_credential (written_now salt d)) ≡ accepted_with false)
        ↔ (derive crypto q salt iterations_now hash_bytes ≡ some d)
  unfolding verify
  verify_written salt d p q sb size eq =
      let fresh : outdated (written_now salt d) ≡ false = ground arith in
      let (d32, db) = derive-lawful p salt iterations_now hash_bytes d eq in
      let both = verify_digest_iff crypto laws q (written_now salt d) false d32 in
      rw (written-parsed salt d p sb size eq, verify)
        ((λ h. (both.0 h).0), λ h. both.1 (h, sym fresh))

  -- The text that `hash` writes with a salt of 16 random bytes accepts the password, needs no new
  -- hashing, and accepts another password exactly when PBKDF2 gives both the same digest.
  pub hash-verifies :
      (p q salt stored : List ℕ)
      → Bytes salt
      → length salt ≡ 16
      → hash crypto (some salt) p ≡ some stored
      → (verify crypto p stored ≡ accepted_with false)
        × ((verify crypto q stored ≡ accepted_with false) ↔ (
            derive crypto q salt iterations_now hash_bytes
            ≡ derive crypto p salt iterations_now hash_bytes))
  unfolding hash
  hash-verifies p q salt stored sb size h =
      elim (Option-cases (derive crypto p salt iterations_now hash_bytes)) [
        | inl e ↦ let h' : Path (Option (List ℕ)) none (some stored) = rw (e, ◌>>=◌) at h in cc
        | inr (d, eq) ↦
            let h' : some (write_credential (written_now salt d)) ≡ some stored =
              rw (eq, ◌>>=◌) at h in
            let s : write_credential (written_now salt d) ≡ stored = cc in
            rw (← s, eq)
              ((verify_written salt d p p sb size eq).1 eq, verify_written salt d p q sb size eq)
      ]
