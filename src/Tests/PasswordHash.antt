-- ===== src/Tests/PasswordHash.antt =====
-- A hash that is the length of the password, 32 times, and passwords under it.
use russia_tetris.Base.{
  ℕ, zero, suc, ◌%◌, ◌<◌, ◌≡◌, ◌↔◌, refl, List, [], ◌∷◌, true, false, if◌then◌else◌, some, length,
  replicate, same_text, same_text_self, same_text_eq, arith, Bool-cases, inl, inr,
}
use russia_tetris.PasswordHash.{
  ParsedCredential, iterations_now, hash_bytes, parse_credential, write_credential,
}
use russia_tetris.PasswordHash.Hex.RoundTrip.{Bytes, empty, byte}
use russia_tetris.PasswordHash.Parsed.{ValidCredential, valid, parse_credential-written}
use russia_tetris.PasswordHash.Verify.{Crypto, accepted_with, derive, verify, hash}
use russia_tetris.PasswordHash.Decides.{Lawful, Accepts, verify_iff}
use russia_tetris.PasswordHash.Hashed.{hash-verifies, written_now}

abbrev pub toy : Crypto
toy = record {
  pbkdf2 = λ p s n m. some (replicate m (length p % 256));
  memcmp = λ a b n. if same_text a b then 0 else 1;
}

length-replicate : (m b : ℕ) → length (replicate m b) ≡ m
length-replicate zero b = refl
length-replicate (suc m) b = omega (arith, length-replicate m b)

replicate-Bytes : (m b : ℕ) → b < 256 → Bytes (replicate m b)
replicate-Bytes zero b h = empty
replicate-Bytes (suc m) b h = byte h (replicate-Bytes m b h)

filled : {b m : ℕ} {d : List ℕ} → b < 256 → some (replicate m b) ≡ some d → (length d ≡ m) × Bytes d
filled {b} {m} {d} h e =
    let eq : replicate m b ≡ d = cc in rw (← eq) (length-replicate m b, replicate-Bytes m b h)

compared : (a b : List ℕ) → ((if◌then◌else◌ {A = ℕ} (same_text a b) 0 1) ≡ 0) ↔ (a ≡ b)
compared a b = elim (Bool-cases (same_text a b)) [
  | inl e ↦ rw e ((λ h. same_text_eq a b e), λ h. refl)
  | inr e ↦ rw e (
    (λ h. absurd (omega arith)),
    λ h. let t : same_text a b ≡ true = rw h (same_text_self b) in cc,
  )
]

toy-Lawful : Lawful toy
toy-Lawful = record {
  fills = λ {p} {s} {n} {m} {d} h. filled (omega arith) h;
  compares = λ a b e. compared a b;
}

abbrev pass : List ℕ
pass = 116 ∷ 101 ∷ 116 ∷ 114 ∷ 105 ∷ 115 ∷ 33 ∷ 49 ∷ []

abbrev salt : List ℕ
salt = replicate 16 171

abbrev credential : ParsedCredential
credential = record { iterations = 90000; salt = replicate 8 254; digest = replicate 32 8 }

verify_iff_example : (verify toy pass pass ≡ accepted_with true) ↔ Accepts toy pass pass true
verify_iff_example = verify_iff toy toy-Lawful pass pass true

hashed : hash toy (some salt) pass ≡ some (write_credential (written_now salt (replicate 32 8)))
unfolding hash derive
hashed = refl

hash-verifies_example :
    (verify toy pass (write_credential (written_now salt (replicate 32 8))) ≡ accepted_with false)
    × ((verify toy (33 ∷ pass) (write_credential (written_now salt (replicate 32 8)))
          ≡ accepted_with false)
        ↔ (derive toy (33 ∷ pass) salt iterations_now hash_bytes
            ≡ derive toy pass salt iterations_now hash_bytes))
hash-verifies_example =
    hash-verifies toy toy-Lawful pass (33 ∷ pass) salt
      (write_credential (written_now salt (replicate 32 8))) (replicate-Bytes 16 171 (omega arith))
      refl hashed

credential-Valid : ValidCredential credential
credential-Valid =
    valid (omega arith) (omega arith) (replicate-Bytes 8 254 (omega arith)) (omega arith)
      (omega arith) (replicate-Bytes 32 8 (omega arith)) refl

parse_credential-written_example : parse_credential (write_credential credential) ≡ some credential
parse_credential-written_example = parse_credential-written credential credential-Valid
