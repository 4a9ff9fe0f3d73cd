-- ===== src/PasswordHash/Decides.antt =====
-- Which passwords a stored text accepts.
use russia_tetris.Base.{
  ℕ, suc, ◌≡◌, ◌≢◌, ◌↔◌, refl, List, [], ◌∷◌, ◌∙◌, ap, sym, Bool, true, false, ◌||◌, ltb, ◌==◌,
  Option, none, some, length, arith, same_text, drop, Bool-cases, Option-cases, inl, inr, ==_iff,
}
use russia_tetris.PasswordHash.{
  ParsedCredential, hash_bytes, is_hashed, parse_credential, algo_tag, read_parts, check_sizes,
  read_fields, read_iterations, split,
}
use russia_tetris.PasswordHash.Hex.{from_hex}
use russia_tetris.PasswordHash.Hex.RoundTrip.{Bytes}
use russia_tetris.PasswordHash.Verify.{
  Crypto, accepted_with, outdated, derive, constant_time_equals, verify_digest, verify_plain,
  verify,
}

-- What OpenSSL documents: PBKDF2 fills the buffer with bytes, and the comparison gives 0 for equal
-- buffers only.
pub record Lawful (crypto : Crypto) : Type 0 where
  pub fills :
      {p s : List ℕ} {n m : ℕ} {d : List ℕ}
      → crypto.pbkdf2 p s n m ≡ some d
      → (length d ≡ m) × Bytes d
  pub compares : (a b : List ℕ) → length a ≡ length b → (crypto.memcmp a b (length a) ≡ 0) ↔ (a ≡ b)

check_sizes-digest :
    (n : ℕ) (s h : List ℕ) (c : ParsedCredential)
    → check_sizes n s h ≡ some c
    → length c.digest ≡ 32
unfolding check_sizes
check_sizes-digest n s h c e = ground arith

read_fields-digest :
    (n : Option ℕ) (s h : Option (List ℕ)) (c : ParsedCredential)
    → read_fields n s h ≡ some c
    → length c.digest ≡ 32
unfolding read_fields
read_fields-digest none s h c e = cc
read_fields-digest (some n) none h c e = cc
read_fields-digest (some n) (some s) none c e = cc
read_fields-digest (some n) (some s) (some h) c e = check_sizes-digest n s h c e

read_parts-digest :
    (ps : List (List ℕ)) (c : ParsedCredential) → read_parts ps ≡ some c → length c.digest ≡ 32
unfolding read_parts
read_parts-digest [] c h = cc
read_parts-digest (a ∷ []) c h = cc
read_parts-digest (a ∷ b ∷ []) c h = cc
read_parts-digest (a ∷ b ∷ s ∷ []) c h = cc
read_parts-digest (a ∷ b ∷ s ∷ d ∷ []) c h = elim (Bool-cases (same_text a algo_tag)) [
  | inl e ↦ read_fields-digest (read_iterations b) (from_hex s) (from_hex d) c (rw e at h)
  | inr e ↦ let h' : Path (Option ParsedCredential) none (some c) = rw e at h in cc
]
read_parts-digest (a ∷ b ∷ s ∷ d ∷ e ∷ rest) c h = cc

parse_credential-digest :
    (stored : List ℕ) (c : ParsedCredential)
    → parse_credential stored ≡ some c
    → length c.digest ≡ 32
unfolding parse_credential
parse_credential-digest stored c h = elim (Bool-cases (is_hashed stored)) [
  | inl e ↦ read_parts-digest (split (drop 1 stored)) c (rw e at h)
  | inr e ↦ let h' : Path (Option ParsedCredential) none (some c) = rw e at h in cc
]

parse_credential-hashed :
    (stored : List ℕ) (c : ParsedCredential)
    → parse_credential stored ≡ some c
    → is_hashed stored ≡ true
unfolding parse_credential
parse_credential-hashed stored c h = elim (Bool-cases (is_hashed stored)) [
  | inl e ↦ e
  | inr e ↦ let h' : Path (Option ParsedCredential) none (some c) = rw e at h in cc
]

-- The password and the stored text belong together; the Boolean is whether the text is outdated.
pub data Accepts (crypto : Crypto) (password : List ℕ) : List ℕ → Bool → Type 0 where
  by_digest :
      {stored : List ℕ} {c : ParsedCredential}
      → parse_credential stored ≡ some c
      → derive crypto password c.salt c.iterations hash_bytes ≡ some c.digest
      → Accepts crypto password stored (outdated c)
  by_text :
      {stored : List ℕ}
      → is_hashed stored ≡ false
      → stored ≢ []
      → stored ≡ password
      → Accepts crypto password stored true

module _ (crypto : Crypto) (laws : Lawful crypto) where
  derive-length :
      (p s : List ℕ) (n m : ℕ) (d : List ℕ) → derive crypto p s n m ≡ some d → length d ≡ m
  unfolding derive
  derive-length p s n m d h =
      elim (Bool-cases (ltb 4096 (length p) || ltb 256 (length s) || ltb 256 m)) [
        | inl e ↦ cc
        | inr e ↦ (laws.fills (rw e at h)).0
      ]

  equals_iff :
      (a b : List ℕ) (n : ℕ)
      → length a ≡ n
      → length b ≡ n
      → (constant_time_equals crypto a b n ≡ true) ↔ (a ≡ b)
  unfolding constant_time_equals
  equals_iff a b n ha hb =
      let (to, from) = laws.compares a b (ha ∙ sym hb) in
      ((λ h. to (rw ha ((==_iff _ _).0 h))), λ e. (==_iff _ _).1 (rw (← ha) (from e)))

  pub verify_digest_iff :
      (password : List ℕ) (c : ParsedCredential) (rehash : Bool)
      → length c.digest ≡ 32
      → (verify_digest crypto password c ≡ accepted_with rehash) ↔ (
          (derive crypto password c.salt c.iterations hash_bytes ≡ some c.digest)
          × (rehash ≡ outdated c))
  unfolding verify_digest
  verify_digest_iff password c rehash size =
      elim (Option-cases (derive crypto password c.salt c.iterations hash_bytes)) [
        | inl none_derived ↦ rw none_derived ((λ h. cc), λ h. cc)
        | inr (d, eq) ↦
            let same =
              equals_iff d c.digest 32 (derive-length password c.salt c.iterations 32 d eq) size in
            elim (Bool-cases (constant_time_equals crypto d c.digest 32)) [
              | inl equal ↦
                  rw (eq, equal, verify_digest) ((λ h. (ap some (same.0 equal), cc)), λ h. cc)
              | inr differ ↦
                  rw (eq, differ, verify_digest)
                    ((λ h. cc), λ h. let e : d ≡ c.digest = cc in let t = same.1 e in cc)
            ]
      ]

  verify_plain_iff :
      (password stored : List ℕ) (rehash : Bool)
      → (verify_plain crypto password stored ≡ accepted_with rehash)
        ↔ ((stored ≢ []) × (stored ≡ password) × (rehash ≡ true))
  unfolding verify_plain
  verify_plain_iff password [] rehash = ((λ h. cc), λ h. absurd (h.0 refl))
  verify_plain_iff password (c ∷ cs) rehash =
      let n = suc (length cs) in
      let nz : (n == 0) ≡ false = ground arith in
      elim (Bool-cases (length (c ∷ cs) == length password)) [
        | inl size ↦
            let same =
              equals_iff (c ∷ cs) password (length (c ∷ cs)) refl
                (sym ((==_iff (length (c ∷ cs)) (length password)).0 size)) in
            elim (Bool-cases (constant_time_equals crypto (c ∷ cs) password (length (c ∷ cs)))) [
              | inl equal ↦
                  rw (nz, size, equal)
                    ((λ h. ((λ e. cc), same.0 equal, cc)), λ h. let e = h.2 in cc)
              | inr differ ↦ rw (nz, size, differ) ((λ h. cc), λ h. let t = same.1 h.1 in cc)
            ]
        | inr size ↦
            rw (nz, size)
              (
                (λ h. cc),
                λ h.
                    let e : length (c ∷ cs) ≡ length password = ap length h.1 in
                    let t = (==_iff (length (c ∷ cs)) (length password)).1 e in cc,
              )
      ]

  no_digest :
      {password stored : List ℕ} {rehash : Bool}
      → Accepts crypto password stored rehash
      → parse_credential stored ≡ none
      → ¬ (is_hashed stored ≡ true)
  no_digest (by_digest p d) u h = cc
  no_digest (by_text n e s) u h = cc

  by_text_of :
      {password stored : List ℕ} {rehash : Bool}
      → is_hashed stored ≡ false
      → (stored ≢ []) × (stored ≡ password) × (rehash ≡ true)
      → Accepts crypto password stored rehash
  by_text_of plain (nonempty, same, old) = rw old (by_text plain nonempty same)

  text_of :
      {password stored : List ℕ} {rehash : Bool}
      → parse_credential stored ≡ none
      → Accepts crypto password stored rehash
      → (stored ≢ []) × (stored ≡ password) × (rehash ≡ true)
  text_of u (by_digest p d) = cc
  text_of u (by_text n e s) = (e, s, refl)

  by_digest_of :
      {password stored : List ℕ} {c : ParsedCredential} {rehash : Bool}
      → parse_credential stored ≡ some c
      → (derive crypto password c.salt c.iterations hash_bytes ≡ some c.digest)
        × (rehash ≡ outdated c)
      → Accepts crypto password stored rehash
  by_digest_of parsed (derived, eq) = rw eq (by_digest parsed derived)

  digest_of :
      {password stored : List ℕ} {c : ParsedCredential} {rehash : Bool}
      → parse_credential stored ≡ some c
      → Accepts crypto password stored rehash
      → (derive crypto password c.salt c.iterations hash_bytes ≡ some c.digest)
        × (rehash ≡ outdated c)
  digest_of {stored} {c} parsed (by_digest {c = c'} p d) =
      let both : some c' ≡ some c = sym p ∙ parsed in let e : c' ≡ c = cc in rw (← e) (d, refl)
  digest_of {stored} {c} parsed (by_text n e s) =
      let y = parse_credential-hashed stored c parsed in cc

  -- A stored text accepts a password exactly when it has the format of `hash` and PBKDF2 gives its
  -- digest from the password, the salt and the iterations, or when it does not start like one, is
  -- not empty and is the password. It is to be hashed again exactly when it is such a plain text,
  -- or its iterations or the size of its salt are not the present ones.
  pub verify_iff :
      (password stored : List ℕ) (rehash : Bool)
      → (verify crypto password stored ≡ accepted_with rehash)
        ↔ Accepts crypto password stored rehash
  unfolding verify
  verify_iff password stored rehash = elim (Option-cases (parse_credential stored)) [
    | inl unparsed ↦ elim (Bool-cases (is_hashed stored)) [
      | inl prefixed ↦
          rw (unparsed, verify, prefixed) ((λ h. cc), λ h. absurd (no_digest h unparsed prefixed))
      | inr plain ↦
          rw (unparsed, verify, plain)
            (
              (λ h. by_text_of plain ((verify_plain_iff password stored rehash).0 h)),
              λ h. (verify_plain_iff password stored rehash).1 (text_of unparsed h),
            )
    ]
    | inr (c, eq) ↦
        let size = parse_credential-digest stored c eq in
        rw (eq, verify)
          (
            (λ h. by_digest_of eq ((verify_digest_iff password c rehash size).0 h)),
            λ h. (verify_digest_iff password c rehash size).1 (digest_of eq h),
          )
  ]
