-- ===== src/Connections/Places.antt =====
-- The places of an object, in the pool and in the table of connections, and how the operations change
-- their number.
use russia_tetris.Base.{
  ℕ, zero, suc, ◌+◌, ◌≤◌, ◌≡◌, refl, ap, ◌∙◌, List, [], ◌∷◌, Bool, true, false, ltb, ◌==◌,
  if◌then◌else◌, length, length-append, drop, Bool-cases, inl, inr, arith, ltb→lt,
}
use russia_tetris.Throttle.Table
use russia_tetris.Throttle.Ip.{address_key}
use russia_tetris.Filedata.Answers.{count, count-append, one}
use russia_tetris.Connections.{Registry, release, release_when, release_ended, sweep, max_pool_size}

-- The places that hold the object `i`.
abbrev pub of_entry : ℕ → ℕ × ℕ → ℕ
of_entry i x = one i x.1

unfoldable pub places : ℕ → Registry → ℕ
places i r = count (one i) r.pool + count (of_entry i) r.users

pub count-erase :
    (i fd : ℕ) (xs : List (ℕ × ℕ))
    → count (of_entry i) (Table.erase address_key fd xs) ≤ count (of_entry i) xs
unfolding count Table.erase
count-erase i fd [] = omega arith
count-erase i fd (x ∷ xs) = elim (Bool-cases (fd == x.0)) [
  | inl e ↦ rw (e, Table.erase) (omega (arith, count-erase i fd xs))
  | inr e ↦ rw (e, Table.erase) (omega (arith, count-erase i fd xs))
]

pub count-put :
    (i fd o : ℕ) (xs : List (ℕ × ℕ))
    → count (of_entry i) (Table.put address_key fd o xs) ≤ one i o + count (of_entry i) xs
unfolding count Table.put
count-put i fd o xs = omega (arith, count-erase i fd xs)

pub count-drop : (i n : ℕ) (xs : List ℕ) → count (one i) (drop n xs) ≤ count (one i) xs
unfolding count
count-drop i zero xs = omega arith
count-drop i (suc n) [] = omega arith
count-drop i (suc n) (x ∷ xs) = omega (arith, count-drop i n xs)

pub release-places : (i o : ℕ) (r : Registry) → places i (release o r) ≤ one i o + places i r
unfolding places release count
release-places i o r = elim (Bool-cases (ltb (length r.pool) max_pool_size)) [
  | inl e ↦ rw (e, release) (omega (arith, count-append (one i) r.pool (o ∷ [])))
  | inr e ↦ rw (e, release) (omega arith)
]

pub release-created : (o : ℕ) (r : Registry) → (release o r).created ≡ r.created
unfolding release
release-created o r = elim (Bool-cases (ltb (length r.pool) max_pool_size)) [
  | inl e ↦ rw (e, release) refl
  | inr e ↦ rw (e, release) refl
]

pub release-users : (o : ℕ) (r : Registry) → (release o r).users ≡ r.users
unfolding release
release-users o r = elim (Bool-cases (ltb (length r.pool) max_pool_size)) [
  | inl e ↦ rw (e, release) refl
  | inr e ↦ rw (e, release) refl
]

pub release-bounded :
    (o : ℕ) (r : Registry)
    → length r.pool ≤ max_pool_size
    → length (release o r).pool ≤ max_pool_size
unfolding release
release-bounded o r le = elim (Bool-cases (ltb (length r.pool) max_pool_size)) [
  | inl e ↦
      rw (e, release)
        (omega (arith, length-append r.pool (o ∷ []), ltb→lt (length r.pool) max_pool_size e))
  | inr e ↦ rw (e, release) le
]

-- The places of the entries that a sweep releases.
unfoldable pub of_ended : (ℕ → Bool) → ℕ → ℕ × ℕ → ℕ
of_ended ended i x = if ended x.1 then one i x.1 else 0

pub release_when-places :
    (b : Bool) (i o : ℕ) (r : Registry)
    → places i (release_when b o r) ≤ (if b then one i o else 0) + places i r
unfolding release_when
release_when-places true i o r = release-places i o r
release_when-places false i o r = omega arith

pub release_ended-places :
    (ended : ℕ → Bool) (i : ℕ) (xs : List (ℕ × ℕ)) (r : Registry)
    → places i (release_ended ended xs r) ≤ count (of_ended ended i) xs + places i r
unfolding release_ended count of_ended
release_ended-places ended i [] r = omega arith
release_ended-places ended i (x ∷ xs) r = omega (
  arith,
  release_ended-places ended i xs (release_when (ended x.1) x.1 r),
  release_when-places (ended x.1) i x.1 r,
)

-- What a release leaves as it is.
pub record Kept (r r' : Registry) : Type 0 where
  pub same_users : r'.users ≡ r.users
  pub same_created : r'.created ≡ r.created
  pub pool_bounded : length r.pool ≤ max_pool_size → length r'.pool ≤ max_pool_size

pub release_when-Kept : (b : Bool) (o : ℕ) (r : Registry) → Kept r (release_when b o r)
unfolding release_when
release_when-Kept true o r = record {
  same_users = release-users o r;
  same_created = release-created o r;
  pool_bounded = release-bounded o r;
}
release_when-Kept false o r = record {
  same_users = refl;
  same_created = refl;
  pool_bounded = λ le. le;
}

pub Kept-trans : {r r' r'' : Registry} → Kept r r' → Kept r' r'' → Kept r r''
Kept-trans now later = record {
  same_users = later.same_users ∙ now.same_users;
  same_created = later.same_created ∙ now.same_created;
  pool_bounded = λ le. later.pool_bounded (now.pool_bounded le);
}

pub release_ended-Kept :
    (ended : ℕ → Bool) (xs : List (ℕ × ℕ)) (r : Registry) → Kept r (release_ended ended xs r)
unfolding release_ended
release_ended-Kept ended [] r = record {
  same_users = refl;
  same_created = refl;
  pool_bounded = λ le. le;
}
release_ended-Kept ended (x ∷ xs) r =
    Kept-trans (release_when-Kept (ended x.1) x.1 r)
      (release_ended-Kept ended xs (release_when (ended x.1) x.1 r))

pub count-erase_if :
    (ended : ℕ → Bool) (i : ℕ) (xs : List (ℕ × ℕ))
    → count (of_ended ended i) xs + count (of_entry i) (Table.erase_if address_key ended xs)
      ≡ count (of_entry i) xs
unfolding count Table.erase_if of_ended
count-erase_if ended i [] = refl
count-erase_if ended i (x ∷ xs) = elim (Bool-cases (ended x.1)) [
  | inl e ↦ rw (e, Table.erase_if) (omega (arith, count-erase_if ended i xs))
  | inr e ↦ rw (e, Table.erase_if) (omega (arith, count-erase_if ended i xs))
]

pub sweep-places : (ended : ℕ → Bool) (i : ℕ) (r : Registry) → places i (sweep ended r) ≤ places i r
unfolding places sweep
sweep-places ended i r =
    let k = release_ended-Kept ended r.users r in
    omega (
      arith,
      release_ended-places ended i r.users r,
      ap (λ xs. count (of_entry i) xs) k.same_users,
      ap (λ xs. count (of_entry i) (Table.erase_if address_key ended xs)) k.same_users,
      count-erase_if ended i r.users,
    )
