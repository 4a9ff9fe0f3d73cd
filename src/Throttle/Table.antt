-- ===== src/Throttle/Table.antt =====
-- `std::unordered_map` as the throttles use it: a list of keys and values.
use russia_tetris.Base.{
  ◌≤◌, ◌<◌, ◌≡◌, ◌≢◌, refl, sym, ap, ◌∙◌, ◌↔◌, inl, inr, List, [], ◌∷◌, length, Bool, true, false,
  Bool-cases, if◌then◌else◌, Option, none, some, arith,
}

-- A test of equality on the keys.
pub record Key (K : Type 0) : Type 0 where
  pub same : K → K → Bool
  pub same_iff : (a b : K) → (same a b ≡ true) ↔ (a ≡ b)

-- A value that `gone` does not accept.
unfoldable pub kept : {V : Type 0} → (V → Bool) → Option V → Option V
kept gone none = none
kept gone (some v) = if gone v then none else some v

module _ {V : Type 0} (gone : V → Bool) where
  pub kept_gone : (v : V) → gone v ≡ true → kept gone (some v) ≡ none
  unfolding kept
  kept_gone v e = rw e refl

  pub kept_stays : (v : V) → gone v ≡ false → kept gone (some v) ≡ some v
  unfolding kept
  kept_stays v e = rw e refl

  pub kept_some : (o : Option V) (t : V) → kept gone o ≡ some t → o ≡ some t
  unfolding kept
  kept_some none t e = e
  kept_some (some u) t e = elim (Bool-cases (gone u)) [
    | inl g ↦ absurd (clash (sym (kept_gone u g) ∙ e))
    | inr g ↦ sym (kept_stays u g) ∙ e
  ]
    where
      clash : ◌≢◌ {A = Option V} none (some t)
      clash h = ground arith

module _ {K : Type 0} (key : Key K) where
  pub differs : (a b : K) → key.same a b ≡ false → a ≢ b
  differs a b e same = cc ((key.same_iff a b).1 same)

  differs_same : (a b : K) → a ≢ b → key.same a b ≡ false
  differs_same a b ne = elim (Bool-cases (key.same a b)) [
    | inl e ↦ absurd (ne ((key.same_iff a b).0 e))
    | inr e ↦ e
  ]

module _ {K V : Type 0} (key : Key K) where
  unfoldable pub find : K → List (K × V) → Option V
  find k [] = none
  find k (x ∷ xs) = let rest = find k xs in if key.same k x.0 then some x.1 else rest

  unfoldable pub erase : K → List (K × V) → List (K × V)
  erase k [] = []
  erase k (x ∷ xs) = let rest = erase k xs in if key.same k x.0 then rest else x ∷ rest

  -- The entry of a key, made when it is missing, gets a value.
  unfoldable pub put : K → V → List (K × V) → List (K × V)
  unfolding erase
  put k v xs = (k, v) ∷ erase k xs

  -- The loop that erases every entry whose value `gone` accepts.
  unfoldable pub erase_if : (V → Bool) → List (K × V) → List (K × V)
  erase_if gone [] = []
  erase_if gone (x ∷ xs) = let rest = erase_if gone xs in if gone x.1 then rest else x ∷ rest

  -- No key has two entries.
  pub data Unique : List (K × V) → Type 0 where
    nothing : Unique []
    more : {x : K × V} {xs : List (K × V)} → find x.0 xs ≡ none → Unique xs → Unique (x ∷ xs)

  pub find-erase : (k : K) (xs : List (K × V)) → find k (erase k xs) ≡ none
  unfolding find erase
  find-erase k [] = refl
  find-erase k (x ∷ xs) = elim (Bool-cases (key.same k x.0)) [
    | inl e ↦ rw (e, erase) (find-erase k xs)
    | inr e ↦ rw (e, erase) (rw (e, find) (find-erase k xs))
  ]

  pub find-erase_other : (k l : K) (xs : List (K × V)) → k ≢ l → find k (erase l xs) ≡ find k xs
  unfolding find erase
  find-erase_other k l [] ne = refl
  find-erase_other k l (x ∷ xs) ne = elim (Bool-cases (key.same l x.0)) [
    | inl e ↦
        let other : key.same k x.0 ≡ false =
          differs_same key k x.0 (λ same. ne (same ∙ sym ((key.same_iff l x.0).0 e))) in
        rw (e, erase) (rw (other, find) (find-erase_other k l xs ne))
    | inr e ↦ elim (Bool-cases (key.same k x.0)) [
      | inl f ↦ rw (e, erase) (rw (f, find) refl)
      | inr f ↦ rw (e, erase) (rw (f, find) (find-erase_other k l xs ne))
    ]
  ]

  pub find-put : (k : K) (v : V) (xs : List (K × V)) → find k (put k v xs) ≡ some v
  unfolding find put
  find-put k v xs = rw ((key.same_iff k k).1 refl, find) refl

  pub find-put_other :
      (k l : K) (v : V) (xs : List (K × V)) → k ≢ l → find k (put l v xs) ≡ find k xs
  unfolding find put
  find-put_other k l v xs ne = rw (differs_same key k l ne, find) (find-erase_other k l xs ne)

  pub length-erase : (k : K) (xs : List (K × V)) → length (erase k xs) ≤ length xs
  unfolding erase
  length-erase k [] = omega arith
  length-erase k (x ∷ xs) = ground (arith, length-erase k xs)

  -- An entry that is there goes.
  pub length-erase_found :
      (k : K) (v : V) (xs : List (K × V)) → find k xs ≡ some v → length (erase k xs) < length xs
  unfolding erase find
  length-erase_found k v [] h = absurd (ground arith)
  length-erase_found k v (x ∷ xs) h = elim (Bool-cases (key.same k x.0)) [
    | inl e ↦ rw (e, erase) (omega (arith, length-erase k xs))
    | inr e ↦ rw (e, erase) (omega (arith, length-erase_found k v xs (rw (e, find) at h)))
  ]

  pub length-erase_if :
      (gone : V → Bool) (xs : List (K × V)) → length (erase_if gone xs) ≤ length xs
  unfolding erase_if
  length-erase_if gone [] = omega arith
  length-erase_if gone (x ∷ xs) = ground (arith, length-erase_if gone xs)

  pub find-erase_if :
      (gone : V → Bool) (k : K) (xs : List (K × V))
      → Unique xs
      → find k (erase_if gone xs) ≡ kept gone (find k xs)
  unfolding find erase_if kept
  find-erase_if gone k [] u = refl
  find-erase_if gone k (x ∷ xs) (more fresh u) =
      let ih = find-erase_if gone k xs u in
      elim (Bool-cases (gone x.1)) [
        | inl g ↦ elim (Bool-cases (key.same k x.0)) [
          | inl e ↦
              let same : k ≡ x.0 = (key.same_iff k x.0).0 e in
              let absent : find k xs ≡ none = rw same fresh in
              rw (g, erase_if)
                (rw (e, find) (ih ∙ ap (kept gone) absent ∙ sym (kept_gone gone x.1 g)))
          | inr e ↦ rw (g, erase_if) (rw (e, find) ih)
        ]
        | inr g ↦ elim (Bool-cases (key.same k x.0)) [
          | inl e ↦ rw (g, erase_if) (rw (e, find) (sym (kept_stays gone x.1 g)))
          | inr e ↦ rw (g, erase_if) (rw (e, find) ih)
        ]
      ]

  pub Unique-erase : (k : K) (xs : List (K × V)) → Unique xs → Unique (erase k xs)
  unfolding erase
  Unique-erase k [] u = u
  Unique-erase k (x ∷ xs) (more fresh u) = elim (Bool-cases (key.same k x.0)) [
    | inl e ↦ rw (e, erase) (Unique-erase k xs u)
    | inr e ↦
        rw (e, erase)
          (more (find-erase_other x.0 k xs (λ s. differs key k x.0 e (sym s)) ∙ fresh)
            (Unique-erase k xs u))
  ]

  pub Unique-put : (k : K) (v : V) (xs : List (K × V)) → Unique xs → Unique (put k v xs)
  unfolding put
  Unique-put k v xs u = more (find-erase k xs) (Unique-erase k xs u)

  pub Unique-erase_if :
      (gone : V → Bool) (xs : List (K × V)) → Unique xs → Unique (erase_if gone xs)
  unfolding erase_if kept
  Unique-erase_if gone [] u = u
  Unique-erase_if gone (x ∷ xs) (more fresh u) = elim (Bool-cases (gone x.1)) [
    | inl g ↦ rw (g, erase_if) (Unique-erase_if gone xs u)
    | inr g ↦
        rw (g, erase_if)
          (more (find-erase_if gone x.0 xs u ∙ ap (kept gone) fresh) (Unique-erase_if gone xs u))
  ]

  pub length-erase_if_found :
      (gone : V → Bool) (k : K) (v : V) (xs : List (K × V))
      → find k xs ≡ some v
      → gone v ≡ true
      → length (erase_if gone xs) < length xs
  unfolding find erase_if
  length-erase_if_found gone k v [] h g = absurd (ground arith)
  length-erase_if_found gone k v (x ∷ xs) h g = elim (Bool-cases (key.same k x.0)) [
    | inl e ↦
        let here : x.1 ≡ v = some_inj (rw (e, find) at h) in
        rw (ap gone here ∙ g, erase_if) (omega (arith, length-erase_if gone xs))
    | inr e ↦ let ih = length-erase_if_found gone k v xs (rw (e, find) at h) g in ground (arith, ih)
  ]
    where
      some_inj : {a b : V} → some a ≡ some b → a ≡ b
      some_inj e = ground arith
