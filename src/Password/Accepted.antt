-- ===== src/Password/Accepted.antt =====
-- What an accepted password is made of.
use russia_tetris.Base.{
  ℕ, ◌+◌, ◌≤◌, ◌≡◌, ◌≢◌, ◌↔◌, inl, inr, List, [], ◌∷◌, ◌++◌, length, true, false, Bool-cases, arith,
  ◌||◌, ◌==◌,
}
use russia_tetris.Password.{utf8_length, is_blank, check}

-- A byte of the password that is neither a space nor a tab.
pub data Visible : List ℕ → Type 0 where
  here : {c : ℕ} {cs : List ℕ} → c ≢ 32 → c ≢ 9 → Visible (c ∷ cs)
  later : {c : ℕ} {cs : List ℕ} → Visible cs → Visible (c ∷ cs)

shown_lem : (p : List ℕ) → Visible p → is_blank p ≡ false
unfolding is_blank
shown_lem [] v = elim v [ ]
shown_lem (c ∷ cs) (here a b) = ground (arith, a, b)
shown_lem (c ∷ cs) (later v) = ground (arith, shown_lem cs v)

find_shown : (p : List ℕ) → is_blank p ≡ false → Visible p
unfolding is_blank
find_shown [] h = cc
find_shown (c ∷ cs) h = elim (Bool-cases (c == 32 || c == 9)) [
  | inl blank ↦ later (find_shown cs (ground (arith, blank)))
  | inr shown ↦ here (ground (arith, shown)) (ground (arith, shown))
]

pub utf8_length-append : (p q : List ℕ) → utf8_length (p ++ q) ≡ utf8_length p + utf8_length q
unfolding utf8_length
utf8_length-append [] q = omega arith
utf8_length-append (c ∷ cs) q = ground (arith, utf8_length-append cs q)

utf8_length-le : (p : List ℕ) → utf8_length p ≤ length p
unfolding utf8_length
utf8_length-le [] = omega arith
utf8_length-le (c ∷ cs) = ground (arith, utf8_length-le cs)

-- A password is accepted exactly when it has eight code points at least, and a byte that is neither a space
-- nor a tab.
pub check_iff : (p : List ℕ) → (check p ≡ true) ↔ ((8 ≤ utf8_length p) × Visible p)
unfolding check
check_iff p =
    ((λ h. (ground arith, find_shown p (ground arith))), λ h. ground (arith, h.0, shown_lem p h.1))

-- An accepted password has eight bytes at least, and stays accepted when more is written after it.
pub check-append : (p q : List ℕ) → check p ≡ true → (8 ≤ length p) × (check (p ++ q) ≡ true)
check-append p q h =
    let (long, shown) = (check_iff p).0 h in
    (
      omega (arith, long, utf8_length-le p),
      (check_iff (p ++ q)).1
          (omega (arith, long, utf8_length-append p q), Visible-append p q shown),
    )
  where
    Visible-append : (a b : List ℕ) → Visible a → Visible (a ++ b)
    Visible-append [] b v = elim v [ ]
    Visible-append (c ∷ cs) b (here x y) = here x y
    Visible-append (c ∷ cs) b (later v) = later (Visible-append cs b v)
