-- ===== src/Game/Lines/Count.antt =====
-- How many blocks the plain pass leaves, and which cells it may write.
use russia_tetris.Base.{ℕ, zero, suc, ◌+◌, ◌*◌, ◌≤◌, ◌<◌, ◌≡◌, ◌≢◌, refl, arith, dec_lt}
use russia_tetris.Game.Lines.Plain.{cols_total, row_total, blank_cols, copied}

-- The blocks in rows 1 to m of the field.
unfoldable pub field_total : ℕ → (ℕ → ℕ → ℕ) → ℕ
field_total zero c = 0
field_total (suc m) c = row_total c (suc m) + field_total m c

cols_total-congr :
    (c d : ℕ → ℕ → ℕ) (i k n j : ℕ)
    → j + n ≡ 19
    → ((b : ℕ) → j ≤ b → b < 19 → c i b ≡ d k b)
    → cols_total n j c i ≡ cols_total n j d k
unfolding cols_total
cols_total-congr c d i k zero j e same = refl
cols_total-congr c d i k (suc n) j e same = omega (
  arith,
  same j (omega arith) (omega arith),
  cols_total-congr c d i k n (j + 1) (omega arith) (λ b lo hi. same b (omega arith) hi),
)

pub row_total-congr :
    (c d : ℕ → ℕ → ℕ) (i k : ℕ)
    → ((b : ℕ) → 0 < b → b < 19 → c i b ≡ d k b)
    → row_total c i ≡ row_total d k
unfolding row_total
row_total-congr c d i k same = cols_total-congr c d i k 18 1 refl same

cols_total_bound :
    (c : ℕ → ℕ → ℕ) (i n j : ℕ)
    → j + n ≡ 19
    → ((b : ℕ) → j ≤ b → b < 19 → c i b ≤ 1)
    → cols_total n j c i ≤ n
unfolding cols_total
cols_total_bound c i zero j e small = omega arith
cols_total_bound c i (suc n) j e small = omega (
  arith,
  small j (omega arith) (omega arith),
  cols_total_bound c i n (j + 1) (omega arith) (λ b lo hi. small b (omega arith) hi),
)

pub field_total-congr :
    (c d : ℕ → ℕ → ℕ) (m : ℕ)
    → ((k b : ℕ) → k ≤ m → 0 < b → b < 19 → c k b ≡ d k b)
    → field_total m c ≡ field_total m d
unfolding field_total
field_total-congr c d zero same = refl
field_total-congr c d (suc m) same = omega (
  arith,
  row_total-congr c d (suc m) (suc m) (λ b lo hi. same (suc m) b (omega arith) lo hi),
  field_total-congr c d m (λ k b h lo hi. same k b (omega arith) lo hi),
)

-- Rows above m that agree do not matter to how two totals compare.
pub field_total_diff :
    (c d : ℕ → ℕ → ℕ) (m n : ℕ)
    → m ≤ n
    → ((k b : ℕ) → m < k → c k b ≡ d k b)
    → field_total n c + field_total m d ≡ field_total n d + field_total m c
unfolding field_total
field_total_diff c d m zero h same = let e : m ≡ 0 = omega arith in rw e refl
field_total_diff c d m (suc n) h same = elim (dec_lt m (suc n)) [
  | yes lt ↦ omega (
    arith,
    row_total-congr c d (suc n) (suc n) (λ b lo hi. same (suc n) b lt),
    field_total_diff c d m n (omega arith) same,
  )
  | no ge ↦ let e : m ≡ suc n = omega arith in rw e (omega arith)
]

-- A row that is copied or cleared, and the other rows.
module _ (c : ℕ → ℕ → ℕ) where
  pub row_total-copied : (m1 m : ℕ) → row_total (copied c m1 m 19) m ≡ row_total c m1
  unfolding copied
  row_total-copied m1 m = row_total-congr (copied c m1 m 19) c m m1 (λ b lo hi. ground arith)

  pub copied_other : (m1 m k b : ℕ) → k ≢ m → copied c m1 m 19 k b ≡ c k b
  unfolding copied
  copied_other m1 m k b ne = ground arith

  pub row_total-blank : (i : ℕ) → row_total (blank_cols c i 19) i ≡ 0
  unfolding row_total cols_total blank_cols
  row_total-blank i = row_total-congr (blank_cols c i 19) (λ _ _. 0) i i (λ b lo hi. ground arith)

  pub blank_other : (i k b : ℕ) → k ≢ i → blank_cols c i 19 k b ≡ c k b
  unfolding blank_cols
  blank_other i k b ne = ground arith

pub row_total_bound :
    (c : ℕ → ℕ → ℕ) (i : ℕ) → ((b : ℕ) → 0 < b → b < 19 → c i b ≤ 1) → row_total c i ≤ 18
unfolding row_total
row_total_bound c i small = cols_total_bound c i 18 1 refl small

pub field_total-suc :
    (m : ℕ) (c : ℕ → ℕ → ℕ) → field_total (suc m) c ≡ row_total c (suc m) + field_total m c
unfolding field_total
field_total-suc m c = refl

pub field_total_bound :
    (m : ℕ) (c : ℕ → ℕ → ℕ)
    → m < 23
    → ((i j : ℕ) → i < 23 → 0 < j → j < 19 → c i j ≤ 1)
    → field_total m c ≤ 18 * m
unfolding field_total
field_total_bound zero c h small = omega arith
field_total_bound (suc m) c h small = omega (
  arith,
  field_total_bound m c (omega arith) small,
  row_total_bound c (suc m) (λ j. small (suc m) j h),
)
