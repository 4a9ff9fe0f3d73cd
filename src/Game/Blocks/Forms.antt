-- ===== src/Game/Blocks/Forms.antt =====
-- What `InitBlockInfo` (src/TetrisGame/Game.cpp) puts into the table, for all 28 forms.
use russia_tetris.Base.{
  ℕ, zero, suc, ◌+◌, ◌-◌, ◌/◌, ◌%◌, ◌<◌, ◌≡◌, refl, ap, ◌⊎◌, Bool, true, false, ◌||◌, Option, none,
  some, ◌==◌, each_below, each_below_sound, ==_iff, arith,
}
use russia_tetris.Game.Blocks.{init_block_info, block_defines, space, get_or_zero}

same : Option ℕ → Option ℕ → Bool
same none none = true
same (some a) (some b) = a == b
same none (some b) = false
same (some a) none = false

same_sound : (a b : Option ℕ) → same a b ≡ true → a ≡ b
unfolding same
same_sound none none h = refl
same_sound (some a) (some b) h = ap some ((==_iff a b).0 h)
same_sound none (some b) h = cc
same_sound (some a) none h = cc

-- A test of every cell of every form.
every_cell : (ℕ → ℕ → ℕ → ℕ → Bool) → Bool
every_cell p =
    each_below 7 λ shape. each_below 4 λ form. each_below 4 λ i. each_below 4 λ j. p shape form i j

every_cell_sound :
    (p : ℕ → ℕ → ℕ → ℕ → Bool) (shape form i j : ℕ)
    → every_cell p ≡ true
    → shape < 7
    → form < 4
    → i < 4
    → j < 4
    → p shape form i j ≡ true
unfolding every_cell
every_cell_sound p shape form i j h hs hf hi hj =
    each_below_sound 4 _ j
      (each_below_sound 4 _ i (each_below_sound 4 _ form (each_below_sound 7 _ shape h hs) hf) hi)
      hj

-- A cell of a form is there, and is 0 or 1.
is_bit : Option ℕ → Bool
is_bit none = false
is_bit (some v) = v == 0 || v == 1

is_bit_sound : (o : Option ℕ) → is_bit o ≡ true → (o ≡ some 0) ⊎ (o ≡ some 1)
unfolding is_bit
is_bit_sound none h = cc
is_bit_sound (some v) h = ground arith

bits_table : every_cell (λ s f a b. is_bit (space s f a b)) ≡ true
unfolding every_cell is_bit space each_below
bits_table = refl

pub space_cases :
    (shape form i j : ℕ)
    → shape < 7
    → form < 4
    → i < 4
    → j < 4
    → (space shape form i j ≡ some 0) ⊎ (space shape form i j ≡ some 1)
space_cases shape form i j hs hf hi hj =
    is_bit_sound _
      (every_cell_sound (λ s f a b. is_bit (space s f a b)) shape form i j bits_table hs hf hi hj)

turned_table : every_cell (λ s f a b. same (space s ((f + 1) % 4) a b) (space s f (3 - b) a)) ≡ true
unfolding every_cell same space each_below
turned_table = refl

-- The four forms of a shape are quarter turns of one another, and the fourth turns into the first:
-- turning by `form + 1` modulo 4, as the rotation key does, moves each cell clockwise.
pub space_turned :
    (shape form i j : ℕ)
    → shape < 7
    → form < 4
    → i < 4
    → j < 4
    → space shape ((form + 1) % 4) i j ≡ space shape form (3 - j) i
space_turned shape form i j hs hf hi hj = same_sound _ _ (
    every_cell_sound (λ s f a b. same (space s ((f + 1) % 4) a b) (space s f (3 - b) a)) shape form
      i j turned_table hs hf hi hj)

-- The squares of a form, counted.
pub squares : ℕ → ℕ → ℕ
unfolding get_or_zero
squares shape form = sum 16
  where
    sum : ℕ → ℕ
    sum zero = 0
    sum (suc k) = get_or_zero (space shape form (k / 4) (k % 4)) + sum k

squares_table : each_below 7 (λ s. each_below 4 (λ f. squares s f == 4)) ≡ true
unfolding squares space each_below
squares_table = refl

-- Each form of each shape has four squares, all of them inside the 4 by 4 grid.
pub squares-eq_four : (shape form : ℕ) → shape < 7 → form < 4 → squares shape form ≡ 4
squares-eq_four shape form hs hf = (==_iff _ 4).0 (
    each_below_sound 4 (λ f. squares shape f == 4) form
      (each_below_sound 7 (λ s. each_below 4 (λ f. squares s f == 4)) shape squares_table hs) hf)

-- Every game runs `InitBlockInfo` again on the table that all connections share: this changes
-- nothing.
init_block_info_again : init_block_info block_defines ≡ block_defines
unfolding block_defines
init_block_info_again = refl
