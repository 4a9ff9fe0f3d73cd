-- ===== src/Game/Board.antt =====
-- The two arrays of `User` (src/TetrisGame/User.cpp), and `Game::IsLegal`.
pub mod Legal
pub mod Cells
pub mod Access
use russia_tetris.Base.{
  ℕ, zero, suc, ◌+◌, ℤ, pos, negsuc, ◌+ℤ◌, ◌-ℤ◌, ltb_ℤ, Bool, true, false, not, ◌&&◌, ◌||◌, ltb,
  ◌==◌, if◌then◌else◌, Option, none, some,
}
use russia_tetris.World.{World, Play, set_play}
use russia_tetris.Effect.{M}
use russia_tetris.Game.Blocks.{space}

-- The element [i][j] of an array of WINDOW_ROW_COUNT by WINDOW_COL_COUNT + 10.
unfoldable pub index : ℤ → ℤ → Option (ℕ × ℕ)
index (pos i) (pos j) = if ltb i 24 && ltb j 30 then some (i, j) else none
index (pos i) (negsuc j) = none
index (negsuc i) (pos j) = none
index (negsuc i) (negsuc j) = none

-- The array with one element written.
unfoldable pub update {ℓ} : {A : Type ℓ} → (ℕ → ℕ → A) → ℕ → ℕ → A → ℕ → ℕ → A
update a i j v i' j' = if i' == i && j' == j then v else a i' j'

unfoldable pub get_data : Play → ℤ → ℤ → Option ℕ
unfolding index
get_data p i j = elim (index i j) [ none ↦ none | some (a, b) ↦ some (p.cells a b) ]

unfoldable pub get_color : Play → ℤ → ℤ → Option ℤ
unfolding index
get_color p i j = elim (index i j) [ none ↦ none | some (a, b) ↦ some (p.colors a b) ]

unfoldable pub set_data : ℤ → ℤ → ℕ → M (Unit {0})
unfolding index
set_data i j v w = elim (index i j) [
  | none ↦ none
  | some (a, b) ↦ some (tt, set_play w (record w.play { cells = update w.cells a b v }))
]

unfoldable pub set_color : ℤ → ℤ → ℤ → M (Unit {0})
unfolding index
set_color i j v w = elim (index i j) [
  | none ↦ none
  | some (a, b) ↦ some (tt, set_play w (record w.play { colors = update w.colors a b v }))
]

-- The cell that square [i][j] of a form at (row, col) covers.
abbrev pub cell_row : ℤ → ℕ → ℤ
cell_row row i = row +ℤ pos i -ℤ pos 1

-- Whether a cell lies outside of rows 0 to WINDOW_ROW_COUNT - 2 and columns 1 to
-- WINDOW_COL_COUNT - 2.
unfoldable pub outside : ℤ → ℤ → Bool
outside r c = ltb_ℤ r (pos 0) || ltb_ℤ (pos 22) r || ltb_ℤ c (pos 1) || ltb_ℤ (pos 18) c

-- One round of the loops of `IsLegal`: `false` is `return false`.
legal_square : Play → ℕ → ℕ → ℤ → ℤ → ℕ → ℕ → Option Bool
unfolding outside get_data
legal_square p shape form row col i j = elim (space shape form i j) [
  | none ↦ none
  | some v ↦
      let r = cell_row row i in
      let c = cell_row col j in
      let taken : Option Bool = elim (get_data p r c) [
        | none ↦ none
        | some d ↦ some (not (d == 1))
      ] in
      if not (v == 1) then some true else if outside r c then some false else taken
]

-- for (int i = first; i < first + n; i++) if (!test(i)) return false; return true;
check_range : ℕ → ℕ → (ℕ → Option Bool) → Option Bool
check_range zero i test = some true
check_range (suc n) i test =
    let rest = check_range n (i + 1) test in
    elim (test i) [ none ↦ none | some b ↦ elim b [ true ↦ rest | false ↦ some false ] ]

unfoldable pub is_legal : Play → ℕ → ℕ → ℤ → ℤ → Option Bool
unfolding legal_square check_range
is_legal p shape form row col =
    check_range 4 0 λ i. check_range 4 0 λ j. legal_square p shape form row col i j
