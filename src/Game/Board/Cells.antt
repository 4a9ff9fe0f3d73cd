-- ===== src/Game/Board/Cells.antt =====
-- What the game keeps true of the piece and of the two arrays.
use russia_tetris.Base.{ℕ, ◌≤◌, ◌<◌, ◌≡◌, refl, ◌∙◌, ◌⊎◌, inl, inr, some, arith}
use russia_tetris.World.{Play}
use russia_tetris.Game.Blocks.{space}
use russia_tetris.Game.Board.{cell_row}
use russia_tetris.Game.Board.Legal.{InField}

-- Shapes and forms index the table, and every square of the piece lies in the field.
pub record PieceInField (p : Play) : Type 0 where
  pub shape : p.shape < 7
  pub form : p.form < 4
  pub next_shape : p.next_shape < 7
  pub next_form : p.next_form < 4
  pub squares :
      (i j : ℕ)
      → i < 4
      → j < 4
      → space p.shape p.form i j ≡ some 1
      → InField (cell_row p.row i) (cell_row p.col j)

-- The walls, the floor and the side of the panel are in place, and a cell of the field holds 0 or 1.
pub record Framed (p : Play) : Type 0 where
  pub left_wall : (i : ℕ) → i < 24 → p.cells i 0 ≡ 1
  pub right_wall : (i : ℕ) → i < 24 → p.cells i 19 ≡ 1
  pub panel_side : (i : ℕ) → i < 24 → p.cells i 29 ≡ 1
  pub floor : (j : ℕ) → j < 30 → p.cells 23 j ≡ 1
  pub field : (i j : ℕ) → i < 23 → 0 < j → j < 19 → p.cells i j ≤ 1

-- A change of the array that leaves the frame alone.
pub record FieldOnly (p q : Play) : Type 0 where
  pub outside : (i j : ℕ) → (23 ≤ i) ⊎ (j ≡ 0) ⊎ (19 ≤ j) → q.cells i j ≡ p.cells i j
  pub bits : (i j : ℕ) → i < 23 → 0 < j → j < 19 → q.cells i j ≤ 1

pub FieldOnly-Framed : {p q : Play} → Framed p → FieldOnly p q → Framed q
FieldOnly-Framed f o = record {
  left_wall = λ i h. o.outside i 0 (inr (inl refl)) ∙ f.left_wall i h;
  right_wall = λ i h. o.outside i 19 (inr (inr (omega arith))) ∙ f.right_wall i h;
  panel_side = λ i h. o.outside i 29 (inr (inr (omega arith))) ∙ f.panel_side i h;
  floor = λ j h. o.outside 23 j (inl (omega arith)) ∙ f.floor j h;
  field = o.bits;
}
