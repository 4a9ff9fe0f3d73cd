-- ===== src/Game/Draw/Drawn.antt =====
-- The drawing functions change what output changes, and index the table of forms in range.
use russia_tetris.Base.{
  ℕ, zero, suc, ◌+◌, ◌<◌, ◌≡◌, refl, inl, inr, ℤ, pos, ◌+ℤ◌, List, Bool, true, arith,
}
use russia_tetris.World.{World}
use russia_tetris.Output.{color_white, square, blank}
use russia_tetris.Output.Effect.{Drawn, output_text-Drawn, Drawn-refl, Drawn-trans}
use russia_tetris.Effect.{M, Ensures, returns, Ensures-mono, ⟫-Ensures, for_range, ◌⟫◌}
use russia_tetris.Game.Blocks.Forms.{space_cases}
use russia_tetris.Game.Draw.{
  draw_square, draw_squares, draw_block, draw_space, redraw_walls, wall_row, text, screen_col,
  draw_score,
}

-- The call returns, whatever the socket does.
abbrev pub Draws : M Bool → World → Type 0
Draws m w = Ensures (Drawn w) (m w)

pub text-Draws : (row col : ℤ) (color : ℕ) (s : List ℕ) (w : World) → Draws (text row col color s) w
text-Draws row col color s w = returns (output_text-Drawn row col color s 0 w)

pub ⟫-Draws :
    (m k : M Bool) (w : World)
    → Draws m w
    → ((w' : World) → Drawn w true w' → Draws k w')
    → Draws (m ⟫ k) w
⟫-Draws m k w h next =
    ⟫-Ensures m k w h (λ w' d. Ensures-mono (λ b v e. Drawn-trans d e) (next w' d)) (λ w' d. d)

pub for_range-Draws :
    (body : ℕ → M Bool) (n i last : ℕ)
    → ((j : ℕ) (w : World) → j < last → Draws (body j) w)
    → i + n ≡ last
    → (w : World) → Draws (for_range n i body) w
unfolding for_range
for_range-Draws body zero i last each e w = returns (Drawn-refl w)
for_range-Draws body (suc n) i last each e w =
    ⟫-Draws (body i) (for_range n (i + 1) body) w (each i w (omega arith))
      (λ w' d. for_range-Draws body n (i + 1) last each (omega arith) w')

module _ (shape form : ℕ) (hs : shape < 7) (hf : form < 4) where
  draw_square-Draws :
      (color : ℕ) (s : List ℕ) (row col : ℤ) (i j : ℕ) (w : World)
      → i < 4
      → j < 4
      → Draws (draw_square color s shape form row col i j) w
  unfolding draw_square
  draw_square-Draws color s row col i j w hi hj = elim (space_cases shape form i j hs hf hi hj) [
    | inl e ↦ rw (e, draw_square) (returns (Drawn-refl w))
    | inr e ↦ rw (e, draw_square) (text-Draws (row +ℤ pos i) (screen_col col j) color s w)
  ]

  draw_squares-Draws :
      (color : ℕ) (s : List ℕ) (row col : ℤ) (w : World)
      → Draws (draw_squares color s shape form row col) w
  unfolding draw_squares
  draw_squares-Draws color s row col =
      for_range-Draws _ 4 0 4
        (λ i w hi.
          for_range-Draws _ 4 0 4 (λ j w' hj. draw_square-Draws color s row col i j w' hi hj) refl
            w)
        refl

  pub draw_block-Draws : (row col : ℤ) (w : World) → Draws (draw_block shape form row col) w
  unfolding draw_block
  draw_block-Draws row col w = draw_squares-Draws _ square row col w

  pub draw_space-Draws : (row col : ℤ) (w : World) → Draws (draw_space shape form row col) w
  unfolding draw_space
  draw_space-Draws row col w = draw_squares-Draws color_white blank row col w

wall_row-Draws : (row : ℤ) (w : World) → Draws (wall_row row) w
unfolding wall_row
wall_row-Draws row w =
    let one = λ (c : ℤ). text row c color_white square in
    let each = λ (c : ℤ). text-Draws row c color_white square in
    ⟫-Draws (one (pos 1)) (one (pos 39) ⟫ one (pos 59)) w (each (pos 1) w)
      λ w' _. ⟫-Draws (one (pos 39)) (one (pos 59)) w' (each (pos 39) w') (λ v _. each (pos 59) v)

pub redraw_walls-Draws : (w : World) → Draws redraw_walls w
unfolding redraw_walls
redraw_walls-Draws = for_range-Draws _ 24 0 24 (λ i w _. wall_row-Draws (pos (i + 1)) w) refl

pub draw_score-Draws : (w : World) → Draws draw_score w
draw_score-Draws w = returns (output_text-Drawn _ _ _ _ w.score w)
