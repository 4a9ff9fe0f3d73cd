-- ===== src/Game/Start/Ready.antt =====
-- A game starts in a sound state.
use russia_tetris.Base.{ℕ, ◌<◌, ◌≡◌, refl, pos, true, arith}
use russia_tetris.World.{World}
use russia_tetris.Output.{output}
use russia_tetris.Output.Effect.{output-Drawn}
use russia_tetris.Effect.{modify, lift, Ensures, returns, Ensures-mono, ◌⟫◌}
use russia_tetris.Effect.Does.{Doing, ran, Drawn-Does, Does-from, ⟫-Doing}
use russia_tetris.Game.Draw.{draw_block, draw_current}
use russia_tetris.Game.Draw.Drawn.{draw_block-Draws}
use russia_tetris.Game.Drop.Kept.{Sound, spawn-PieceInField}
use russia_tetris.Game.Start.{
  init_interface, init_game_face, clear_screen, hide_cursor, first_pieces,
}
use russia_tetris.Game.Start.Framing.{Started, init_interface-Started, Drawn-Doing}

first_pieces-Sound :
    (r0 r1 r2 r3 : ℕ) (w : World) → Started w.play → Sound (first_pieces r0 r1 r2 r3 w).play
first_pieces-Sound r0 r1 r2 r3 w s = record {
  piece =
      spawn-PieceInField (first_pieces r0 r1 r2 r3 w).play refl refl (omega arith) (omega arith)
        (omega arith) (omega arith);
  frame = record {
    left_wall = s.frame.left_wall;
    right_wall = s.frame.right_wall;
    panel_side = s.frame.panel_side;
    floor = s.frame.floor;
    field = s.frame.field;
  };
}

show-Sound :
    (w : World)
    → Sound w.play
    → Doing ran
        (λ _ p. Sound p)
        ((λ v. draw_block v.next_shape v.next_form (pos 3) (pos 23) v) ⟫ draw_current)
        w
show-Sound w s =
    ⟫-Doing (λ v. draw_block v.next_shape v.next_form (pos 3) (pos 23) v) draw_current w
      (Drawn-Doing w
        (draw_block-Draws w.next_shape w.next_form s.piece.next_shape s.piece.next_form (pos 3)
          (pos 23) w)
        s)
      λ v t.
        Drawn-Doing v (draw_block-Draws v.shape v.form t.piece.shape t.piece.form v.row v.col v) t

init_game_face-Doing :
    (r0 r1 r2 r3 : ℕ) (w : World) → Doing ran (λ _ p. Sound p) (init_game_face r0 r1 r2 r3) w
unfolding init_game_face
init_game_face-Doing r0 r1 r2 r3 w =
    let show =
      (λ (v : World). draw_block v.next_shape v.next_form (pos 3) (pos 23) v) ⟫ draw_current in
    let place = modify (first_pieces r0 r1 r2 r3) ⟫ show in
    ⟫-Doing (lift (λ v. output v clear_screen))
      (lift (λ v. output v hide_cursor) ⟫ init_interface ⟫ place) w
      (Ensures-mono (λ b u d. Drawn-Does d) (returns (output-Drawn w clear_screen)))
      λ v _.
        ⟫-Doing (lift (λ t. output t hide_cursor)) (init_interface ⟫ place) v
          (Ensures-mono (λ b u d. Drawn-Does d) (returns (output-Drawn v hide_cursor)))
          λ u _. ⟫-Doing init_interface place u (init_interface-Started u) λ t s.
            Ensures-mono (λ b x d. Does-from d)
              (show-Sound (first_pieces r0 r1 r2 r3 t) (first_pieces-Sound r0 r1 r2 r3 t s))

-- In a batch the start of a game runs to its end inside of the arrays, whatever the board held before: then
-- the piece lies in the field, the walls, the floor and the panel's side are in place, and the cells of
-- the field hold 0 or 1.
pub init_game_face-Sound :
    (r0 r1 r2 r3 : ℕ) (w : World)
    → 0 < w.depth
    → Ensures (λ b w'. (b ≡ true) × Sound w'.play) (init_game_face r0 r1 r2 r3 w)
init_game_face-Sound r0 r1 r2 r3 w h =
    Ensures-mono (λ b u d. let t = d.batched h in (t.0, d.play t.0))
      (init_game_face-Doing r0 r1 r2 r3 w)

-- In a batch the set-up of the board runs to its end: the frame is in place and the field is empty.
pub init_interface_empties :
    (w : World) → 0 < w.depth → Ensures (λ b w'. (b ≡ true) × Started w'.play) (init_interface w)
init_interface_empties w h =
    Ensures-mono (λ b u d. let t = d.batched h in (t.0, d.play t.0)) (init_interface-Started w)
