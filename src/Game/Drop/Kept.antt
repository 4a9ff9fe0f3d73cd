-- ===== src/Game/Drop/Kept.antt =====
-- `Game::processBlockDown` keeps the piece in the field and the frame of the board in place.
use russia_tetris.Base.{
  ℕ, ◌+◌, ◌≤◌, ◌<◌, ◌≡◌, refl, sym, ap, ◌∙◌, inl, inr, ℤ, pos, ◌+ℤ◌, ◌-ℤ◌, pos_part, true, some,
  subst, arith,
}
use russia_tetris.World.{World, Play, set_play}
use russia_tetris.Game.Board.{cell_row}
use russia_tetris.Game.Board.Legal.{InField}
use russia_tetris.Game.Board.Cells.{PieceInField, Framed, FieldOnly-Framed}
use russia_tetris.Game.Moves.{down}
use russia_tetris.Game.Moves.Tried.{moved-PieceInField}
use russia_tetris.Game.Drop.Locked.{Locked}
use russia_tetris.Game.Drop.Cleared.{Settled}
use russia_tetris.Game.Drop.Settle.{Ending, goes_on, ends, scored, with_next}
use russia_tetris.Effect.{Ensures, Ensures-mono}
use russia_tetris.Game.Drop.{process_block_down}
use russia_tetris.Game.Drop.Dropped.{
  process_block_down-Dropped, Dropped, falls, locks, no_lines, Locked-Bits,
}

-- The piece can be drawn and stored, and the board has its frame.
pub record Sound (p : Play) : Type 0 where
  pub piece : PieceInField p
  pub frame : Framed p

in_field_parts : (r c : ℤ) → InField r c → (pos_part r ≤ 22) × (1 ≤ pos_part c) × (pos_part c ≤ 18)
in_field_parts r c f = ground (arith, f.top, f.bottom, f.left, f.right)

Locked-Framed : (p q : Play) → PieceInField p → Framed p → Locked 4 0 p q → Framed q
Locked-Framed p q piece f l = FieldOnly-Framed f (record {
  outside = λ a b o. elim (l.only a b) [
    | inl e ↦ e
    | inr (_, c) ↦
        let inside = in_field_parts _ _ (piece.squares c.i c.j c.i_small c.j_small c.filled) in
        absurd (omega (arith, o, c.at_row, c.at_col, inside))
  ];
  bits = Locked-Bits p q l f.field;
})

Settled-Framed : (p q : Play) → Framed p → Settled p q → Framed q
Settled-Framed p q f s = FieldOnly-Framed f (record {
  outside = λ a b o. s.within.outside a b (omega (arith, o));
  bits = s.within.bits f.field;
})

spawn_row : (i : ℕ) → cell_row (pos 1) i ≡ pos i
unfolding ◌+ℤ◌ ◌-ℤ◌
spawn_row i = ground arith

spawn_col : (j : ℕ) → cell_row (pos 9) j ≡ pos (8 + j)
unfolding ◌+ℤ◌ ◌-ℤ◌
spawn_col j = ground arith

-- The place where a piece starts is in the field.
pub spawn-PieceInField :
    (p : Play)
    → p.row ≡ pos 1
    → p.col ≡ pos 9
    → p.shape < 7
    → p.form < 4
    → p.next_shape < 7
    → p.next_form < 4
    → PieceInField p
spawn-PieceInField p at_row at_col hs hf hs' hf' = record {
  shape = hs;
  form = hf;
  next_shape = hs';
  next_form = hf';
  squares = λ i j hi hj e.
      rw (at_row, at_col)
        (rw (spawn_row i, spawn_col j)
          (record {
            top = omega arith;
            bottom = omega arith;
            left = omega arith;
            right = omega arith;
          }));
}

with_next-PieceInField :
    (r r' : ℕ) (p : Play) → p.next_shape < 7 → p.next_form < 4 → PieceInField (with_next r r' p)
with_next-PieceInField r r' p hs hf =
    spawn-PieceInField (with_next r r' p) refl refl hs hf (omega arith) (omega arith)

Framed-with_next : (r r' : ℕ) (p : Play) → Framed p → Framed (with_next r r' p)
Framed-with_next r r' p f = record {
  left_wall = f.left_wall;
  right_wall = f.right_wall;
  panel_side = f.panel_side;
  floor = f.floor;
  field = f.field;
}

Ending-Sound : (r r' : ℕ) (w w' : World) → Sound w.play → Ending r r' w w' → Sound w'.play
Ending-Sound r r' w w' s (goes_on _ e _ _) = rw e (record {
  piece = with_next-PieceInField r r' w.play s.piece.next_shape s.piece.next_form;
  frame = Framed-with_next r r' w.play s.frame;
})
Ending-Sound r r' w w' s (ends _ e _ _) = rw e s

-- A piece that was locked stays where it is until the next one takes its place.
module _ (p l q : Play) (s : Sound p) (k : Locked 4 0 p l) (t : Settled (no_lines l) q) where
  left_rest : q ≡ record p { line = q.line; cells = q.cells; colors = q.colors }
  left_rest =
      t.within.rest
      ∙ ap (λ (x : Play). record x { line = q.line; cells = q.cells; colors = q.colors }) k.rest

  left-PieceInField : PieceInField (scored q)
  left-PieceInField = subst PieceInField (sym (ap scored left_rest)) (record {
    shape = s.piece.shape;
    form = s.piece.form;
    next_shape = s.piece.next_shape;
    next_form = s.piece.next_form;
    squares = s.piece.squares;
  })

  left-Framed : Framed (scored q)
  left-Framed =
      let f = Locked-Framed p l s.piece s.frame k in
      let g =
        Settled-Framed (no_lines l) q
          (record {
            left_wall = f.left_wall;
            right_wall = f.right_wall;
            panel_side = f.panel_side;
            floor = f.floor;
            field = f.field;
          })
          t in
      record {
        left_wall = g.left_wall;
        right_wall = g.right_wall;
        panel_side = g.panel_side;
        floor = g.floor;
        field = g.field;
      }

  left-Sound : Sound (scored q)
  left-Sound = record { piece = left-PieceInField; frame = left-Framed }

Dropped-Sound : (r r' : ℕ) (w w' : World) → Sound w.play → Dropped r r' w w' → Sound w'.play
Dropped-Sound r r' w w' s (falls room e) = rw e (record {
  piece = moved-PieceInField down w.play s.piece room;
  frame = record {
    left_wall = s.frame.left_wall;
    right_wall = s.frame.right_wall;
    panel_side = s.frame.panel_side;
    floor = s.frame.floor;
    field = s.frame.field;
  };
})
Dropped-Sound r r' w w' s (locks l q _ k t e) =
    Ending-Sound r r' (set_play w (scored q)) w' (left-Sound w.play l q s k t) e

-- In a batch one step of gravity keeps the piece in the field, its shape and form in the table, the
-- walls and the floor in place, and the cells of the field at 0 or 1.
pub process_block_down-Sound :
    (r r' : ℕ) (w : World)
    → Sound w.play
    → 0 < w.depth
    → Ensures (λ x w'. (x ≡ some true) × Sound w'.play) (process_block_down r r' w)
process_block_down-Sound r r' w s h =
    Ensures-mono (λ x w' d. (d.0, Dropped-Sound r r' w w' s d.1))
      (process_block_down-Dropped r r' w s.piece s.frame.field h)
