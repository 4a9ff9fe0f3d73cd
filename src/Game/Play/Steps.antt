-- ===== src/Game/Play/Steps.antt =====
-- Every received text and every tick keeps a game sound.
use russia_tetris.Base.{
  same_text, ℕ, ◌+◌, ◌*◌, ◌<◌, ◌≡◌, refl, ◌∙◌, inl, inr, pos, List, Bool, true, false, Bool-cases,
  leb, if◌then◌else◌, ◌==◌, ◌||◌, some, arith, subst, sym,
}
use russia_tetris.World.{World, Play}
use russia_tetris.Output.{output, color_white, square}
use russia_tetris.Output.Effect.{Drawn-refl, output-Drawn}
use russia_tetris.Effect.{
  M, ◌>>=◌, return, lift, for_range, ◌⟫◌, Ensures, returns, Ensures-mono, >>=-Ensures,
}
use russia_tetris.Game.Board.Access.{get_data_in, get_color_in}
use russia_tetris.Game.Board.Cells.{PieceInField, Framed}
use russia_tetris.Game.Lines.{data_at, color_at}
use russia_tetris.Game.Draw.{text, draw_block, draw_current, draw_score}
use russia_tetris.Game.Draw.Drawn.{
  Draws, text-Draws, ⟫-Draws, for_range-Draws, draw_block-Draws, draw_score-Draws,
}
use russia_tetris.Game.Moves.{
  Key, handle, handle_move_down, handle_move_left, handle_move_right, handle_rotation, down, left,
  right, rotation,
}
use russia_tetris.Game.Moves.Tried.{handle-Tried, Tried-PieceInField}
use russia_tetris.Game.Drop.{process_block_down}
use russia_tetris.Game.Drop.Settle.{show_over-Draws}
use russia_tetris.Game.Drop.Kept.{Sound, process_block_down-Sound}
use russia_tetris.Game.Start.{wall, next_label, clear_screen, hide_cursor}
use russia_tetris.Game.Play.{
  frame_square, landed_square, draw_landed, over_text, confirming, repaint, handle_received,
  handle_timed, c_string, key_down, key_left, key_right, first_byte,
}

frame_square-Draws : (i j : ℕ) (w : World) → Draws (frame_square i j) w
unfolding frame_square
frame_square-Draws i j w = elim (Bool-cases (wall i j)) [
  | inl e ↦ rw (e, frame_square) (text-Draws (pos (i + 1)) (pos (2 * j + 1)) color_white square w)
  | inr e ↦ rw (e, frame_square) (returns (Drawn-refl w))
]

landed_square-Draws : (i j : ℕ) (w : World) → i < 24 → j < 30 → Draws (landed_square i j) w
unfolding landed_square draw_landed
landed_square-Draws i j w hi hj =
    rw (get_data_in i j hi hj w.play, ◌>>=◌, data_at)
      (elim (Bool-cases (w.cells i j == 1)) [
        | inl e ↦ rw e (
            rw (get_color_in i j hi hj w.play, ◌>>=◌, color_at)
              (text-Draws (pos (i + 1)) (pos (2 * j + 1)) _ square w))
        | inr e ↦ rw e (returns (Drawn-refl w))
      ])

over_text-Draws : (w : World) → Draws over_text w
unfolding over_text
over_text-Draws w = elim (Bool-cases (confirming w.status)) [
  | inl e ↦ rw (e, over_text) (show_over-Draws w)
  | inr e ↦ rw (e, over_text) (returns (Drawn-refl w))
]

repaint-Draws : (w : World) → PieceInField w.play → Draws repaint w
unfolding repaint
repaint-Draws w v =
    let clear : M Bool = lift (λ v'. output v' clear_screen) in
    let hide : M Bool = lift (λ v'. output v' hide_cursor) in
    let frame : M Bool = for_range 24 0 (λ i. for_range 30 0 λ j. frame_square i j) in
    let panel : M Bool =
      for_range 10 20 (λ j. text (pos 12) (pos (2 * j + 1)) color_white square) in
    let label : M Bool = text (pos 2) (pos 42) color_white next_label in
    let landed : M Bool = for_range 24 0 (λ i. for_range 18 1 λ j. landed_square i j) in
    let next : M Bool = (λ v'. draw_block v'.next_shape v'.next_form (pos 3) (pos 23) v') in
    let k8 : M Bool = draw_score ⟫ over_text in
    let k7 : M Bool = next ⟫ k8 in
    let k6 : M Bool = draw_current ⟫ k7 in
    let k5 : M Bool = landed ⟫ k6 in
    let k4 : M Bool = label ⟫ k5 in
    let k3 : M Bool = panel ⟫ k4 in
    let k2 : M Bool = frame ⟫ k3 in
    let k1 : M Bool = hide ⟫ k2 in
    ⟫-Draws clear k1 w (returns (output-Drawn w clear_screen)) λ a ea.
      ⟫-Draws hide k2 a (returns (output-Drawn a hide_cursor)) λ b eb.
        ⟫-Draws frame k3 b
          (for_range-Draws _ 24 0 24
            (λ i u _. for_range-Draws _ 30 0 30 (λ j t _. frame_square-Draws i j t) refl u) refl b)
          λ c ec.
            ⟫-Draws panel k4 c
              (for_range-Draws _ 10 20 30
                (λ j u _. text-Draws (pos 12) (pos (2 * j + 1)) color_white square u) refl c)
              λ d ed.
                ⟫-Draws label k5 d (text-Draws (pos 2) (pos 42) color_white next_label d) λ e ee.
                  ⟫-Draws landed k6 e
                    (for_range-Draws _ 24 0 24
                      (λ i u hi.
                        for_range-Draws _ 18 1 19
                          (λ j t hj. landed_square-Draws i j t hi (omega (arith, hj))) refl u)
                      refl e)
                    λ f ef.
                      let same : f.play ≡ w.play =
                        ef.kept.play ∙ ee.kept.play ∙ ed.kept.play ∙ ec.kept.play ∙ eb.kept.play
                        ∙ ea.kept.play in
                      let vf : PieceInField f.play = subst PieceInField (sym same) v in
                      ⟫-Draws draw_current k7 f
                        (draw_block-Draws f.shape f.form vf.shape vf.form f.row f.col f)
                        λ g eg.
                          let vg : PieceInField g.play = subst PieceInField (sym eg.kept.play) vf in
                          ⟫-Draws next k8 g
                            (draw_block-Draws g.next_shape g.next_form vg.next_shape vg.next_form
                              (pos 3) (pos 23) g)
                            λ h eh.
                              ⟫-Draws draw_score over_text h (draw_score-Draws h)
                                λ k ek. over_text-Draws k

Framed-cells : (p q : Play) → q.cells ≡ p.cells → Framed p → Framed q
Framed-cells p q e f = record {
  left_wall = λ i h. rw e (f.left_wall i h);
  right_wall = λ i h. rw e (f.right_wall i h);
  panel_side = λ i h. rw e (f.panel_side i h);
  floor = λ j h. rw e (f.floor j h);
  field = λ i j h l r. rw e (f.field i j h l r);
}

-- The calls of a batch that keep a game sound and run to their end.
abbrev Keeps : M Bool → World → Type 0
Keeps m w = Ensures (λ b w'. (b ≡ true) × Sound w'.play) (m w)

handle-Keeps : (k : Key) (w : World) → Sound w.play → 0 < w.depth → Keeps (handle k) w
handle-Keeps k w s h =
    Ensures-mono
      (λ b u t.
        let k' = Tried-PieceInField k w b u s.piece t in
        ((t.batched h).0, record { piece = k'.0; frame = Framed-cells w.play u.play k'.1 s.frame }))
      (handle-Tried k w s.piece.shape s.piece.form)

-- In a batch, whatever text is received while a game is on, its handler runs to its end without leaving
-- an array, and keeps the piece in the field and the frame in place.
pub handle_received-Sound :
    (buffer : List ℕ) (w : World)
    → Sound w.play
    → 0 < w.depth
    → Ensures (λ b w'. (b ≡ true) × Sound w'.play) (handle_received buffer w)
unfolding handle_received handle_move_down handle_move_left handle_move_right handle_rotation
handle_received-Sound buffer w s h =
    branch (same_text (c_string buffer) key_down) (handle down) _ (handle-Keeps down w s h) (
      branch (same_text (c_string buffer) key_left) (handle left) _ (handle-Keeps left w s h) (
        branch (same_text (c_string buffer) key_right) (handle right) _ (handle-Keeps right w s h) (
          branch (first_byte buffer == 32) (handle rotation) _ (handle-Keeps rotation w s h) (
            branch (first_byte buffer == 114 || first_byte buffer == 82) repaint (return true)
              (Ensures-mono (λ b u d. ((d.batched h).0, subst Sound (sym d.kept.play) s))
                (repaint-Draws w s.piece))
              (returns (refl, s))))))
  where
    branch : (t : Bool) (m k : M Bool) → Keeps m w → Keeps k w → Keeps (if t then m else k) w
    branch true m k x y = x
    branch false m k x y = y

-- In a batch a tick of the timer keeps the game sound, and the step of gravity in it, if one is due, runs to
-- its end.
pub handle_timed-Sound :
    (now r r' : ℕ) (w : World)
    → Sound w.play
    → 0 < w.depth
    → Ensures (λ x w'. (x ≡ some true) × Sound w'.play) (handle_timed now r r' w)
unfolding handle_timed
handle_timed-Sound now r r' w s h =
    let w' = record w { user = record w.user { current_time = now } } in
    elim (Bool-cases (leb (w.last_trigger_time + 1000000 * w.speed) now)) [
      | inl due ↦ rw due (
          >>=-Ensures (process_block_down r r') _ w' (process_block_down-Sound r r' w' s h)
            (λ x u t. returns t))
      | inr early ↦ rw early (returns (refl, s))
    ]
