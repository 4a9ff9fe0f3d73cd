-- ===== src/Game/Moves/Tried.antt =====
-- The four keys move the piece where `IsLegal` allows it, and do nothing else.
use russia_tetris.Base.{◌<◌, ◌≡◌, refl, ap, ◌∙◌, ◌⊎◌, inl, inr, Bool, true, Bool-cases, arith}
use russia_tetris.World.{World, Play, set_play}
use russia_tetris.Output.Effect.{Drawn}
use russia_tetris.Effect.{Ensures, returns, Ensures-mono, ⟫-Ensures, modify, ◌⟫◌}
use russia_tetris.Game.Board.Legal.{Legal, is_legal-Decides}
use russia_tetris.Game.Board.Cells.{PieceInField}
use russia_tetris.Game.Draw.{draw_current, erase_current}
use russia_tetris.Game.Draw.Drawn.{draw_block-Draws, draw_space-Draws}
use russia_tetris.Game.Moves.{Key, down, left, right, rotation, moved, handle}

-- Whether the board of `p` has room for the piece of `q`.
abbrev pub Room : Play → Play → Type 0
Room p q = Legal p q.shape q.form q.row q.col

-- What a key may leave: the play as it was, or the piece at a place for which there is room. While
-- a batch is open the call succeeds, the piece moves whenever there is room, and where there is
-- none nothing at all changes.
pub record Tried (k : Key) (w : World) (b : Bool) (w' : World) : Type 0 where
  pub place : (w'.play ≡ w.play) ⊎ Room w.play (moved k w.play) × (w'.play ≡ moved k w.play)
  pub time : w'.current_time ≡ w.current_time
  pub batched :
      0 < w.depth
      → (b ≡ true)
        × (Room w.play (moved k w.play) → w'.play ≡ moved k w.play)
        × (¬ Room w.play (moved k w.play) → w' ≡ w)

moved_table :
    (k : Key) (p : Play)
    → p.shape < 7
    → p.form < 4
    → ((moved k p).shape < 7) × ((moved k p).form < 4)
moved_table down p hs hf = (hs, hf)
moved_table left p hs hf = (hs, hf)
moved_table right p hs hf = (hs, hf)
moved_table rotation p hs hf = (hs, omega arith)

module _ (k : Key) (w : World) (hs : w.shape < 7) (hf : w.form < 4)
    (room : Room w.play (moved k w.play)) where
  placed :
      (w1 : World)
      → Drawn w true w1
      → Ensures (Tried k w) (draw_current (set_play w1 (moved k w1.play)))
  placed w1 d =
      let table = moved_table k w.play hs hf in
      let same : moved k w1.play ≡ moved k w.play = ap (moved k) d.kept.play in
      let w2 = set_play w1 (moved k w1.play) in
      Ensures-mono
        (λ b w' e. record {
          place = inr (room, e.kept.play ∙ same);
          time = e.kept.time ∙ d.kept.time;
          batched = λ h. (
            (e.batched (rw d.kept.depth h)).0,
            (λ _. e.kept.play ∙ same),
            λ full. absurd (full room),
          );
        })
        (draw_block-Draws w2.shape w2.form (rw same table.0) (rw same table.1) w2.row w2.col w2)

  pub advance :
      Ensures
        (Tried k w)
        ((erase_current ⟫ modify (λ w'. set_play w' (moved k w'.play)) ⟫ draw_current) w)
  advance =
      ⟫-Ensures erase_current (modify (λ w'. set_play w' (moved k w'.play)) ⟫ draw_current) w
        (draw_space-Draws w.shape w.form hs hf w.row w.col w) placed
        λ w' d. record {
          place = inl d.kept.play;
          time = d.kept.time;
          batched = λ h. cc (d.batched h).0;
        }

-- For every key, the handler indexes no array out of its bounds, whatever the socket does, and
-- leaves the play as it was or moves the piece to the place that it tried, where there is room. When its
-- output is batched, as it is in both callers of the program, it moves exactly when there is room.
pub handle-Tried :
    (k : Key) (w : World) → w.shape < 7 → w.form < 4 → Ensures (Tried k w) (handle k w)
unfolding handle
handle-Tried k w hs hf =
    let p = moved k w.play in
    let table = moved_table k w.play hs hf in
    let d = is_legal-Decides w.play p.shape p.form p.row p.col table.0 table.1 in
    elim (Bool-cases d.result) [
      | inl free ↦ rw (d.returns, handle, free) (advance k w hs hf (d.sound free))
      | inr full ↦
          rw (d.returns, handle, full)
            (returns (record {
              place = inl refl;
              time = refl;
              batched = λ _. (refl, (λ room. cc (d.complete room)), λ _. refl);
            }))
    ]

pub moved-PieceInField :
    (k : Key) (p : Play) → PieceInField p → Room p (moved k p) → PieceInField (moved k p)
moved-PieceInField down p v room = record {
  shape = v.shape;
  form = v.form;
  next_shape = v.next_shape;
  next_form = v.next_form;
  squares = λ i j hi hj e. (room i j hi hj e).inside;
}
moved-PieceInField left p v room = record {
  shape = v.shape;
  form = v.form;
  next_shape = v.next_shape;
  next_form = v.next_form;
  squares = λ i j hi hj e. (room i j hi hj e).inside;
}
moved-PieceInField right p v room = record {
  shape = v.shape;
  form = v.form;
  next_shape = v.next_shape;
  next_form = v.next_form;
  squares = λ i j hi hj e. (room i j hi hj e).inside;
}
moved-PieceInField rotation p v room = record {
  shape = v.shape;
  form = omega arith;
  next_shape = v.next_shape;
  next_form = v.next_form;
  squares = λ i j hi hj e. (room i j hi hj e).inside;
}

moved-cells : (k : Key) (p : Play) → (moved k p).cells ≡ p.cells
moved-cells down p = refl
moved-cells left p = refl
moved-cells right p = refl
moved-cells rotation p = refl

pub Tried-PieceInField :
    (k : Key) (w : World) (b : Bool) (w' : World)
    → PieceInField w.play
    → Tried k w b w'
    → PieceInField w'.play × (w'.cells ≡ w.cells)
Tried-PieceInField k w b w' v t = elim t.place [
  | inl e ↦ (rw e v, ap (λ (p : Play). p.cells) e)
  | inr (room, e) ↦ (
    rw e (moved-PieceInField k w.play v room),
    ap (λ (p : Play). p.cells) e ∙ moved-cells k w.play,
  )
]

-- No key takes the piece out of the field or changes a cell of the board, whatever the socket does.
pub handle-PieceInField :
    (k : Key) (w : World)
    → PieceInField w.play
    → Ensures (λ _ w'. PieceInField w'.play × (w'.cells ≡ w.cells)) (handle k w)
handle-PieceInField k w v =
    Ensures-mono (λ b w' t. Tried-PieceInField k w b w' v t) (handle-Tried k w v.shape v.form)

-- In a batch, for a shape and a form of the table, the handler of a key runs to its end without
-- leaving an array. Either the board has room for the piece where the key would take it, and the
-- piece goes there and nothing else of the play changes; or there is no room, and nothing at all changes.
pub handle-Room :
    (k : Key) (w : World)
    → w.shape < 7
    → w.form < 4
    → 0 < w.depth
    → Ensures
        (λ b w'.
          (b ≡ true)
          × (Room w.play (moved k w.play) × (w'.play ≡ moved k w.play)
              ⊎ (¬ Room w.play (moved k w.play)) × (w' ≡ w)))
        (handle k w)
unfolding handle
handle-Room k w hs hf h =
    let p = moved k w.play in
    let d =
      is_legal-Decides w.play p.shape p.form p.row p.col (moved_table k w.play hs hf).0
        (moved_table k w.play hs hf).1 in
    elim (Bool-cases d.result) [
      | inl free ↦
          rw (d.returns, handle, free)
            (Ensures-mono
              (λ b w' t. ((t.batched h).0, inl (d.sound free, (t.batched h).1 (d.sound free))))
              (advance k w hs hf (d.sound free)))
      | inr full ↦
          rw (d.returns, handle, full) (returns (refl, inr ((λ room. cc (d.complete room)), refl)))
    ]
