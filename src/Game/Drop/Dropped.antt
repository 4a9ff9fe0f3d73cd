-- ===== src/Game/Drop/Dropped.antt =====
-- `Game::processBlockDown` as a whole.
use russia_tetris.Base.{
  ℕ, ◌<◌, ◌≡◌, refl, ap, ◌∙◌, inl, inr, Bool, true, false, Bool-cases, Option, none, some, subst,
  arith,
}
use russia_tetris.World.{World, Play, set_play}
use russia_tetris.Effect.{◌⟫◌, modify, Ensures, returns, Ensures-mono, >>=-Ensures, ⟫-Ensures}
use russia_tetris.Effect.Does.{Does}
use russia_tetris.Game.Board.Legal.{is_legal-Decides}
use russia_tetris.Game.Board.Cells.{PieceInField}
use russia_tetris.Game.Moves.{down, moved}
use russia_tetris.Game.Moves.Tried.{Room, advance}
use russia_tetris.Game.Lines.Conserved.{Bits}
use russia_tetris.Game.Drop.{
  process_block_down, lock, fall, lock_piece, clear_lines, line_rounds, after_lines, complete,
  then_settle,
}
use russia_tetris.Game.Drop.Locked.{Locked, lock_piece-Sure}
use russia_tetris.Game.Drop.Cleared.{Settled, completed, clear_lines-Settled}
use russia_tetris.Game.Drop.Settle.{Ending, Ending-moved, scored, after_lines-Ends}

abbrev pub no_lines : Play → Play
no_lines p = record p { line = 0 }

-- One step of gravity in a batch: the piece falls one row when there is room; otherwise it becomes
-- part of the board, the passes over the lines leave what `Settled` says, the lines that they counted
-- are scored, and the next piece comes or the game ends.
pub data Dropped (r r' : ℕ) (w w' : World) : Type 0 where
  falls : Room w.play (moved down w.play) → w'.play ≡ moved down w.play → Dropped r r' w w'
  locks :
      (locked left : Play)
      → ¬ Room w.play (moved down w.play)
      → Locked 4 0 w.play locked
      → Settled (no_lines locked) left
      → Ending r r' (set_play w (scored left)) w'
      → Dropped r r' w w'

-- The call ends by itself; in a batch it runs to its end.
pub record Drops (r r' : ℕ) (w : World) (x : Option Bool) (w' : World) : Type 0 where
  pub finished : Bool
  pub result : x ≡ some finished
  pub batched :
      0 < w.depth → (finished ≡ true) × Dropped r r' w w' × (w'.current_time ≡ w.current_time)

fall-Drops :
    (r r' : ℕ) (w : World)
    → PieceInField w.play
    → Room w.play (moved down w.play)
    → Ensures (Drops r r' w) (complete fall w)
unfolding fall
fall-Drops r r' w v room = >>=-Ensures fall _ w (advance down w v.shape v.form room) λ b w' t.
    returns (record {
      finished = b;
      result = refl;
      batched = λ h. let s = t.batched h in (s.0, falls room (s.1 room), t.time);
    })

-- What the lock of the piece has done before the lines are looked at.
pub record Placed (w : World) (b : Bool) (v : World) : Type 0 where
  pub locked : Play
  pub squares : Locked 4 0 w.play locked
  pub play : v.play ≡ no_lines locked
  pub depth : v.depth ≡ w.depth
  pub saves : v.write_queue ≡ w.write_queue
  pub time : v.current_time ≡ w.current_time
  pub status : 0 < w.depth → v.status ≡ w.status

place-Placed :
    (w : World)
    → PieceInField w.play
    → Ensures (Placed w) ((lock_piece ⟫ modify (λ u. set_play u (no_lines u.play))) w)
place-Placed w piece =
    ⟫-Ensures lock_piece (modify (λ u. set_play u (no_lines u.play))) w
      (lock_piece-Sure w.play piece w refl)
      (λ v s. returns (record {
        locked = v.play;
        squares = s.1.play refl;
        play = refl;
        depth = s.1.depth;
        saves = s.1.saves;
        time = s.1.time;
        status = λ h. (s.1.batched h).1;
      }))
      (λ v s. cc s.0)

pub Locked-Bits : (p q : Play) → Locked 4 0 p q → Bits p → Bits q
Locked-Bits p q l b i j hi lo hj = elim (l.only i j) [
  | inl e ↦ rw e (b i j hi lo hj)
  | inr (e, _) ↦ rw e (omega arith)
]

Settled-next :
    (p l q : Play)
    → PieceInField p
    → Locked 4 0 p l
    → Settled (no_lines l) q
    → (q.next_shape < 7) × (q.next_form < 4)
Settled-next p l q piece k s =
    let shapes : q.next_shape ≡ p.next_shape =
      ap (λ (t : Play). t.next_shape) s.within.rest ∙ ap (λ (t : Play). t.next_shape) k.rest in
    let forms : q.next_form ≡ p.next_form =
      ap (λ (t : Play). t.next_form) s.within.rest ∙ ap (λ (t : Play). t.next_form) k.rest in
    (rw shapes piece.next_shape, rw forms piece.next_form)

module _ (r r' : ℕ) (w : World) (piece : PieceInField w.play)
    (full : ¬ Room w.play (moved down w.play)) where
  cleared-Drops :
      (b : Bool) (v : World) (p : Placed w b v) (x : Option Bool) (u : World)
      → Does completed (λ y q. (y ≡ some true) × Settled v.play q) v x u
      → Ensures (Drops r r' w) (then_settle r r' x u)
  unfolding completed then_settle
  cleared-Drops b v p none u d = absurd (ground (arith, (d.play refl).0))
  cleared-Drops b v p (some false) u d = returns (record {
    finished = false;
    result = refl;
    batched = λ h. cc (d.batched (omega (arith, p.depth))).0;
  })
  cleared-Drops b v p (some true) u d =
      let s : Settled (no_lines p.locked) u.play =
        subst (λ (t : Play). Settled t u.play) p.play (d.play refl).1 in
      let next = Settled-next w.play p.locked u.play piece p.squares s in
      >>=-Ensures (after_lines r r') _ u (after_lines-Ends r r' u next.0 next.1) λ e t f.
        returns (record {
          finished = e;
          result = refl;
          batched = λ h.
              let deep : 0 < v.depth = omega (arith, p.depth) in
              let g = f (omega (arith, d.depth)) in
              (
                g.0,
                locks p.locked u.play full p.squares s (
                    Ending-moved r r' (set_play w (scored u.play)) (set_play u (scored u.play)) t
                      refl ((d.batched deep).1 ∙ p.status h) (d.saves ∙ p.saves) g.1),
                g.2 ∙ d.time ∙ p.time,
              );
        })

  lock-Drops : Bits w.play → Ensures (Drops r r' w) (lock r r' w)
  unfolding lock
  lock-Drops bits =
      >>=-Ensures (lock_piece ⟫ modify (λ u. set_play u (no_lines u.play))) _ w
        (place-Placed w piece)
        λ b v p.
          >>=-Ensures (clear_lines line_rounds) _ v
            (clear_lines-Settled v (rw p.play (Locked-Bits w.play p.locked p.squares bits)))
            λ x u d. cleared-Drops b v p x u d

-- For a piece that lies in the field and cells that hold 0 or 1, the step ends by itself and indexes
-- no array out of its bounds, whatever the socket does; in a batch it runs to its end, and is one of
-- the two kinds of step of `Dropped`.
pub process_block_down-Drops :
    (r r' : ℕ) (w : World)
    → PieceInField w.play
    → Bits w.play
    → Ensures (Drops r r' w) (process_block_down r r' w)
unfolding process_block_down
process_block_down-Drops r r' w piece bits =
    let p = moved down w.play in
    let d = is_legal-Decides w.play p.shape p.form p.row p.col piece.shape piece.form in
    elim (Bool-cases d.result) [
      | inl free ↦ rw (d.returns, process_block_down, free) (fall-Drops r r' w piece (d.sound free))
      | inr taken ↦
          rw (d.returns, process_block_down, taken)
            (lock-Drops r r' w piece (λ room. cc (d.complete room)) bits)
    ]

-- For a piece that lies in the field and cells that hold 0 or 1, one step of gravity ends, and indexes
-- no array out of its bounds, whatever the socket does and whether or not a batch is open.
pub process_block_down_ends :
    (r r' : ℕ) (w : World)
    → PieceInField w.play
    → Bits w.play
    → Ensures (λ x w'. (b : Bool) × (x ≡ some b)) (process_block_down r r' w)
process_block_down_ends r r' w piece bits =
    Ensures-mono (λ x w' d. (d.finished, d.result)) (process_block_down-Drops r r' w piece bits)

-- In a batch, for a piece that lies in the field and cells that hold 0 or 1, one step of gravity
-- runs to its end, and reads no clock.
pub process_block_down-Timeless :
    (r r' : ℕ) (w : World)
    → PieceInField w.play
    → Bits w.play
    → 0 < w.depth
    → Ensures
        (λ x w'. (x ≡ some true) × Dropped r r' w w' × (w'.current_time ≡ w.current_time))
        (process_block_down r r' w)
process_block_down-Timeless r r' w piece bits h =
    Ensures-mono (λ x w' d. let t = d.batched h in (d.result ∙ ap some t.0, t.1, t.2))
      (process_block_down-Drops r r' w piece bits)

-- In a batch, for a piece that lies in the field and cells that hold 0 or 1, one step of gravity
-- runs to its end. The piece falls one row when there is room for it there. Otherwise its squares
-- become blocks of the board, and the passes over the lines change only rows 2 to 22 and add no
-- block; when row 1 is empty after the lock, each line that they count takes away 18 blocks and no
-- other block is lost, and no row of 5 to 22 is left full down to the first empty one from below.
-- Then the counted lines are scored, and the next piece comes or the game is over.
pub process_block_down-Dropped :
    (r r' : ℕ) (w : World)
    → PieceInField w.play
    → Bits w.play
    → 0 < w.depth
    → Ensures (λ x w'. (x ≡ some true) × Dropped r r' w w') (process_block_down r r' w)
process_block_down-Dropped r r' w piece bits h =
    Ensures-mono (λ x w' d. let t = d.batched h in (d.result ∙ ap some t.0, t.1))
      (process_block_down-Drops r r' w piece bits)
