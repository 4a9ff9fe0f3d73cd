-- ===== src/Tests/Game.antt =====
-- A board whose two lowest rows lack only the piece that falls into them.
use russia_tetris.Base.{
  ℕ, ◌+◌, ◌*◌, ◌-◌, ◌%◌, ◌≡◌, refl, pos, ◌+ℤ◌, ◌-ℤ◌, [], ◌∷◌, Bool, true, false, some, ◌==◌, ltb,
  ◌&&◌, ◌||◌, if◌then◌else◌, arith, ◌⊎◌,
}
use russia_tetris.Status.{playing, over_confirming}
use russia_tetris.World.{World, Play, set_play, set_status}
use russia_tetris.Effect.{Ensures}
use russia_tetris.Game.Blocks.{space}
use russia_tetris.Game.Blocks.Forms.{space_turned}
use russia_tetris.Game.Board.{is_legal}
use russia_tetris.Game.Board.Legal.{Decides, Legal, is_legal-Legal, is_legal-Decides}
use russia_tetris.Game.Board.Cells.{PieceInField, Framed}
use russia_tetris.Game.Moves.{right, moved, handle}
use russia_tetris.Game.Moves.Tried.{Room, handle-Room}
use russia_tetris.Game.Lines.{is_increase_score}
use russia_tetris.Game.Lines.Plain.{
  scanned, row_total, cols_total, cleared, go_on, shifted, blanked, copied_row, blank_cols, copied,
}
use russia_tetris.Game.Lines.Count.{field_total}
use russia_tetris.Game.Lines.Conserved.{Within, Bits, NoFull}
use russia_tetris.Game.Lines.Refines.{is_increase_score-scanned}
use russia_tetris.Game.Drop.{
  process_block_down, lock_piece, clear_lines, line_rounds, is_over, after_lines,
}
use russia_tetris.Game.Drop.Locked.{Locked, lock_piece-Locked}
use russia_tetris.Game.Drop.Cleared.{clear_lines_conserve}
use russia_tetris.Game.Drop.Settle.{TopTaken, Ending, scored, is_over-TopTaken, after_lines-Ending}
use russia_tetris.Game.Drop.Dropped.{Dropped, process_block_down-Dropped, process_block_down_ends}
use russia_tetris.Game.Play.{handle_received, handle_timed}
use russia_tetris.Game.Play.Steps.{handle_received-Sound}
use russia_tetris.Game.Play.Timed.{TimedStep, handle_timed-TimedStep}
use russia_tetris.Game.Start.{init_game_face}
use russia_tetris.Game.Start.Ready.{init_game_face-Sound}
use russia_tetris.Game.Drop.Kept.{Sound, process_block_down-Sound}

-- The walls, the floor, the panel, and rows 21 and 22 but for columns 1 and 2.
abbrev pub cells : ℕ → ℕ → ℕ
cells i j =
    if j == 0 || j == 19 || j == 29 || i == 23 || (i == 11 && ltb 19 j) || (ltb 20 i && ltb 2 j)
    then 1
    else 0

abbrev pub play : Play
play = record {
  line = 0;
  score = 70;
  shape = 5;
  form = 0;
  next_shape = 6;
  next_form = 1;
  row = pos 21;
  col = pos 1;
  cells = cells;
  colors = λ _ _. pos 0;
}

abbrev pub world : World
world = record {
  user = record {
    fd = pos 7;
    peer_ip = 1;
    status = playing;
    play = play;
    username = [];
    password = [];
    maximum_score_easy = 0;
    scores = [];
    game_diffclutys = [];
    receivedata = [];
    sendbuf = [];
    pendingoutput = false;
    speed = 0;
    last_trigger_time = 0;
    current_time = 0;
    game_diffculty = [];
  };
  depth = 1;
  replies = [];
  delivered = [];
  closed = [];
  write_queue = [];
}

fits : is_legal play 5 0 (pos 21) (pos 1) ≡ some true
unfolding is_legal space ◌-ℤ◌ ◌+ℤ◌
fits = refl

in_field : PieceInField play
in_field = record {
  shape = omega arith;
  form = omega arith;
  next_shape = omega arith;
  next_form = omega arith;
  squares = λ i j hi hj e.
      (is_legal-Legal play 5 0 (pos 21) (pos 1) (omega arith) (omega arith) fits i j hi hj
        e).inside;
}

framed : Framed play
framed = record {
  left_wall = λ i h. ground arith;
  right_wall = λ i h. ground arith;
  panel_side = λ i h. ground arith;
  floor = λ j h. ground arith;
  field = λ i j hi lo hj. ground arith;
}

process_block_down-Dropped_example :
    Ensures (λ x w'. (x ≡ some true) × Dropped 3 2 world w') (process_block_down 3 2 world)
process_block_down-Dropped_example =
    process_block_down-Dropped 3 2 world in_field framed.field (omega arith)

process_block_down_ends_example :
    Ensures (λ x w'. (b : Bool) × (x ≡ some b)) (process_block_down 3 2 world)
process_block_down_ends_example = process_block_down_ends 3 2 world in_field framed.field

process_block_down-Sound_example :
    Ensures (λ x w'. (x ≡ some true) × Sound w'.play) (process_block_down 3 2 world)
process_block_down-Sound_example =
    process_block_down-Sound 3 2 world (record { piece = in_field; frame = framed }) (omega arith)

lock_piece-Locked_example :
    Ensures (λ b w'. (b ≡ true) × Locked 4 0 play w'.play) (lock_piece world)
lock_piece-Locked_example = lock_piece-Locked world in_field

-- Row 22 is full.
abbrev full_board : World
full_board = set_play world (record play { cells = λ i j. if i == 22 then 1 else cells i j })

full_board-Bits : Bits full_board.play
full_board-Bits = λ i j hi lo hj. ground arith

top_empty : row_total full_board.cells 1 ≡ 0
unfolding row_total cols_total
top_empty = refl

one_line : (scanned 22 full_board.play).1.line ≡ 1
unfolding scanned row_total cols_total cleared go_on shifted blanked copied_row blank_cols copied
one_line = refl

is_increase_score-scanned_example :
    Ensures (λ r w'. (r, w'.play) ≡ scanned 22 full_board.play) (is_increase_score full_board)
is_increase_score-scanned_example = is_increase_score-scanned full_board (omega arith)

clear_lines_conserve_example :
    Ensures
      (λ r w'.
        (r ≡ some true)
        × (field_total 22 w'.cells + 18 * w'.line
            ≡ field_total 22 full_board.cells + 18 * full_board.line)
        × Within 22 full_board.play w'.play
        × NoFull 22 w'.play)
      (clear_lines line_rounds full_board)
clear_lines_conserve_example =
    clear_lines_conserve full_board full_board-Bits top_empty (omega arith)

is_over-TopTaken_example :
    Ensures
      (λ b w'.
        (b ≡ true) × TopTaken play × (w' ≡ set_status world over_confirming)
        ⊎ (b ≡ false) × (¬ TopTaken play) × (w' ≡ world))
      (is_over world)
is_over-TopTaken_example = is_over-TopTaken world

after_lines-Ending_example :
    Ensures
      (λ b w'. (b ≡ true) × Ending 3 2 (set_play world (scored play)) w')
      (after_lines 3 2 world)
after_lines-Ending_example = after_lines-Ending 3 2 world (omega arith) (omega arith) (omega arith)

handle-Room_example :
    Ensures
      (λ b w'.
        (b ≡ true)
        × (Room play (moved right play) × (w'.play ≡ moved right play)
            ⊎ (¬ Room play (moved right play)) × (w' ≡ world)))
      (handle right world)
handle-Room_example = handle-Room right world (omega arith) (omega arith) (omega arith)

is_legal-Decides_example :
    Decides (Legal play 5 0 (pos 22) (pos 1)) (is_legal play 5 0 (pos 22) (pos 1))
is_legal-Decides_example = is_legal-Decides play 5 0 (pos 22) (pos 1) (omega arith) (omega arith)

space_turned_example : space 1 ((3 + 1) % 4) 1 2 ≡ space 1 3 (3 - 2) 1
space_turned_example = space_turned 1 3 1 2 (omega arith) (omega arith) (omega arith) (omega arith)

init_game_face-Sound_example :
    Ensures (λ b w'. (b ≡ true) × Sound w'.play) (init_game_face 12 7 30 5 world)
init_game_face-Sound_example = init_game_face-Sound 12 7 30 5 world (omega arith)

handle_received-Sound_example :
    Ensures (λ b w'. (b ≡ true) × Sound w'.play) (handle_received (114 ∷ []) world)
handle_received-Sound_example =
    handle_received-Sound (114 ∷ []) world (record { piece = in_field; frame = framed })
      (omega arith)

handle_timed-TimedStep_example :
    Ensures
      (λ x w'. (x ≡ some true) × TimedStep 500000000 3 2 world w')
      (handle_timed 500000000 3 2 world)
handle_timed-TimedStep_example =
    handle_timed-TimedStep 500000000 3 2 world (record { piece = in_field; frame = framed })
      (omega arith)
