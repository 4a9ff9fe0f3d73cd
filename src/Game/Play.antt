-- ===== src/Game/Play.antt =====
-- What a received text and the timer do to a game: `Game::handleReceivedData_STATUS_PLAYING`,
-- `Game::process_STATUS_PLAYING`, `Game::handleTimedUserLogic`, and `Game::Repaint`.
pub mod Steps
pub mod Timed
use russia_tetris.Base.{
  same_text, ℕ, zero, suc, ◌+◌, ◌*◌, ℤ, pos, ltb_ℤ, List, [], ◌∷◌, Bool, true, false, not, ◌&&◌,
  ◌||◌, ◌==◌, leb, if◌then◌else◌, Option, none, some,
}
use russia_tetris.Status.{Status, over_confirming, over_quit}
use russia_tetris.World.{World, set_play, set_status}
use russia_tetris.Output.{output, color_of, color_white, square}
use russia_tetris.Effect.{M, ◌>>=◌, return, modify, lift, for_range, ◌⟫◌}
use russia_tetris.Game.Draw.{text, draw_block, draw_current, draw_score}
use russia_tetris.Game.Lines.{data_at, color_at}
use russia_tetris.Game.Moves.{
  handle_move_down, handle_move_left, handle_move_right, handle_rotation,
}
use russia_tetris.Game.Drop.{show_over, process_block_down}
use russia_tetris.Game.Start.{wall, next_label, clear_screen, hide_cursor}

-- One square of the frame.
unfoldable pub frame_square : ℕ → ℕ → M Bool
frame_square i j =
    if wall i j then text (pos (i + 1)) (pos (2 * j + 1)) color_white square else return true

-- One landed block; a colour that is no shape is drawn white.
unfoldable pub draw_landed : ℕ → ℕ → M Bool
draw_landed i j = do
  stored ← color_at i j
  let known = not (ltb_ℤ stored (pos 0)) && not (ltb_ℤ (pos 6) stored)
  text (pos (i + 1)) (pos (2 * j + 1)) (if known then color_of stored else color_white) square

unfoldable pub landed_square : ℕ → ℕ → M Bool
unfolding draw_landed
landed_square i j = do d ← data_at i j; if d == 1 then draw_landed i j else return true

confirming : Status → Bool
confirming over_confirming = true
confirming _ = false

unfoldable pub over_text : M Bool
unfolding confirming
over_text w = if confirming w.status then show_over w else some (true, w)

unfoldable pub repaint : M Bool
unfolding frame_square landed_square over_text
repaint =
    lift (λ w. output w clear_screen)
    ⟫ lift (λ w. output w hide_cursor)
    ⟫ for_range 24 0 (λ i. for_range 30 0 λ j. frame_square i j)
    ⟫ for_range 10 20 (λ j. text (pos 12) (pos (2 * j + 1)) color_white square)
    ⟫ text (pos 2) (pos 42) color_white next_label
    ⟫ for_range 24 0 (λ i. for_range 18 1 λ j. landed_square i j)
    ⟫ draw_current
    ⟫ (λ w. draw_block w.next_shape w.next_form (pos 3) (pos 23) w)
    ⟫ draw_score
    ⟫ over_text

-- The bytes before the first 0.
unfoldable pub c_string : List ℕ → List ℕ
c_string [] = []
c_string (c ∷ cs) = let rest = c_string cs in if c == 0 then [] else c ∷ rest

first_byte : List ℕ → ℕ
first_byte [] = 0
first_byte (c ∷ cs) = c

abbrev pub key_down : List ℕ
key_down = 27 ∷ 91 ∷ 66 ∷ []

abbrev pub key_left : List ℕ
key_left = 27 ∷ 91 ∷ 68 ∷ []

abbrev pub key_right : List ℕ
key_right = 27 ∷ 91 ∷ 67 ∷ []

unfoldable pub handle_received : List ℕ → M Bool
unfolding c_string first_byte repaint
handle_received buffer =
    let first = first_byte buffer in
    if same_text (c_string buffer) key_down
    then handle_move_down
    else if same_text (c_string buffer) key_left
    then handle_move_left
    else if same_text (c_string buffer) key_right
    then handle_move_right
    else if first == 32
    then handle_rotation
    else if first == 114 || first == 82
    then repaint
    else return true

-- What `recv` gave: bytes, or an error or the end of the connection.
pub data Received : Type 0 where
  bytes : List ℕ → Received
  broken_off : Received

-- setStatus(STATUS_OVER_QUIT); close(fd)
abbrev pub give_up : World → World
give_up w = record (set_status w over_quit) { closed = w.fd ∷ w.closed }

unfoldable pub process_playing : Received → M Bool
unfolding handle_received
process_playing (bytes buffer) w = handle_received buffer w
process_playing broken_off w = some (false, give_up w)

-- Times are in nanoseconds, and the speed is in milliseconds here.
unfoldable pub handle_timed : ℕ → ℕ → ℕ → M (Option Bool)
handle_timed now r r' w =
    let w' = record w { user = record w.user { current_time = now } } in
    if leb (w.last_trigger_time + 1000000 * w.speed) now
    then ((do
      done ← process_block_down r r'
      triggered ←
          modify (λ v. record v { user = record v.user { last_trigger_time = v.current_time } })
      return done)
        w')
    else some (some true, w')
