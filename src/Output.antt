-- ===== src/Output.antt =====
-- src/Utility/Utility.cpp: the send buffer of a connection, batched output, and the text commands
-- that the game draws with.
pub mod Decimal
pub mod Effect
pub mod Delivered
use russia_tetris.Base.{
  ℕ, zero, suc, ◌+◌, ◌-◌, ℤ, pos, negsuc, ltb_ℤ, List, [], ◌∷◌, ◌++◌, Bool, true, false, not, ◌&&◌,
  ltb, ◌==◌, if◌then◌else◌, length, take, drop,
}
use russia_tetris.Status.{Status, over_quit}
use russia_tetris.World.{World, Reply, accepts, interrupted, would_block, broken}
use Decimal.{to_string}

abbrev pub max_send_buffer : ℕ
max_send_buffer = 1048576

-- How the loop of `flushUserOutput` ended: `sent`, the replies that are left, what `send` took,
-- and whether it met an error other than EINTR, EAGAIN and EWOULDBLOCK.
pub record Sent : Type 0 where
  pub count : ℕ
  pub rest : List Reply
  pub taken : List ℕ
  pub failed : Bool

abbrev pub remaining : ℕ → ℕ → ℕ
remaining n left = if ltb n left then n else left

-- while (sent < buffer.size()) { n = send(buffer + sent, buffer.size() - sent); ... }
unfoldable pub send_loop : List Reply → ℕ → List ℕ → List ℕ → Sent
send_loop [] sent buffer out = record { count = sent; rest = []; taken = out; failed = false }
send_loop (accepts n ∷ rs) sent buffer out =
    let k = remaining n (length (drop sent buffer)) in
    let again = send_loop rs (sent + k) buffer (out ++ take k (drop sent buffer)) in
    if ltb sent (length buffer)
    then (if k == 0 then record { count = sent; rest = rs; taken = out; failed = false } else again)
    else record { count = sent; rest = accepts n ∷ rs; taken = out; failed = false }
send_loop (interrupted ∷ rs) sent buffer out =
    let again = send_loop rs sent buffer out in
    if ltb sent (length buffer)
    then again
    else record { count = sent; rest = interrupted ∷ rs; taken = out; failed = false }
send_loop (would_block ∷ rs) sent buffer out =
    if ltb sent (length buffer)
    then record { count = sent; rest = rs; taken = out; failed = false }
    else record { count = sent; rest = would_block ∷ rs; taken = out; failed = false }
send_loop (broken ∷ rs) sent buffer out =
    if ltb sent (length buffer)
    then record { count = sent; rest = rs; taken = out; failed = true }
    else record { count = sent; rest = broken ∷ rs; taken = out; failed = false }

-- buffer.clear(); setPendingOutput(false); setStatus(STATUS_OVER_QUIT); close(fd)
abbrev pub drop_connection : World → World
drop_connection w = record w {
  user = record w.user { sendbuf = []; pendingoutput = false; status = over_quit };
  closed = w.fd ∷ w.closed;
}

unfoldable pub after_send : World → Sent → Bool × World
after_send w s =
    if s.failed
    then (
      false,
      drop_connection (record w { replies = s.rest; delivered = w.delivered ++ s.taken }),
    )
    else (
      true,
      record w {
        user = record w.user {
          sendbuf = drop s.count w.sendbuf;
          pendingoutput = not (length (drop s.count w.sendbuf) == 0);
        };
        replies = s.rest;
        delivered = w.delivered ++ s.taken;
      },
    )

unfoldable pub flush_user_output : World → Bool × World
unfolding after_send
flush_user_output w =
    if length w.sendbuf == 0
    then (true, record w { user = record w.user { pendingoutput = false } })
    else if ltb max_send_buffer (length w.sendbuf)
    then (false, drop_connection w)
    else after_send w (send_loop w.replies 0 w.sendbuf [])

-- user->getSendBuffer() += s; user->setPendingOutput(true)
abbrev pub enqueue : World → List ℕ → World
enqueue w s = record w { user = record w.user { sendbuf = w.sendbuf ++ s; pendingoutput = true } }

unfoldable pub output : World → List ℕ → Bool × World
output w s = if ltb 0 w.depth then (true, enqueue w s) else flush_user_output (enqueue w s)

-- The constructor and the destructor of `OutputBatch`.
unfoldable pub open_batch : World → World
open_batch w = record w { depth = w.depth + 1 }

unfoldable pub quits : Status → Bool
quits over_quit = true
quits _ = false

unfoldable pub close_batch : World → World
unfolding quits
close_batch w =
    let w' = record w { depth = w.depth - 1 } in
    if ltb 0 w'.depth
    then w'
    else if not (ltb_ℤ w.fd (pos 0)) && not (quits w.status)
    then (flush_user_output w').1
    else w'

-- "\x1b[" + row + ";" + col + "H" + "\33[" + color + "m" + text
unfoldable pub draw_command : ℤ → ℤ → ℕ → List ℕ → List ℕ
draw_command row col color text =
    27 ∷ 91 ∷ to_string row
    ++ (59 ∷ to_string col ++ (72 ∷ 27 ∷ 91 ∷ to_string (pos color) ++ (109 ∷ text)))

unfoldable pub output_text : ℤ → ℤ → ℕ → List ℕ → ℤ → World → Bool × World
output_text row col color text grade w =
    if ltb_ℤ grade (pos 0)
    then (false, w)
    else output w
        (draw_command row col color (if ltb_ℤ (pos 0) grade then text ++ to_string grade else text))

abbrev pub color_white : ℕ
color_white = 37

-- `Color`: the terminal colour of a shape.
unfoldable pub color_of : ℤ → ℕ
color_of (pos zero) = 35
color_of (pos (suc zero)) = 31
color_of (pos (suc (suc zero))) = 31
color_of (pos (suc (suc (suc zero)))) = 36
color_of (pos (suc (suc (suc (suc zero))))) = 36
color_of (pos (suc (suc (suc (suc (suc zero)))))) = 33
color_of (pos (suc (suc (suc (suc (suc (suc zero))))))) = 34
color_of _ = color_white

-- The texts of the game, as bytes: a filled square, two spaces, "Next:", "Score: ".
abbrev pub square : List ℕ
square = 226 ∷ 150 ∷ 160 ∷ []

abbrev pub blank : List ℕ
blank = 32 ∷ 32 ∷ []
