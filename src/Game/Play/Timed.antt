-- ===== src/Game/Play/Timed.antt =====
-- When a tick of the timer moves the piece.
use russia_tetris.Base.{
  ℕ, ◌+◌, ◌*◌, ◌≤◌, ◌<◌, ◌≡◌, refl, inl, inr, true, Bool-cases, leb, some, arith,
}
use russia_tetris.World.{World}
use russia_tetris.Effect.{Ensures, returns, >>=-Ensures}
use russia_tetris.Game.Drop.{process_block_down}
use russia_tetris.Game.Drop.Settle.{Ending, goes_on, ends}
use russia_tetris.Game.Drop.Dropped.{Dropped, falls, locks, process_block_down-Timeless}
use russia_tetris.Game.Drop.Kept.{Sound}
use russia_tetris.Game.Play.{handle_timed}

-- The clock has been read.
abbrev pub at : ℕ → World → World
at now w = record w { user = record w.user { current_time = now } }

-- A tick before `speed` milliseconds have passed since the last step of gravity sets the current
-- time alone. A later one is a step of gravity, and the time is kept as that of the last step.
pub data TimedStep (now r r' : ℕ) (w w' : World) : Type 0 where
  early : now < w.last_trigger_time + 1000000 * w.speed → w' ≡ at now w → TimedStep now r r' w w'
  due :
      w.last_trigger_time + 1000000 * w.speed ≤ now
      → Dropped r r' (at now w) w'
      → w'.last_trigger_time ≡ now
      → TimedStep now r r' w w'

abbrev triggered : World → World
triggered v = record v { user = record v.user { last_trigger_time = v.current_time } }

Ending-triggered : (r r' : ℕ) (v u : World) → Ending r r' v u → Ending r r' v (triggered u)
Ending-triggered r r' v u (goes_on n p s q) = goes_on n p s q
Ending-triggered r r' v u (ends t p s q) = ends t p s q

Dropped-triggered : (r r' : ℕ) (v u : World) → Dropped r r' v u → Dropped r r' v (triggered u)
Dropped-triggered r r' v u (falls room e) = falls room e
Dropped-triggered r r' v u (locks locked left full l s e) =
    locks locked left full l s (Ending-triggered r r' _ u e)

-- In a batch, a tick of the timer on a sound game runs to its end. When less than `speed`
-- milliseconds have passed since the last step of gravity it only notes the current time; otherwise it
-- makes one step of gravity, and the time of the last step becomes the current one.
pub handle_timed-TimedStep :
    (now r r' : ℕ) (w : World)
    → Sound w.play
    → 0 < w.depth
    → Ensures (λ x w'. (x ≡ some true) × TimedStep now r r' w w') (handle_timed now r r' w)
unfolding handle_timed
handle_timed-TimedStep now r r' w s h =
    elim (Bool-cases (leb (w.last_trigger_time + 1000000 * w.speed) now)) [
      | inl past ↦ rw past (
          >>=-Ensures (process_block_down r r') _ (at now w)
            (process_block_down-Timeless r r' (at now w) s.piece s.frame.field h)
            (λ x u t.
              returns
                (t.0, due (ground (arith, past)) (Dropped-triggered r r' (at now w) u t.1) t.2)))
      | inr before ↦ rw before (returns (refl, early (ground (arith, before)) refl))
    ]
