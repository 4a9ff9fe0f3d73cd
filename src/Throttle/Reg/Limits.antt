-- ===== src/Throttle/Reg/Limits.antt =====
-- The limit of the process.
use russia_tetris.Base.{
  ℕ, suc, ◌%◌, ◌≤◌, ◌<◌, ◌≡◌, refl, ap, ◌∙◌, true, arith, ==_false, le→ltb, lt→ltb,
}
use russia_tetris.Throttle.Env.{RegConfig}
use russia_tetris.Throttle.Window.{slice, window_sum, bump, evaluate, refuse}
use russia_tetris.Throttle.Window.Sum.{Placed, window_sum-bump}
use russia_tetris.Throttle.Reg.{
  State, check, prune, record_attempt, attempt_address, attempt_process, on_attempt,
}

attempt_address-global :
    (cfg : RegConfig) (ip now : ℕ) (s : State)
    → (attempt_address cfg ip now s).global_window ≡ s.global_window
unfolding attempt_address prune record_attempt
attempt_address-global cfg ip now s = ground arith

attempt_process-global :
    (cfg : RegConfig) (now : ℕ) (s : State)
    → 0 < cfg.global_max
    → (attempt_process cfg now s).global_window ≡ bump s.global_window (slice cfg.global_window now)
unfolding attempt_process
attempt_process-global cfg now s on = rw (lt→ltb 0 cfg.global_max on) refl

-- Every attempt counts for the process, known address or not, when its limit is on and no slot is at the
-- greatest number of 32 bits.
pub on_attempt-global :
    (cfg : RegConfig) (ip now : ℕ) (s : State)
    → 0 < cfg.global_max
    → Placed s.global_window (slice cfg.global_window now)
    → ((i : ℕ) → i < 5 → (s.global_window i).count < 4294967295)
    → window_sum (on_attempt cfg ip now s).global_window (slice cfg.global_window now)
      ≡ suc (window_sum s.global_window (slice cfg.global_window now))
unfolding on_attempt
on_attempt-global cfg ip now s on p small =
    let cur = slice cfg.global_window now in
    ap (λ w. window_sum w cur)
      (attempt_address-global cfg ip now (attempt_process cfg now s)
        ∙ attempt_process-global cfg now s on)
    ∙ window_sum-bump s.global_window cur p (small (cur % 5) (omega arith))

-- While the process is at its limit every registration is refused, from whatever address.
pub check-global :
    (cfg : RegConfig) (ip now : ℕ) (s : State)
    → 0 < cfg.global_max
    → cfg.global_max ≤ window_sum s.global_window (slice cfg.global_window now)
    → ((check cfg ip now s).0.decision.throttled ≡ true) × ((check cfg ip now s).0.global ≡ true)
unfolding check evaluate refuse
check-global cfg ip now s on full =
    let cur = slice cfg.global_window now in
    rw (lt→ltb 0 cfg.global_max on, check)
      (rw (==_false cfg.global_max 0 (λ e. omega (arith, e)), check)
        (rw (le→ltb (window_sum s.global_window cur) cfg.global_max full, check) (refl, refl)))
