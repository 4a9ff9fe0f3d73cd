-- ===== src/Throttle/Auth/Delay.antt =====
-- The delay after a number of failures.
use russia_tetris.Base.{
  ℕ, zero, suc, ◌+◌, ◌-◌, ◌*◌, ◌≤◌, ◌<◌, ◌≡◌, false, refl, ◌⊎◌, arith, ltb, leb, le→ltb,
  if◌then◌else◌, dec_lt,
}
use russia_tetris.Throttle.Env.{AuthConfig}
use russia_tetris.Throttle.Auth.{delay_for, shift_left}

shift_left_mono : (n a b : ℕ) → a ≤ b → shift_left n a ≤ shift_left n b
unfolding shift_left
shift_left_mono n a zero h = let e : a ≡ 0 = omega arith in rw e (omega arith)
shift_left_mono n a (suc b) h = elim (dec_lt b a) [
  | yes lt ↦ let e : a ≡ suc b = omega arith in rw e (omega arith)
  | no ge ↦ omega (arith, shift_left_mono n a b (omega arith))
]

-- The free attempts cost nothing; a further failure costs the base delay at least, when that is not
-- above the greatest one; no delay is above the greatest one; and more failures never cost less.
pub delay_for_range :
    (cfg : AuthConfig) (f g : ℕ)
    → cfg.base_delay ≤ cfg.max_delay
    → f ≤ g
    → (f ≤ cfg.free_attempts) × (delay_for cfg f ≡ 0)
      ⊎ (cfg.free_attempts < f)
        × (cfg.base_delay ≤ delay_for cfg f)
        × (delay_for cfg f ≤ delay_for cfg g)
        × (delay_for cfg g ≤ cfg.max_delay)
unfolding delay_for shift_left
delay_for_range cfg f g h le =
    let a = f - cfg.free_attempts - 1 in
    let b = g - cfg.free_attempts - 1 in
    let a' = if ltb 30 a then 30 else a in
    let b' = if ltb 30 b then 30 else b in
    let mono = shift_left_mono cfg.base_delay a' b' (ground arith) in
    let least = shift_left_mono cfg.base_delay 0 a' (omega arith) in ground (arith, mono, least)

delay_for_capped :
    (cfg : AuthConfig) (k : ℕ)
    → k ≤ 30
    → delay_for cfg (suc (cfg.free_attempts + k)) ≡ (
        if ltb cfg.max_delay (shift_left cfg.base_delay k)
        then cfg.max_delay
        else shift_left cfg.base_delay k)
unfolding delay_for
delay_for_capped cfg k h =
    let e : suc (cfg.free_attempts + k) - cfg.free_attempts - 1 ≡ k = omega arith in
    let more : leb (suc (cfg.free_attempts + k)) cfg.free_attempts ≡ false = ground arith in
    rw more (rw e (rw (le→ltb 30 k h) refl))

-- After the first failure past the free attempts each of 30 more ones doubles the delay, until the
-- greatest one is reached.
pub delay_for_doubles :
    (cfg : AuthConfig) (k : ℕ)
    → k < 30
    → delay_for cfg (suc (cfg.free_attempts + k)) * 2 ≤ cfg.max_delay
    → delay_for cfg (suc (cfg.free_attempts + suc k))
      ≡ delay_for cfg (suc (cfg.free_attempts + k)) * 2
unfolding shift_left
delay_for_doubles cfg k small room =
    let e = delay_for_capped cfg k (omega arith) in
    let e' = delay_for_capped cfg (suc k) (omega arith) in ground (arith, e, e')
