-- ===== src/Throttle/Window/Decide.antt =====
-- What a refusal promises.
use russia_tetris.Base.{
  ℕ, ◌+◌, ◌-◌, ◌*◌, ◌≤◌, ◌<◌, ◌≡◌, refl, sym, ap, ◌∙◌, inl, inr, true, Bool-cases, arith, ltb, ◌==◌,
  ltb_false→le, lt→ltb, le-div_iff_mul-le,
}
use russia_tetris.Throttle.Auth.{Decision, allowed}
use russia_tetris.Throttle.Auth.Wait.{seconds_enough}
use russia_tetris.Throttle.Window.{
  Window, slot_duration, slice, window_sum, drain_at, refuse, evaluate,
}
use russia_tetris.Throttle.Window.Sum.{Placed, Placed-later, window_sum_later}
use russia_tetris.Throttle.Window.Drain.{drain_at-below}

pub slot_duration_positive : (window : ℕ) → 0 < slot_duration window
unfolding slot_duration
slot_duration_positive window = ground arith

pub slice_mono : (window now later : ℕ) → now ≤ later → slice window now ≤ slice window later
slice_mono window now later h =
    let some_time = slot_duration_positive window in
    let low : slice window now * slot_duration window ≤ now =
      (le-div_iff_mul-le some_time).0 (omega arith) in
    (le-div_iff_mul-le some_time).1 (omega (arith, low))

-- After the seconds of a refusal, with no more counts, the window is below the limit.
pub refuse_long_enough :
    (w : Window) (window limit now later : ℕ)
    → Placed w (slice window now)
    → 0 < limit
    → limit ≤ window_sum w (slice window now)
    → now + 1000 * (refuse w window limit now).retry_after ≤ later
    → (1 ≤ (refuse w window limit now).retry_after) × (window_sum w (slice window later) < limit)
unfolding refuse
refuse_long_enough w window limit now later p some_limit enough waited =
    let cur = slice window now in
    let slot = slot_duration window in
    let some_time = slot_duration_positive window in
    let (b, at, after, below) = drain_at-below w cur slot limit p some_limit enough in
    let wait = seconds_enough (drain_at w cur slot (window_sum w cur) limit - now) in
    let reached : b * slot ≤ later = omega (arith, wait.1, at, waited) in
    let b_later : b ≤ slice window later = (le-div_iff_mul-le some_time).1 reached in
    (
      wait.0,
      omega (
        arith,
        below,
        window_sum_later w b (slice window later) (Placed-later w cur b (omega (arith, after)) p)
            b_later,
      ),
    )

pub evaluate_refuses :
    (w : Window) (limit window now : ℕ)
    → (evaluate w limit window now).throttled ≡ true
    → (0 < limit)
      × (limit ≤ window_sum w (slice window now))
      × (evaluate w limit window now ≡ refuse w window limit now)
unfolding evaluate
evaluate_refuses w limit window now told = elim (Bool-cases (limit == 0)) [
  | inl e ↦
      let eq : evaluate w limit window now ≡ allowed = rw e refl in
      cc (sym (ap (λ (d : Decision). d.throttled) eq) ∙ told)
  | inr e ↦ elim (Bool-cases (ltb (window_sum w (slice window now)) limit)) [
    | inl x ↦
        let eq : evaluate w limit window now ≡ allowed = rw e (rw x refl) in
        cc (sym (ap (λ (d : Decision). d.throttled) eq) ∙ told)
    | inr x ↦ (
      ground (arith, e),
      ltb_false→le (window_sum w (slice window now)) limit x,
      rw e (rw x refl),
    )
  ]
]

evaluate_allows :
    (w : Window) (limit window now : ℕ)
    → window_sum w (slice window now) < limit
    → evaluate w limit window now ≡ allowed
unfolding evaluate
evaluate_allows w limit window now h = elim (Bool-cases (limit == 0)) [
  | inl e ↦ rw e refl
  | inr e ↦ rw e (rw (lt→ltb (window_sum w (slice window now)) limit h) refl)
]

-- A refusal names a second at least, and when no more is counted waiting so long is enough.
pub evaluate_after_waiting :
    (w : Window) (limit window now later : ℕ)
    → Placed w (slice window now)
    → (evaluate w limit window now).throttled ≡ true
    → now + 1000 * (evaluate w limit window now).retry_after ≤ later
    → (1 ≤ (evaluate w limit window now).retry_after) × (evaluate w limit window later ≡ allowed)
evaluate_after_waiting w limit window now later p told waited =
    let (some_limit, enough, e) = evaluate_refuses w limit window now told in
    let r =
      refuse_long_enough w window limit now later p some_limit enough
        (omega (arith, waited, ap (λ (d : Decision). d.retry_after) e)) in
    (
      omega (arith, r.0, ap (λ (d : Decision). d.retry_after) e),
      evaluate_allows w limit window later r.1,
    )
