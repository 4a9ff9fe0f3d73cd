-- ===== src/Throttle/Auth/Wait.antt =====
-- How long a name has to wait.
use russia_tetris.Base.{
  ℕ, ◌+◌, ◌-◌, ◌*◌, ◌≤◌, ◌<◌, ◌≡◌, refl, sym, ap, ◌∙◌, ◌⊎◌, ◌/◌, inl, inr, List, length, Bool, true,
  Bool-cases, Option, none, some, arith, ltb, le→ltb, ltb→lt,
}
use russia_tetris.Throttle.Env.{AuthConfig}
use russia_tetris.Throttle.Table
use russia_tetris.Throttle.Table.{kept, kept_some}
use russia_tetris.Throttle.Auth.{
  Entry, Decision, allowed, State, normalize, expired, text_key, seconds, check,
}
use russia_tetris.Throttle.Auth.Counts.{live, decision, check-decision, check-live}

pub seconds_enough : (r : ℕ) → (1 ≤ seconds r) × (r ≤ 1000 * seconds r)
seconds_enough r = ground arith

throttled_entry :
    (now : ℕ) (o : Option Entry)
    → (decision now o).throttled ≡ true
    → (t : Entry) × (o ≡ some t)
      × (now < t.next_allowed)
      × ((decision now o).retry_after ≡ seconds ((t.next_allowed - now) / 1000000))
unfolding decision
throttled_entry now none told = cc
throttled_entry now (some t) told = elim (Bool-cases (ltb now t.next_allowed)) [
  | inl e ↦ (t, refl, ltb→lt now t.next_allowed e, rw e refl)
  | inr e ↦ cc (rw e at told)
]

told_enough :
    (r : ℕ) → (1 ≤ seconds (r / 1000000)) × (r < 1000000000 * seconds (r / 1000000) + 1000000)
told_enough r = let e = seconds_enough (r / 1000000) in (e.0, omega (arith, e.1))

-- A second, and nothing that is left of it to the millisecond.
abbrev pub one_more : Decision
one_more = record { throttled = true; retry_after = 1 }

one_left : (r : ℕ) → r < 1000000 → seconds (r / 1000000) ≡ 1
one_left r h = let e : r / 1000000 ≡ 0 = omega arith in rw e refl

over_time :
    (gone : Entry → Bool) (later : ℕ) (t : Entry)
    → t.next_allowed ≤ later
    → decision later (kept gone (some t)) ≡ allowed
unfolding decision kept
over_time gone later t h = elim (Bool-cases (gone t)) [
  | inl g ↦ rw g refl
  | inr g ↦ rw g (rw (le→ltb later t.next_allowed h) refl)
]

nearly_over :
    (gone : Entry → Bool) (later : ℕ) (t : Entry)
    → t.next_allowed < later + 1000000
    → (decision later (kept gone (some t)) ≡ allowed)
      ⊎ (decision later (kept gone (some t)) ≡ one_more)
unfolding decision kept
nearly_over gone later t h = elim (Bool-cases (gone t)) [
  | inl g ↦ inl (rw g refl)
  | inr g ↦ elim (Bool-cases (ltb later t.next_allowed)) [
    | inl e ↦ inr (rw g (rw e (rw (one_left (t.next_allowed - later) (omega arith)) refl)))
    | inr e ↦ inl (rw g (rw e refl))
  ]
]

-- A login that is told to wait is told a second at least. When no other failure comes, one that comes
-- back after so many seconds is let through, or, in the last millisecond, which the rounding has lost, told
-- to wait one second more; a millisecond later it is let through. Asking and being refused does
-- not put the time off.
pub check_after_delay :
    (cfg : AuthConfig) (name : List ℕ) (now later : ℕ) (s : State)
    → 0 < length (normalize name)
    → (check cfg name now s).0.throttled ≡ true
    → now + 1000000000 * (check cfg name now s).0.retry_after ≤ later
    → (1 ≤ (check cfg name now s).0.retry_after)
      × (((check cfg name later (check cfg name now s).1).0 ≡ allowed)
          ⊎ ((check cfg name later (check cfg name now s).1).0 ≡ one_more))
      × (now + 1000000000 * (check cfg name now s).0.retry_after + 1000000 ≤ later
          → (check cfg name later (check cfg name now s).1).0 ≡ allowed)
unfolding live
check_after_delay cfg name now later s named told waited =
    let key = normalize name in
    let s' = (check cfg name now s).1 in
    let e = check-decision cfg name now s named in
    let (t, found, future, wait) =
      throttled_entry now (live cfg now key s)
        (sym (ap (λ (d : Decision). d.throttled) e) ∙ told) in
    let enough = told_enough (t.next_allowed - now) in
    let wait' : (check cfg name now s).0.retry_after ≡ seconds ((t.next_allowed - now) / 1000000) =
      ap (λ (d : Decision). d.retry_after) e ∙ wait in
    let answer : (check cfg name later s').0 ≡ decision later (kept (expired cfg later) (some t)) =
      check-decision cfg name later s' named
      ∙ ap (decision later) (check-live cfg name now s named key later (omega (arith, waited)))
      ∙ ap (λ o. decision later (kept (expired cfg later) o))
          (kept_some (expired cfg now) (Table.find text_key key s.entries) t found) in
    (
      rw wait' enough.0,
      rw answer (nearly_over (expired cfg later) later t (omega (arith, wait', waited, enough.1))),
      λ long. answer ∙ over_time (expired cfg later) later t (omega (arith, wait', long, enough.1)),
    )
