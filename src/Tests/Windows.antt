-- ===== src/Tests/Windows.antt =====
-- An address and a process at their limits.
use russia_tetris.Base.{
  ◌⊎◌, ℕ, suc, ◌*◌, ◌≤◌, ◌<◌, ◌≡◌, ◌≢◌, ◌↔◌, inl, refl, [], ◌∷◌, true, false, none, some, arith,
  if◌then◌else◌, ◌==◌,
}
use russia_tetris.Throttle.Env.{IpConfig, RegConfig}
use russia_tetris.Throttle.Table
use russia_tetris.Throttle.Table.{nothing, more}
use russia_tetris.Throttle.Auth.{allowed}
use russia_tetris.Throttle.Window.{
  Window, slice, slot_duration, window_sum, sum_slots, in_window, drain_at, drain_loop,
  sorted_slots, insert, refuse, evaluate,
}
use russia_tetris.Throttle.Window.Sum.{Placed}
use russia_tetris.Throttle.Window.Drain.{drain_at-below}
use russia_tetris.Throttle.Window.Decide.{evaluate_after_waiting}
use russia_tetris.Throttle.Ip
use russia_tetris.Throttle.Ip.Counts.{Valid, failures, check-failures}
use russia_tetris.Throttle.Ip.Wait.{on_failure-failures, check_after_slide}
use russia_tetris.Throttle.Reg
use russia_tetris.Throttle.Reg.Limits.{on_attempt-global}
use russia_tetris.Throttle.Reg.Decides.{ProcessFull, AddressFull, check-refuses}

-- Three counts in time slice 5 and one in slice 6; slices of a second.
abbrev counts : Window
counts i =
    if i == 0
    then record { bucket = 5; count = 3 }
    else if i == 1
    then record { bucket = 6; count = 1 }
    else record { bucket = 0; count = 0 }

abbrev cfg : IpConfig
cfg = record { max_failures = 4; window = 5000; ip_entries = 10 }

second : slice 5000 6500 ≡ 6
unfolding slot_duration
second = refl

counts-Placed : Placed counts 6
counts-Placed = record { place = λ i h. ground arith; past = λ i h. ground arith }

counts-Placed_now : Placed counts (slice 5000 6500)
counts-Placed_now = rw second counts-Placed

four : window_sum counts 6 ≡ 4
unfolding window_sum sum_slots in_window
four = refl

drain_at-below_example :
    (b : ℕ) × (drain_at counts 6 1000 (window_sum counts 6) 4 ≡ b * 1000)
    × (6 < b)
    × (window_sum counts b < 4)
drain_at-below_example =
    drain_at-below counts 6 1000 4 counts-Placed (omega arith) (omega (arith, four))

slides_at_ten : drain_at counts 6 1000 4 4 ≡ 10000
unfolding drain_at drain_loop sorted_slots insert in_window
slides_at_ten = refl

waits_four_seconds : evaluate counts 4 5000 6500 ≡ record { throttled = true; retry_after = 4 }
unfolding evaluate refuse window_sum sum_slots in_window drain_at drain_loop sorted_slots insert
    slot_duration
waits_four_seconds = refl

evaluate_after_waiting_example :
    (1 ≤ (evaluate counts 4 5000 6500).retry_after) × (evaluate counts 4 5000 10500 ≡ allowed)
evaluate_after_waiting_example =
    evaluate_after_waiting counts 4 5000 6500 10500 counts-Placed_now (rw waits_four_seconds refl)
      (rw waits_four_seconds (omega arith))

abbrev table : Ip.State
table = record { entries = (9, counts) ∷ []; last_prune = 6400 }

found : (w : Window) (ip : ℕ) → Table.find Ip.address_key ip table.entries ≡ some w → w ≡ counts
unfolding Table.find
found w ip e =
    elim (ip == 9) as (λ b. (if b then some counts else none) ≡ some w → w ≡ counts) [
      | true ↦ λ h. ground arith
      | false ↦ λ h. ground arith
    ]
      e

table-Valid : Valid cfg 6500 table
unfolding Table.find
table-Valid = record {
  unique = more refl nothing;
  bounded = omega arith;
  placed = λ ip w e. rw (found w ip e) counts-Placed_now;
}

check-failures_example :
    ((Ip.check cfg 9 6500 table).0.throttled ≡ true)
    ↔ ((◌≢◌ {A = ℕ} 9 0) × (Ip.limit cfg ≤ failures cfg 9 6500 table))
check-failures_example = check-failures cfg 9 6500 table

refused : (Ip.check cfg 9 6500 table).0 ≡ record { throttled = true; retry_after = 4 }
unfolding Ip.check Ip.limit Table.find evaluate refuse window_sum sum_slots in_window drain_at
    drain_loop sorted_slots insert slot_duration
refused = refl

check_after_slide_example :
    (1 ≤ (Ip.check cfg 9 6500 table).0.retry_after)
    × ((Ip.check cfg 9 10500 (Ip.check cfg 9 6500 table).1).0.throttled ≡ false)
check_after_slide_example =
    check_after_slide cfg 9 6500 10500 table table-Valid (rw refused refl)
      (rw refused (omega arith))

nine_known : ◌≢◌ {A = ℕ} 9 0
nine_known h = omega (arith, h)

on_failure-failures_example :
    failures cfg 9 6500 (Ip.on_failure cfg 9 6500 table) ≡ suc (failures cfg 9 6500 table)
on_failure-failures_example =
    on_failure-failures cfg 9 6500 table nine_known table-Valid (inl (omega arith))
      (λ w e i h. rw (found w 9 e) (ground arith))

abbrev reg_cfg : RegConfig
reg_cfg = record {
  ip_max = 2;
  ip_window = 5000;
  global_max = 4;
  global_window = 5000;
  reg_entries = 10;
}

abbrev process : Reg.State
process = record { global_window = counts; entries = []; last_prune = 0 }

on_attempt-global_example :
    window_sum (Reg.on_attempt reg_cfg 9 6500 process).global_window (slice 5000 6500)
    ≡ suc (window_sum counts (slice 5000 6500))
on_attempt-global_example =
    on_attempt-global reg_cfg 9 6500 process (omega arith) counts-Placed_now (λ i h. ground arith)

check-refuses_example :
    (((Reg.check reg_cfg 9 6500 process).0.decision.throttled ≡ true)
      ↔ (ProcessFull reg_cfg 6500 process ⊎ AddressFull reg_cfg 6500 9 process))
    × (((Reg.check reg_cfg 9 6500 process).0.global ≡ true) ↔ ProcessFull reg_cfg 6500 process)
check-refuses_example = check-refuses reg_cfg 9 6500 process
