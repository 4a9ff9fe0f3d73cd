-- ===== src/Throttle/Reg.antt =====
-- RegThrottle: registrations are limited for an address and for the whole process.
pub mod Limits
pub mod Decides
use russia_tetris.Base.{
  ℕ, zero, suc, ◌+◌, ◌-◌, ◌*◌, ◌≡◌, List, [], ◌∷◌, length, Bool, true, false, ◌&&◌, ◌||◌, ltb, leb,
  ◌==◌, if◌then◌else◌, Option, none, some,
}
use russia_tetris.Throttle.Env.{RegConfig}
use russia_tetris.Throttle.Table
use russia_tetris.Throttle.Auth.{Decision, allowed}
use russia_tetris.Throttle.Window.{Window, new_window, slice, window_sum, bump, evaluate}
use russia_tetris.Throttle.Ip.{address_key}

-- `globalWindow()`, `entries()` and `gLastPrune`.
pub record State : Type 0 where
  pub global_window : Window
  pub entries : List (ℕ × Window)
  pub last_prune : ℕ

-- A decision, and whether the limit of the process made it.
pub record Answer : Type 0 where
  pub decision : Decision
  pub global : Bool

abbrev pub accepted : Answer
accepted = record { decision = allowed; global = false }

unfoldable pub check_address : RegConfig → ℕ → ℕ → State → Answer × State
check_address cfg ip now s =
    if ip == 0 || cfg.ip_max == 0
    then (accepted, s)
    else elim (Table.find address_key ip s.entries) [
      | none ↦ (accepted, s)
      | some w ↦
          if window_sum w (slice cfg.ip_window now) == 0
          then (accepted, record s { entries = Table.erase address_key ip s.entries })
          else (record { decision = evaluate w cfg.ip_max cfg.ip_window now; global = false }, s)
    ]

-- The limit of the process comes first.
unfoldable pub check : RegConfig → ℕ → ℕ → State → Answer × State
unfolding check_address
check cfg ip now s =
    let d = evaluate s.global_window cfg.global_max cfg.global_window now in
    if ltb 0 cfg.global_max && d.throttled
    then (record { decision = d; global = true }, s)
    else check_address cfg ip now s

unfoldable pub prune : RegConfig → ℕ → State → State
prune cfg now s =
    if leb (s.last_prune + 1000) now || leb cfg.reg_entries (length s.entries)
    then record s {
      entries =
          Table.erase_if address_key (λ w. window_sum w (slice cfg.ip_window now) == 0) s.entries;
      last_prune = now;
    }
    else s

unfoldable pub record_attempt : RegConfig → ℕ → ℕ → Window → State → State
record_attempt cfg ip now w s = record s {
  entries = Table.put address_key ip (bump w (slice cfg.ip_window now)) s.entries;
}

unfoldable pub attempt_address : RegConfig → ℕ → ℕ → State → State
unfolding prune record_attempt
attempt_address cfg ip now s =
    let p = prune cfg now s in
    if ip == 0 || cfg.ip_max == 0 then s else elim (Table.find address_key ip p.entries) [
      | none ↦
          if leb cfg.reg_entries (length p.entries)
          then p
          else record_attempt cfg ip now new_window p
      | some w ↦ record_attempt cfg ip now w p
    ]

unfoldable pub attempt_process : RegConfig → ℕ → State → State
attempt_process cfg now s =
    if ltb 0 cfg.global_max
    then record s { global_window = bump s.global_window (slice cfg.global_window now) }
    else s

unfoldable pub on_attempt : RegConfig → ℕ → ℕ → State → State
unfolding attempt_process attempt_address
on_attempt cfg ip now s = attempt_address cfg ip now (attempt_process cfg now s)
