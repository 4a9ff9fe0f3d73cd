-- ===== src/Throttle/Ip.antt =====
-- IpThrottle: too many failed logins from one address within the window refuse further ones.
pub mod Counts
pub mod Wait
use russia_tetris.Base.{
  ℕ, zero, suc, ◌+◌, ◌-◌, ◌*◌, ◌≡◌, List, [], ◌∷◌, length, Bool, true, false, ◌&&◌, ltb, leb, ◌==◌,
  ==_iff, if◌then◌else◌, Option, none, some,
}
use russia_tetris.Throttle.Env.{IpConfig}
use russia_tetris.Throttle.Table
use russia_tetris.Throttle.Table.{Key}
use russia_tetris.Throttle.Auth.{Decision, allowed}
use russia_tetris.Throttle.Window.{Window, new_window, slice, window_sum, bump, refuse}

-- `entries()` and `gLastPrune`; an address is a number of 32 bits, 0 when it is not known.
pub record State : Type 0 where
  pub entries : List (ℕ × Window)
  pub last_prune : ℕ

abbrev pub address_key : Key ℕ
address_key = record { same = ◌==◌; same_iff = ==_iff }

-- The window holds no count.
abbrev pub drained : IpConfig → ℕ → Window → Bool
drained cfg now w = window_sum w (slice cfg.window now) == 0

unfoldable pub prune_if_needed : IpConfig → ℕ → State → State
prune_if_needed cfg now s =
    if ltb now (s.last_prune + 1000) && ltb (length s.entries) cfg.ip_entries then s else record {
      entries = Table.erase_if address_key (drained cfg now) s.entries;
      last_prune = now;
    }

-- max(1, maxFailures)
unfoldable pub limit : IpConfig → ℕ
limit cfg = if ltb cfg.max_failures 1 then 1 else cfg.max_failures

unfoldable pub check : IpConfig → ℕ → ℕ → State → Decision × State
unfolding limit
check cfg ip now s = if ip == 0 then (allowed, s) else elim (Table.find address_key ip s.entries) [
  | none ↦ (allowed, s)
  | some w ↦
      if drained cfg now w
      then (allowed, record s { entries = Table.erase address_key ip s.entries })
      else if ltb (window_sum w (slice cfg.window now)) (limit cfg)
      then (allowed, s)
      else (refuse w cfg.window (limit cfg) now, s)
]

-- The count goes to the slot of the current time slice.
unfoldable pub record_failure : IpConfig → ℕ → ℕ → Window → State → State
record_failure cfg ip now w s = record s {
  entries = Table.put address_key ip (bump w (slice cfg.window now)) s.entries;
}

unfoldable pub on_failure : IpConfig → ℕ → ℕ → State → State
unfolding prune_if_needed record_failure
on_failure cfg ip now s =
    let p = prune_if_needed cfg now s in
    if ip == 0 then s else elim (Table.find address_key ip p.entries) [
      | none ↦
          if leb cfg.ip_entries (length p.entries)
          then p
          else record_failure cfg ip now new_window p
      | some w ↦ record_failure cfg ip now w p
    ]
