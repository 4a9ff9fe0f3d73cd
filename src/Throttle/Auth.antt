-- ===== src/Throttle/Auth.antt =====
-- AuthThrottle: after some failed logins of a name the next one has to wait.
pub mod Delay
pub mod Counts
pub mod Failure
pub mod Wait
pub mod Runs
use russia_tetris.Base.{
  ℕ, zero, suc, ◌+◌, ◌-◌, ◌*◌, ◌/◌, ◌≡◌, refl, arith, List, [], ◌∷◌, length, take, Bool, true,
  false, not, ◌&&◌, ltb, leb, ◌==◌, if◌then◌else◌, Option, none, some, same_text, same_text_self,
  same_text_eq,
}
use russia_tetris.Throttle.Env.{AuthConfig}
use russia_tetris.Throttle.Table
use russia_tetris.Throttle.Table.{Key}

-- Points of time are whole nanoseconds, as those of `steady_clock`; the configuration has milliseconds.
pub record Entry : Type 0 where
  pub failures : ℕ
  pub last_failure : ℕ
  pub next_allowed : ℕ

-- `retry_after` is in seconds.
pub record Decision : Type 0 where
  pub throttled : Bool
  pub retry_after : ℕ

abbrev pub allowed : Decision
allowed = record { throttled = false; retry_after = 0 }

-- The statics of the class: `entries()` and `gLastPrune`.
pub record State : Type 0 where
  pub entries : List (List ℕ × Entry)
  pub last_prune : ℕ

-- At most 64 bytes of a name.
unfoldable pub normalize : List ℕ → List ℕ
normalize name = if leb (length name) 64 then name else take 64 name

-- n << k
unfoldable pub shift_left : ℕ → ℕ → ℕ
shift_left n zero = n
shift_left n (suc k) = shift_left n k * 2

-- `failures - freeAttempts - 1` is not negative where it is used.
unfoldable pub delay_for : AuthConfig → ℕ → ℕ
delay_for cfg failures =
    let exponent = failures - cfg.free_attempts - 1 in
    let delay = shift_left cfg.base_delay (if ltb 30 exponent then 30 else exponent) in
    if leb failures cfg.free_attempts
    then 0
    else if ltb cfg.max_delay delay
    then cfg.max_delay
    else delay

-- now - lastFailure >= std::chrono::milliseconds(entryTtlMs)
unfoldable pub expired : AuthConfig → ℕ → Entry → Bool
expired cfg now e = leb (e.last_failure + 1000000 * cfg.entry_ttl) now

-- Names are compared byte by byte.
unfoldable pub text_key : Key (List ℕ)
text_key = record {
  same = same_text;
  same_iff = λ a b. (same_text_eq a b, λ e. rw e (same_text_self b));
}

unfoldable pub prune_if_needed : AuthConfig → ℕ → State → State
unfolding expired
prune_if_needed cfg now s =
    if ltb now (s.last_prune + 1000000000) && ltb (length s.entries) cfg.max_entries
    then s
    else record { entries = Table.erase_if text_key (expired cfg now) s.entries; last_prune = now }

-- (remainMs + 999) / 1000, and 1 at least. `remainMs` is what `duration_cast` has cut off.
abbrev pub seconds : ℕ → ℕ
seconds remain = if ltb ((remain + 999) / 1000) 1 then 1 else (remain + 999) / 1000

unfoldable pub check : AuthConfig → List ℕ → ℕ → State → Decision × State
unfolding normalize expired
check cfg username now s =
    let key = normalize username in
    if length key == 0 then (allowed, s) else elim (Table.find text_key key s.entries) [
      | none ↦ (allowed, s)
      | some e ↦
          if expired cfg now e
          then (allowed, record s { entries = Table.erase text_key key s.entries })
          else if ltb now e.next_allowed
          then (
            record { throttled = true; retry_after = seconds ((e.next_allowed - now) / 1000000) },
            s,
          )
          else (allowed, s)
    ]

-- The end of `onFailure`, the entry having `failures` so far.
unfoldable pub record_failure : AuthConfig → List ℕ → ℕ → ℕ → State → State
unfolding delay_for
record_failure cfg key now failures s = record s {
  entries =
      Table.put text_key key
        (record {
          failures = suc failures;
          last_failure = now;
          next_allowed = now + 1000000 * delay_for cfg (suc failures);
        })
        s.entries;
}

unfoldable pub track : AuthConfig → List ℕ → ℕ → State → State
unfolding record_failure expired
track cfg key now s = elim (Table.find text_key key s.entries) [
  | none ↦ if leb cfg.max_entries (length s.entries) then s else record_failure cfg key now 0 s
  | some e ↦
      record_failure cfg key now (if ltb 0 e.failures && expired cfg now e then 0 else e.failures) s
]

unfoldable pub on_failure : AuthConfig → List ℕ → ℕ → State → State
unfolding normalize prune_if_needed track
on_failure cfg username now s =
    let key = normalize username in
    if length key == 0 then s else track cfg key now (prune_if_needed cfg now s)

unfoldable pub on_success : List ℕ → State → State
unfolding normalize
on_success username s =
    let key = normalize username in
    if length key == 0 then s else record s { entries = Table.erase text_key key s.entries }
