-- ===== src/Tests/Throttle.antt =====
-- A name that failed six times, an address and a process at their limits.
use russia_tetris.Base.{
  same_text, ℕ, ◌+◌, ◌*◌, ◌%◌, ◌≤◌, ◌<◌, ◌≡◌, ◌≢◌, ◌⊎◌, inl, refl, ℤ, pos, List, [], ◌∷◌, length,
  true, Option, none, some, arith,
}
use russia_tetris.Throttle.Env.{default_auth, Variable, auth_config, auth_config_range}
use russia_tetris.Throttle.Table
use russia_tetris.Throttle.Table.{nothing, more}
use russia_tetris.Throttle.Auth
use russia_tetris.Throttle.Auth.{Entry, Decision, allowed, seconds, normalize, delay_for, text_key}
use russia_tetris.Throttle.Auth.Delay.{delay_for_range}
use russia_tetris.Throttle.Auth.Counts.{live, failures_of, decision, check-decision, check-live}
use russia_tetris.Throttle.Auth.Failure.{failed_entry, on_failure-counts}
use russia_tetris.Throttle.Auth.Wait.{check_after_delay, one_more}
use russia_tetris.Throttle.Auth.Runs.{
  no_names, Reached, start, asked, failed, succeeded, Reached-bounds,
}

abbrev anna : List ℕ
anna = 97 ∷ 110 ∷ 110 ∷ 97 ∷ []

abbrev bert : List ℕ
bert = 98 ∷ 101 ∷ []

abbrev six_failures : Auth.State
six_failures = record {
  entries =
      (anna, record { failures = 6; last_failure = 1000000000; next_allowed = 2000000000 }) ∷ [];
  last_prune = 1000000000;
}

six_failures-Valid : Auth.Counts.Valid default_auth six_failures
unfolding Table.find
six_failures-Valid = record { unique = more refl nothing; bounded = omega arith }

anna_named : 0 < length (normalize anna)
unfolding normalize
anna_named = omega arith

-- The delay of two seconds after the seventh one.
abbrev seven_failures : Auth.State
seven_failures = record {
  entries =
      (anna, record { failures = 7; last_failure = 1000000000; next_allowed = 3000000000 }) ∷ [];
  last_prune = 1000000000;
}

-- With 1000.5 milliseconds left a second is told, and after it one more.
anna_waits :
    Auth.check default_auth anna 1999500000 seven_failures
    ≡ (record { throttled = true; retry_after = 1 }, seven_failures)
unfolding Auth.check normalize Table.find same_text Auth.expired text_key
anna_waits = refl

anna_waits_again :
    (Auth.check default_auth anna 2999500000 seven_failures).0
    ≡ record { throttled = true; retry_after = 1 }
unfolding Auth.check normalize Table.find same_text Auth.expired text_key
anna_waits_again = refl

check_after_delay_example :
    (1 ≤ (Auth.check default_auth anna 1999500000 seven_failures).0.retry_after)
    × (((Auth.check default_auth anna 3000500000
            (Auth.check default_auth anna 1999500000 seven_failures).1).0
          ≡ allowed)
        ⊎ ((Auth.check default_auth anna 3000500000
              (Auth.check default_auth anna 1999500000 seven_failures).1).0
            ≡ one_more))
    × (1999500000
            + 1000000000 * (Auth.check default_auth anna 1999500000 seven_failures).0.retry_after
            + 1000000
          ≤ 3000500000
        → (Auth.check default_auth anna 3000500000
            (Auth.check default_auth anna 1999500000 seven_failures).1).0
          ≡ allowed)
check_after_delay_example =
    check_after_delay default_auth anna 1999500000 3000500000 seven_failures anna_named
      (rw anna_waits refl) (rw anna_waits (omega arith))

-- Two failures, a question, and a success of another name.
abbrev some_day : Auth.State
some_day =
    Auth.on_success bert
      (Auth.check default_auth anna 9000000 (
        Auth.on_failure default_auth anna 8000000
          (Auth.on_failure default_auth anna 7000000 no_names))).1

some_day-Reached : Reached default_auth 9000000 some_day
some_day-Reached = succeeded bert (
    asked anna 9000000 (omega arith)
      (failed anna 8000000 (omega arith) (failed anna 7000000 (omega arith) (start 6000000))))

Reached-bounds_example :
    (length some_day.entries ≤ 20000)
    × ((name : List ℕ) (later : ℕ)
        → 9000000 ≤ later
        → (Auth.check default_auth name later some_day).0.retry_after ≤ seconds 30000)
Reached-bounds_example = Reached-bounds some_day-Reached

on_failure-counts_example :
    Table.find text_key
      (normalize anna)
      (Auth.on_failure default_auth anna 2500000000 six_failures).entries
    ≡ some (
        failed_entry default_auth 2500000000
          (failures_of (live default_auth 2500000000 (normalize anna) six_failures)))
on_failure-counts_example =
    on_failure-counts default_auth anna 2500000000 six_failures six_failures-Valid anna_named
      (inl (omega arith))

bert_is_other : bert ≢ normalize anna
unfolding normalize
bert_is_other h = ground arith

delay_for_range_example :
    (7 ≤ 5) × (delay_for default_auth 7 ≡ 0)
    ⊎ (5 < 7)
      × (1000 ≤ delay_for default_auth 7)
      × (delay_for default_auth 7 ≤ delay_for default_auth 9)
      × (delay_for default_auth 9 ≤ 30000)
delay_for_range_example = delay_for_range default_auth 7 9 (omega arith) (omega arith)

two_seconds : delay_for default_auth 7 ≡ 2000
unfolding delay_for Auth.shift_left
two_seconds = refl

-- An environment that sets one variable, and a reader of one digit.
abbrev digit : List ℕ → ℤ × List ℕ
digit [] = (pos 0, [])
digit (c ∷ cs) = (pos (c % 48), cs)

abbrev environment : Variable → Option (List ℕ)
environment Variable.auth_free_attempts = some (51 ∷ [])
environment _ = none

auth_config_range_example :
    (1 ≤ (auth_config environment digit).base_delay)
    × ((auth_config environment digit).base_delay ≤ 3600000)
    × ((auth_config environment digit).base_delay ≤ (auth_config environment digit).max_delay)
    × ((auth_config environment digit).max_delay ≤ 86400000)
    × ((auth_config environment digit).free_attempts ≤ 1000)
    × (1000 ≤ (auth_config environment digit).entry_ttl)
    × (1 ≤ (auth_config environment digit).max_entries)
auth_config_range_example = auth_config_range environment digit
