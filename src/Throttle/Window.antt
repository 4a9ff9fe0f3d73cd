-- ===== src/Throttle/Window.antt =====
-- The sliding window that IpThrottle and RegThrottle count in: five slots, used in turn.
pub mod Sum
pub mod Drain
pub mod Decide
use russia_tetris.Base.{
  ℕ, zero, suc, ◌+◌, ◌-◌, ◌*◌, ◌/◌, ◌%◌, ◌≡◌, List, [], ◌∷◌, Bool, true, false, ◌&&◌, ltb, leb,
  ◌==◌, if◌then◌else◌,
}
use russia_tetris.Throttle.Auth.{Decision, allowed, seconds}

-- `bucket` is the number of the time slice that `count` belongs to.
pub record Slot : Type 0 where
  pub bucket : ℕ
  pub count : ℕ

-- The slots 0 to 4.
abbrev pub Window : Type 0
Window = ℕ → Slot

abbrev pub new_window : Window
new_window i = record { bucket = 0; count = 0 }

-- The two throttles read a point of time to the millisecond.
abbrev pub now_ms : ℕ → ℕ
now_ms now = now / 1000000

-- max(1, windowMs / kSlots)
unfoldable pub slot_duration : ℕ → ℕ
slot_duration window = if ltb (window / 5) 1 then 1 else window / 5

-- slot.bucket <= curBucket && curBucket - slot.bucket < kSlots
unfoldable pub in_window : Slot → ℕ → Bool
in_window s cur = leb s.bucket cur && ltb (cur - s.bucket) 5

unfoldable pub sum_slots : ℕ → Window → ℕ → ℕ
unfolding in_window
sum_slots zero w cur = 0
sum_slots (suc i) w cur = (if in_window (w i) cur then (w i).count else 0) + sum_slots i w cur

unfoldable pub window_sum : Window → ℕ → ℕ
unfolding sum_slots
window_sum w cur = sum_slots 5 w cur

-- One step of the insertion sort.
unfoldable pub insert : Slot → List Slot → List Slot
insert s [] = s ∷ []
insert s (t ∷ ts) = let rest = insert s ts in if ltb s.bucket t.bucket then s ∷ t ∷ ts else t ∷ rest

-- The slots of the window that hold a count, by their buckets.
unfoldable pub sorted_slots : ℕ → Window → ℕ → List Slot
unfolding insert in_window
sorted_slots zero w cur = []
sorted_slots (suc i) w cur =
    let rest = sorted_slots i w cur in
    if (w i).count == 0 then rest else if in_window (w i) cur then insert (w i) rest else rest

-- The loop that takes the oldest slots away. `acc` is their sum, so nothing is taken from too little.
unfoldable pub drain_loop : List Slot → ℕ → ℕ → ℕ → ℕ → ℕ
drain_loop [] acc limit slot_ms cur = (cur + 1) * slot_ms
drain_loop (s ∷ ss) acc limit slot_ms cur =
    let rest = drain_loop ss (acc - s.count) limit slot_ms cur in
    if ltb (acc - s.count) limit then (s.bucket + 5) * slot_ms else rest

-- When the count falls below `limit`, in milliseconds; `limit` is max(1, ...) of the source.
unfoldable pub drain_at : Window → ℕ → ℕ → ℕ → ℕ → ℕ
unfolding sorted_slots drain_loop
drain_at w cur slot_ms total limit = drain_loop (sorted_slots 5 w cur) total limit slot_ms cur

-- ++slot.count, up to UINT32_MAX.
unfoldable pub bump : Window → ℕ → Window
bump w cur i =
    if i == cur % 5
    then (let old = if (w i).bucket == cur then (w i).count else 0 in
        record { bucket = cur; count = if ltb old 4294967295 then suc old else old })
    else w i

-- ms / slotMs
abbrev pub slice : ℕ → ℕ → ℕ
slice window now = now / slot_duration window

-- The refusal, with the time until the count has fallen below the limit.
unfoldable pub refuse : Window → ℕ → ℕ → ℕ → Decision
unfolding drain_at
refuse w window limit now =
    let cur = slice window now in
    let at = drain_at w cur (slot_duration window) (window_sum w cur) limit in
    record { throttled = true; retry_after = seconds (at - now) }

-- `evaluate`: at or above the limit the answer is a refusal; no limit refuses nothing.
unfoldable pub evaluate : Window → ℕ → ℕ → ℕ → Decision
unfolding refuse window_sum
evaluate w limit window now =
    if limit == 0
    then allowed
    else if ltb (window_sum w (slice window now)) limit
    then allowed
    else refuse w window limit now
