-- ===== src/Throttle/Window/Drain.antt =====
-- When the count of a window falls below a limit.
use russia_tetris.Base.{
  ℕ, zero, suc, ◌+◌, ◌-◌, ◌*◌, ◌≤◌, ◌<◌, ◌≡◌, refl, sym, inl, inr, List, [], ◌∷◌, Bool-cases, arith,
  ltb, ◌==◌, if◌then◌else◌, ltb→lt, ltb_false→le,
}
use russia_tetris.Throttle.Window.{
  Slot, Window, in_window, sum_slots, window_sum, insert, sorted_slots, drain_loop, drain_at,
}
use russia_tetris.Throttle.Window.Sum.{Placed}

-- The counts of the buckets after `b`, and all counts.
newer : ℕ → List Slot → ℕ
newer b [] = 0
newer b (s ∷ ss) = (if ltb b s.bucket then s.count else 0) + newer b ss

total : List Slot → ℕ
total [] = 0
total (s ∷ ss) = s.count + total ss

-- Sorted, from bucket `low` on.
data From : ℕ → List Slot → Type 0 where
  nothing_from : {low : ℕ} → From low []
  next_from :
      {low : ℕ} {s : Slot} {ss : List Slot} → low ≤ s.bucket → From s.bucket ss → From low (s ∷ ss)

newer-le-total : (b : ℕ) (ss : List Slot) → newer b ss ≤ total ss
unfolding newer total
newer-le-total b [] = omega arith
newer-le-total b (s ∷ ss) = ground (arith, newer-le-total b ss)

newer-insert :
    (b : ℕ) (s : Slot) (ss : List Slot)
    → newer b (insert s ss) ≡ (if ltb b s.bucket then s.count else 0) + newer b ss
unfolding newer insert
newer-insert b s [] = refl
newer-insert b s (t ∷ ts) = ground (arith, newer-insert b s ts)

total-insert : (s : Slot) (ss : List Slot) → total (insert s ss) ≡ s.count + total ss
unfolding total insert
total-insert s [] = refl
total-insert s (t ∷ ts) = ground (arith, total-insert s ts)

insert-From :
    (low : ℕ) (s : Slot) (ss : List Slot) → low ≤ s.bucket → From low ss → From low (insert s ss)
unfolding insert
insert-From low s [] h f = next_from h nothing_from
insert-From low s (t ∷ ts) h (next_from le f) = elim (Bool-cases (ltb s.bucket t.bucket)) [
  | inl e ↦ rw e (next_from h (next_from (omega (arith, ltb→lt s.bucket t.bucket e)) f))
  | inr e ↦ rw e (next_from le (insert-From t.bucket s ts (ltb_false→le s.bucket t.bucket e) f))
]

-- The oldest bucket that is in the window at `cur`.
abbrev oldest : ℕ → ℕ
oldest cur = cur - 4

sorted-From : (n : ℕ) (w : Window) (cur : ℕ) → From (oldest cur) (sorted_slots n w cur)
unfolding sorted_slots in_window
sorted-From zero w cur = nothing_from
sorted-From (suc i) w cur = elim (Bool-cases ((w i).count == 0)) [
  | inl e ↦ rw e (sorted-From i w cur)
  | inr e ↦ rw e (elim (Bool-cases (in_window (w i) cur)) [
    | inl x ↦ rw x (
        insert-From (oldest cur) (w i) (sorted_slots i w cur) (ground (arith, x))
          (sorted-From i w cur))
    | inr x ↦ rw x (sorted-From i w cur)
  ])
]

total-sorted : (n : ℕ) (w : Window) (cur : ℕ) → total (sorted_slots n w cur) ≡ sum_slots n w cur
unfolding sorted_slots sum_slots total
total-sorted zero w cur = refl
total-sorted (suc i) w cur =
    ground (arith, total-sorted i w cur, total-insert (w i) (sorted_slots i w cur))

-- Five slices after bucket `b` only the buckets after it count.
newer-sorted :
    (n : ℕ) (w : Window) (cur b : ℕ)
    → n ≤ 5
    → Placed w cur
    → cur < b + 5
    → sum_slots n w (b + 5) ≤ newer b (sorted_slots n w cur)
unfolding sorted_slots sum_slots in_window newer
newer-sorted zero w cur b le p h = omega arith
newer-sorted (suc i) w cur b le p h = ground (
  arith,
  newer-sorted i w cur b (omega arith) p h,
  p.past i (omega arith),
  newer-insert b (w i) (sorted_slots i w cur),
)

-- `all` is what the loop began with, `ss` what it has left: what it took away is not newer than `low`.
drain_loop-below :
    (all : List Slot) (limit slot_ms cur : ℕ) (ss : List Slot) (acc low : ℕ)
    → From low ss
    → acc ≡ total ss
    → limit ≤ acc
    → 0 < limit
    → ((b : ℕ) → low ≤ b → newer b all ≤ newer b ss)
    → (b : ℕ) × (drain_loop ss acc limit slot_ms cur ≡ (b + 5) * slot_ms)
      × (low ≤ b)
      × (newer b all < limit)
unfolding drain_loop newer total
drain_loop-below all limit slot_ms cur [] acc low f e enough some_limit left =
    absurd (omega (arith, e))
drain_loop-below all limit slot_ms cur (s ∷ ss) acc low (next_from le f) e enough some_limit left =
    let rest : acc - s.count ≡ total ss = omega (arith, e) in
    elim (Bool-cases (ltb (acc - s.count) limit)) [
      | inl x ↦ (
        s.bucket,
        rw x refl,
        le,
        ground (
          arith,
          left s.bucket le,
          newer-le-total s.bucket ss,
          rest,
          ltb→lt (acc - s.count) limit x,
        ),
      )
      | inr x ↦
          let next =
            drain_loop-below all limit slot_ms cur ss (acc - s.count) s.bucket f rest
              (ltb_false→le (acc - s.count) limit x) some_limit
              (λ b h. ground (arith, left b (omega (arith, le)))) in
          (next.0, rw x next.1, omega (arith, le, next.2), next.3)
    ]

-- When the limit is reached, `drain_at` is the start of a later time slice, and with no more counts
-- the window is below the limit then.
pub drain_at-below :
    (w : Window) (cur slot_ms limit : ℕ)
    → Placed w cur
    → 0 < limit
    → limit ≤ window_sum w cur
    → (b : ℕ) × (drain_at w cur slot_ms (window_sum w cur) limit ≡ b * slot_ms)
      × (cur < b)
      × (window_sum w b < limit)
unfolding drain_at window_sum
drain_at-below w cur slot_ms limit p some_limit enough =
    let ss = sorted_slots 5 w cur in
    let d =
      drain_loop-below ss limit slot_ms cur ss (window_sum w cur) (oldest cur) (sorted-From 5 w cur)
        (sym (total-sorted 5 w cur)) enough some_limit (λ b h. omega arith) in
    let later : cur < d.0 + 5 = omega (arith, d.2) in
    (d.0 + 5, d.1, later, omega (arith, d.3, newer-sorted 5 w cur d.0 (omega arith) p later))
