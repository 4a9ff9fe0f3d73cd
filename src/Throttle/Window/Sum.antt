-- ===== src/Throttle/Window/Sum.antt =====
-- What a bump adds to the window, and how counts leave it.
use russia_tetris.Base.{
  ℕ, zero, suc, ◌%◌, ◌≤◌, ◌<◌, ◌≡◌, refl, ◌⊎◌, inr, true, arith, ◌==◌, ℕ_discrete, ==_false, ==_iff,
}
use russia_tetris.Throttle.Window.{Window, new_window, in_window, sum_slots, window_sum, bump}

-- A slot that holds a count has the place of its bucket, and no bucket lies after `cur`.
pub record Placed (w : Window) (cur : ℕ) : Type 0 where
  pub place : (i : ℕ) → i < 5 → ((w i).bucket % 5 ≡ i) ⊎ ((w i).count ≡ 0)
  pub past : (i : ℕ) → i < 5 → (w i).bucket ≤ cur

pub new-Placed : (cur : ℕ) → Placed new_window cur
new-Placed cur = record { place = λ i h. inr refl; past = λ i h. omega arith }

pub bump-Placed :
    (w : Window) (cur next : ℕ) → cur ≤ next → Placed w cur → Placed (bump w next) next
unfolding bump
bump-Placed w cur next h p = record {
  place = λ i hi. ground (arith, p.place i hi);
  past = λ i hi. ground (arith, p.past i hi);
}

pub Placed-later : (w : Window) (cur later : ℕ) → cur ≤ later → Placed w cur → Placed w later
Placed-later w cur later h p = record { place = p.place; past = λ i hi. omega (arith, p.past i hi) }

sum_other :
    (n : ℕ) (w : Window) (cur : ℕ) → n ≤ cur % 5 → sum_slots n (bump w cur) cur ≡ sum_slots n w cur
unfolding sum_slots bump
sum_other zero w cur h = refl
sum_other (suc i) w cur h =
    rw (==_false i (cur % 5) (omega arith)) (omega (arith, sum_other i w cur (omega arith)))

-- The slot that a bump changes: what the window counted in it before is its count, or it was out.
sum_here :
    (w : Window) (cur : ℕ) (n : ℕ)
    → Placed w cur
    → n ≤ 5
    → cur % 5 < n
    → (w (cur % 5)).count < 4294967295
    → sum_slots n (bump w cur) cur ≡ suc (sum_slots n w cur)
unfolding sum_slots bump in_window
sum_here w cur zero p le h small = absurd (omega arith)
sum_here w cur (suc i) p le h small = elim (ℕ_discrete i (cur % 5)) [
  | yes e ↦
      let small' : (w i).count < 4294967295 = rw e small in
      let others = sum_other i w cur (omega arith) in
      let there : (i == cur % 5) ≡ true = (==_iff i (cur % 5)).1 e in
      rw there (ground (arith, p.place i (omega arith), p.past i (omega arith), small', others, e))
  | no ne ↦
      rw (==_false i (cur % 5) ne)
        (omega (arith, sum_here w cur i p (omega arith) (omega arith) small))
]

-- Unless its slot is at the greatest count, a bump adds one to the window.
pub window_sum-bump :
    (w : Window) (cur : ℕ)
    → Placed w cur
    → (w (cur % 5)).count < 4294967295
    → window_sum (bump w cur) cur ≡ suc (window_sum w cur)
unfolding window_sum
window_sum-bump w cur p small = sum_here w cur 5 p (omega arith) (omega arith) small

sum_later :
    (n : ℕ) (w : Window) (cur later : ℕ)
    → n ≤ 5
    → Placed w cur
    → cur ≤ later
    → sum_slots n w later ≤ sum_slots n w cur
unfolding sum_slots in_window
sum_later zero w cur later le p h = omega arith
sum_later (suc i) w cur later le p h =
    ground (arith, sum_later i w cur later (omega arith) p h, p.past i (omega arith))

-- With time, and no bump, the count of the window only falls.
pub window_sum_later :
    (w : Window) (cur later : ℕ)
    → Placed w cur
    → cur ≤ later
    → window_sum w later ≤ window_sum w cur
unfolding window_sum
window_sum_later w cur later p h = sum_later 5 w cur later (omega arith) p h

pub new-window_sum : (cur : ℕ) → window_sum new_window cur ≡ 0
unfolding window_sum sum_slots
new-window_sum cur = ground arith
