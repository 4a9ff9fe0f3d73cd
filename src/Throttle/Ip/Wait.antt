-- ===== src/Throttle/Ip/Wait.antt =====
-- What a failure adds for an address, and how long a refused one has to wait.
use russia_tetris.Base.{
  ℕ, suc, ◌+◌, ◌*◌, ◌%◌, ◌≤◌, ◌<◌, ◌≡◌, ◌≢◌, refl, sym, ap, ◌∙◌, ◌⊎◌, inl, inr, length, true, false,
  Bool-cases, none, some, Option-cases, arith, ltb, leb, ◌==◌, ==_false, ◌&&◌, ltb_false→le,
}
use russia_tetris.Throttle.Env.{IpConfig}
use russia_tetris.Throttle.Table
use russia_tetris.Throttle.Auth.{Decision, allowed}
use russia_tetris.Throttle.Window.{Window, new_window, slice, window_sum, bump, refuse}
use russia_tetris.Throttle.Window.Sum.{Placed, new-Placed, window_sum-bump, new-window_sum}
use russia_tetris.Throttle.Window.Decide.{refuse_long_enough}
use russia_tetris.Throttle.Ip.{
  State, address_key, drained, prune_if_needed, limit, check, record_failure, on_failure,
}
use russia_tetris.Throttle.Ip.Counts.{
  sum_of, failures, Valid, limit_positive, check-failures, prune-find, prune-Valid,
}

-- No slot of the window is at the greatest count.
abbrev pub Unsaturated : Window → Type 0
Unsaturated w = (i : ℕ) → i < 5 → (w i).count < 4294967295

record-failures :
    (cfg : IpConfig) (ip now : ℕ) (w : Window) (s : State)
    → Placed w (slice cfg.window now)
    → Unsaturated w
    → failures cfg ip now (record_failure cfg ip now w s)
      ≡ suc (window_sum w (slice cfg.window now))
unfolding failures record_failure sum_of
record-failures cfg ip now w s p small =
    let cur = slice cfg.window now in
    rw (Table.find-put address_key ip (bump w cur) s.entries)
      (window_sum-bump w cur p (small (cur % 5) (omega arith)))

prune_length :
    (cfg : IpConfig) (now : ℕ) (s : State)
    → length (prune_if_needed cfg now s).entries ≤ length s.entries
unfolding prune_if_needed
prune_length cfg now s =
    elim (Bool-cases (ltb now (s.last_prune + 1000) && ltb (length s.entries) cfg.ip_entries)) [
      | inl e ↦ rw e (omega arith)
      | inr e ↦ rw e (Table.length-erase_if address_key (drained cfg now) s.entries)
    ]

module _ (cfg : IpConfig) (ip now : ℕ) (s : State) (known : ip ≢ 0) (v : Valid cfg now s) where
  pruned : State
  pruned = prune_if_needed cfg now s

  first_failure :
      Table.find address_key ip pruned.entries ≡ none
      → length s.entries < cfg.ip_entries
      → failures cfg ip now (on_failure cfg ip now s) ≡ 1
  unfolding on_failure pruned
  first_failure a room =
      let space : leb cfg.ip_entries (length pruned.entries) ≡ false =
        ground (arith, room, prune_length cfg now s) in
      rw (==_false ip 0 known, on_failure)
        (rw (a, on_failure)
          (rw (space, on_failure)
            (record-failures cfg ip now new_window pruned (new-Placed _) (λ i h. omega arith)
              ∙ ap (λ n. suc n) (new-window_sum (slice cfg.window now)))))

  next_failure :
      (w : Window)
      → Table.find address_key ip pruned.entries ≡ some w
      → Unsaturated w
      → failures cfg ip now (on_failure cfg ip now s) ≡ suc (window_sum w (slice cfg.window now))
  unfolding on_failure pruned
  next_failure w a small =
      rw (==_false ip 0 known, on_failure)
        (rw (a, on_failure)
          (record-failures cfg ip now w pruned ((prune-Valid cfg now s v).placed ip w a) small))

-- When there is room in the table or failures count for the address, a failure adds one to the failures
-- that count, as long as no slot is at the greatest number of 32 bits.
pub on_failure-failures :
    (cfg : IpConfig) (ip now : ℕ) (s : State)
    → ip ≢ 0
    → Valid cfg now s
    → (length s.entries < cfg.ip_entries) ⊎ (0 < failures cfg ip now s)
    → ((w : Window) → Table.find address_key ip s.entries ≡ some w → Unsaturated w)
    → failures cfg ip now (on_failure cfg ip now s) ≡ suc (failures cfg ip now s)
unfolding pruned failures sum_of
on_failure-failures cfg ip now s known v room small = elim (prune-find cfg ip now s v) [
  | inl same ↦ elim (Option-cases (Table.find address_key ip s.entries)) [
    | inl a ↦
        let none_yet : failures cfg ip now s ≡ 0 = rw a refl in
        let space : length s.entries < cfg.ip_entries = elim room [
          | inl lt ↦ lt
          | inr some_yet ↦ absurd (omega (arith, none_yet, some_yet))
        ] in
        first_failure cfg ip now s known v (same ∙ a) space ∙ ap (λ n. suc n) (sym none_yet)
    | inr (w, a) ↦
        let count : failures cfg ip now s ≡ window_sum w (slice cfg.window now) = rw a refl in
        next_failure cfg ip now s known v w (same ∙ a) (small w a) ∙ ap (λ n. suc n) (sym count)
  ]
  | inr (gone, none_left) ↦
      let space : length s.entries < cfg.ip_entries = elim room [
        | inl lt ↦ lt
        | inr some_yet ↦ absurd (omega (arith, none_left, some_yet))
      ] in
      first_failure cfg ip now s known v gone space ∙ ap (λ n. suc n) (sym none_left)
]

not_allowed : (d : Decision) → d ≡ allowed → ¬ (d.throttled ≡ true)
not_allowed r e told = cc (sym (ap (λ (d : Decision). d.throttled) e) ∙ told)

check_refuses :
    (cfg : IpConfig) (ip now : ℕ) (s : State)
    → (check cfg ip now s).0.throttled ≡ true
    → (w : Window) × (Table.find address_key ip s.entries ≡ some w)
      × (limit cfg ≤ window_sum w (slice cfg.window now))
      × (check cfg ip now s ≡ (refuse w cfg.window (limit cfg) now, s))
unfolding check
check_refuses cfg ip now s told = elim (Bool-cases (ip == 0)) [
  | inl z ↦ absurd (not_allowed (check cfg ip now s).0 (rw (z, check) refl) told)
  | inr z ↦ elim (Option-cases (Table.find address_key ip s.entries)) [
    | inl a ↦ absurd (not_allowed (check cfg ip now s).0 (rw (z, check) (rw (a, check) refl)) told)
    | inr (w, a) ↦ elim (Bool-cases (drained cfg now w)) [
      | inl d ↦ absurd (
          not_allowed (check cfg ip now s).0 (rw (z, check) (rw (a, check) (rw (d, check) refl)))
            told)
      | inr d ↦ elim (Bool-cases (ltb (window_sum w (slice cfg.window now)) (limit cfg))) [
        | inl x ↦ absurd (
            not_allowed (check cfg ip now s).0
              (rw (z, check) (rw (a, check) (rw (d, check) (rw (x, check) refl)))) told)
        | inr x ↦ (
          w,
          a,
          ltb_false→le (window_sum w (slice cfg.window now)) (limit cfg) x,
          rw (z, check) (rw (a, check) (rw (d, check) (rw (x, check) refl))),
        )
      ]
    ]
  ]
]

-- A refusal names a second at least; and when no failure comes, waiting so long is enough, since being
-- refused counts for nothing.
pub check_after_slide :
    (cfg : IpConfig) (ip now later : ℕ) (s : State)
    → Valid cfg now s
    → (check cfg ip now s).0.throttled ≡ true
    → now + 1000 * (check cfg ip now s).0.retry_after ≤ later
    → (1 ≤ (check cfg ip now s).0.retry_after)
      × ((check cfg ip later (check cfg ip now s).1).0.throttled ≡ false)
unfolding failures sum_of
check_after_slide cfg ip now later s v told waited =
    let (w, found, enough, e) = check_refuses cfg ip now s told in
    let r =
      refuse_long_enough w cfg.window (limit cfg) now later (v.placed ip w found)
        (limit_positive cfg) enough
        (omega (arith, waited, ap (λ (d : Decision × State). d.0.retry_after) e)) in
    (
      omega (arith, r.0, ap (λ (d : Decision × State). d.0.retry_after) e),
      elim (Bool-cases ((check cfg ip later (check cfg ip now s).1).0.throttled)) [
        | inr free ↦ free
        | inl refused ↦
            let again : (check cfg ip later s).0.throttled ≡ true =
              sym (ap (λ (d : Decision × State). (check cfg ip later d.1).0.throttled) e)
              ∙ refused in
            let full : limit cfg ≤ failures cfg ip later s =
              ((check-failures cfg ip later s).0 again).1 in
            let count : failures cfg ip later s ≡ window_sum w (slice cfg.window later) =
              rw found refl in
            absurd (omega (arith, full, count, r.1))
      ],
    )
