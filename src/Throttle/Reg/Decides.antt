-- ===== src/Throttle/Reg/Decides.antt =====
-- When a registration is refused.
use russia_tetris.Base.{
  ℕ, ◌≤◌, ◌<◌, ◌≡◌, refl, ◌⊎◌, ◌↔◌, inl, inr, true, false, Bool-cases, ==_false, le→ltb, lt→ltb,
  none, some, Option-cases, arith, ltb, ◌==◌, ◌&&◌, ◌||◌,
}
use russia_tetris.Throttle.Env.{RegConfig}
use russia_tetris.Throttle.Table
use russia_tetris.Throttle.Window.{Window, slice, window_sum, evaluate, refuse}
use russia_tetris.Throttle.Window.Decide.{evaluate_refuses}
use russia_tetris.Throttle.Ip.{address_key}
use russia_tetris.Throttle.Reg.{State, check, check_address}

evaluate_iff :
    (w : Window) (limit window now : ℕ)
    → ((evaluate w limit window now).throttled ≡ true)
      ↔ ((0 < limit) × (limit ≤ window_sum w (slice window now)))
unfolding evaluate refuse
evaluate_iff w limit window now = (
  (λ t. let r = evaluate_refuses w limit window now t in (r.0, r.1)),
  λ (on, full).
      rw (==_false limit 0 (λ e. omega (arith, e)), evaluate)
        (rw (le→ltb (window_sum w (slice window now)) limit full, evaluate) refl),
)

-- The attempts of an address that the five slots of its window hold.
unfoldable pub attempts : RegConfig → ℕ → ℕ → State → ℕ
attempts cfg now ip s = elim (Table.find address_key ip s.entries) [
  | none ↦ 0
  | some w ↦ window_sum w (slice cfg.ip_window now)
]

-- The limit of the process is on and reached.
pub record ProcessFull (cfg : RegConfig) (now : ℕ) (s : State) : Type 0 where
  pub limited : 0 < cfg.global_max
  pub reached : cfg.global_max ≤ window_sum s.global_window (slice cfg.global_window now)

-- The limit of an address that is known is on and reached.
pub record AddressFull (cfg : RegConfig) (now ip : ℕ) (s : State) : Type 0 where
  pub known : 0 < ip
  pub limited : 0 < cfg.ip_max
  pub reached : cfg.ip_max ≤ attempts cfg now ip s

module _ (cfg : RegConfig) (ip now : ℕ) (s : State) where
  attempts-found :
      (w : Window)
      → Table.find address_key ip s.entries ≡ some w
      → attempts cfg now ip s ≡ window_sum w (slice cfg.ip_window now)
  unfolding attempts
  attempts-found w a = rw (attempts, a) refl

  nothing_reached : Table.find address_key ip s.entries ≡ none → ¬ AddressFull cfg now ip s
  unfolding attempts
  nothing_reached a f =
      let e : attempts cfg now ip s ≡ 0 = rw (attempts, a) refl in
      omega (arith, e, f.limited, f.reached)

  drained_reached :
      (w : Window)
      → Table.find address_key ip s.entries ≡ some w
      → (window_sum w (slice cfg.ip_window now) == 0) ≡ true
      → ¬ AddressFull cfg now ip s
  drained_reached w a z f =
      let e : window_sum w (slice cfg.ip_window now) ≡ 0 = ground (arith, z) in
      omega (arith, e, attempts-found w a, f.limited, f.reached)

  address_iff :
      ((check_address cfg ip now s).0.decision.throttled ≡ true) ↔ AddressFull cfg now ip s
  unfolding check_address attempts
  address_iff = elim (Bool-cases (ip == 0 || cfg.ip_max == 0)) [
    | inl e ↦ rw (e, check_address) ((λ t. cc), λ f. absurd (ground (arith, f.known, f.limited)))
    | inr e ↦
        rw (e, check_address)
          (elim (Option-cases (Table.find address_key ip s.entries)) [
            | inl a ↦ rw (a, check_address) ((λ t. cc), λ f. absurd (nothing_reached a f))
            | inr (w, a) ↦
                rw (a, check_address)
                  (elim (Bool-cases (window_sum w (slice cfg.ip_window now) == 0)) [
                    | inl z ↦
                        rw (z, check_address) ((λ t. cc), λ f. absurd (drained_reached w a z f))
                    | inr z ↦
                        let d = evaluate_iff w cfg.ip_max cfg.ip_window now in
                        rw (z, check_address)
                          (
                            (λ t. record {
                              known = ground (arith, e);
                              limited = (d.0 t).0;
                              reached = omega (arith, (d.0 t).1, attempts-found w a);
                            }),
                            λ f. d.1 (f.limited, omega (arith, f.reached, attempts-found w a)),
                          )
                  ])
          ])
  ]

  address-global : (check_address cfg ip now s).0.global ≡ false
  unfolding check_address
  address-global = ground arith

  not_full :
      (ltb 0 cfg.global_max
          && (evaluate s.global_window cfg.global_max cfg.global_window now).throttled)
        ≡ false
      → ¬ ProcessFull cfg now s
  not_full free f =
      let t =
        (evaluate_iff s.global_window cfg.global_max cfg.global_window now).1
          (f.limited, f.reached) in
      let on = lt→ltb 0 cfg.global_max f.limited in cc (free, t, on)

  -- A registration is refused exactly when the limit of the process is on and the attempts of the
  -- process in its window have reached it, or the limit of addresses is on and those of the address,
  -- which is not 0, have; and the refusal is put down to the process exactly in the first case.
  pub check-refuses :
      (((check cfg ip now s).0.decision.throttled ≡ true)
        ↔ (ProcessFull cfg now s ⊎ AddressFull cfg now ip s))
      × (((check cfg ip now s).0.global ≡ true) ↔ ProcessFull cfg now s)
  unfolding check
  check-refuses =
      let e = evaluate_iff s.global_window cfg.global_max cfg.global_window now in
      elim (Bool-cases (
        ltb 0 cfg.global_max
        && (evaluate s.global_window cfg.global_max cfg.global_window now).throttled)) [
          | inl told ↦
              let t : (evaluate s.global_window cfg.global_max cfg.global_window now).throttled
                  ≡ true =
                ground (arith, told) in
              let full : ProcessFull cfg now s = record {
                limited = (e.0 t).0;
                reached = (e.0 t).1;
              } in
              rw (told, check) (((λ _. inl full), λ _. t), ((λ _. full), λ _. refl))
          | inr free ↦
              let a = address_iff in
              rw (free, check)
                (
                  (
                    (λ t. inr (a.0 t)),
                    λ o. elim o [ inl f ↦ absurd (not_full free f) | inr f ↦ a.1 f ],
                  ),
                  ((λ g. cc (g, address-global)), λ f. absurd (not_full free f)),
                )
        ]
