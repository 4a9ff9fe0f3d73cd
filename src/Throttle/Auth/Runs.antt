-- ===== src/Throttle/Auth/Runs.antt =====
-- What holds of the throttle after any sequence of its operations.
use russia_tetris.Base.{
  ℕ, suc, ◌+◌, ◌-◌, ◌*◌, ◌/◌, ◌≤◌, ◌<◌, ◌≡◌, subst, inl, inr, List, [], ◌∷◌, length, Bool,
  Bool-cases, some, Option-cases, arith, ltb, leb, ◌==◌, ◌&&◌,
}
use russia_tetris.Throttle.Env.{AuthConfig}
use russia_tetris.Throttle.Table
use russia_tetris.Throttle.Auth.{
  Entry, State, normalize, delay_for, expired, text_key, prune_if_needed, seconds, check,
  record_failure, track, on_failure, on_success,
}

-- No name is known.
abbrev pub no_names : State
no_names = record { entries = []; last_prune = 0 }

-- The states that the operations lead to, in the order of time.
pub data Reached (cfg : AuthConfig) : ℕ → State → Type 0 where
  start : (now : ℕ) → Reached cfg now no_names
  asked :
      {now : ℕ} {s : State} (name : List ℕ) (later : ℕ)
      → now ≤ later
      → Reached cfg now s
      → Reached cfg later (check cfg name later s).1
  failed :
      {now : ℕ} {s : State} (name : List ℕ) (later : ℕ)
      → now ≤ later
      → Reached cfg now s
      → Reached cfg later (on_failure cfg name later s)
  succeeded :
      {now : ℕ} {s : State} (name : List ℕ)
      → Reached cfg now s
      → Reached cfg now (on_success name s)

-- The delay of an entry began with its last failure, which is not in the future.
record Begun (cfg : AuthConfig) (now : ℕ) (e : Entry) : Type 0 where
  past : e.last_failure ≤ now
  delayed : e.next_allowed ≤ e.last_failure + 1000000 * cfg.max_delay

data Each (cfg : AuthConfig) (now : ℕ) : List (List ℕ × Entry) → Type 0 where
  nothing : Each cfg now []
  more :
      {x : List ℕ × Entry} {xs : List (List ℕ × Entry)}
      → Begun cfg now x.1
      → Each cfg now xs
      → Each cfg now (x ∷ xs)

module _ (cfg : AuthConfig) (now : ℕ) where
  Each-later :
      (later : ℕ) (xs : List (List ℕ × Entry)) → now ≤ later → Each cfg now xs → Each cfg later xs
  Each-later later [] h w = nothing
  Each-later later (x ∷ xs) h (more p w) =
      more (record { past = omega (arith, p.past, h); delayed = p.delayed })
        (Each-later later xs h w)

  Each-erase :
      (k : List ℕ) (xs : List (List ℕ × Entry))
      → Each cfg now xs
      → Each cfg now (Table.erase text_key k xs)
  unfolding Table.erase
  Each-erase k [] w = nothing
  Each-erase k (x ∷ xs) (more p w) = elim (Bool-cases (text_key.same k x.0)) [
    | inl e ↦ rw (e, Table.erase) (Each-erase k xs w)
    | inr e ↦ rw (e, Table.erase) (more p (Each-erase k xs w))
  ]

  Each-erase_if :
      (gone : Entry → Bool) (xs : List (List ℕ × Entry))
      → Each cfg now xs
      → Each cfg now (Table.erase_if text_key gone xs)
  unfolding Table.erase_if
  Each-erase_if gone [] w = nothing
  Each-erase_if gone (x ∷ xs) (more p w) = elim (Bool-cases (gone x.1)) [
    | inl e ↦ rw (e, Table.erase_if) (Each-erase_if gone xs w)
    | inr e ↦ rw (e, Table.erase_if) (more p (Each-erase_if gone xs w))
  ]

  Each-find :
      (k : List ℕ) (xs : List (List ℕ × Entry)) (t : Entry)
      → Each cfg now xs
      → Table.find text_key k xs ≡ some t
      → Begun cfg now t
  unfolding Table.find
  Each-find k [] t w h = cc
  Each-find k (x ∷ xs) t (more p w) h = elim (Bool-cases (text_key.same k x.0)) [
    | inl e ↦
        let q : some x.1 ≡ some t = rw (e, Table.find) at h in
        let same : x.1 ≡ t = cc in subst (Begun cfg now) same p
    | inr e ↦ Each-find k xs t w (rw (e, Table.find) at h)
  ]

delay_for_le : (cfg : AuthConfig) (failures : ℕ) → delay_for cfg failures ≤ cfg.max_delay
unfolding delay_for
delay_for_le cfg failures = ground arith

-- The table is as the configuration wants it.
record Sane (cfg : AuthConfig) (now : ℕ) (s : State) : Type 0 where
  short : length s.entries ≤ cfg.max_entries
  each : Each cfg now s.entries

prune-Sane :
    (cfg : AuthConfig) (now : ℕ) (s : State)
    → Sane cfg now s
    → Sane cfg now (prune_if_needed cfg now s)
unfolding prune_if_needed
prune-Sane cfg now s w =
    elim (Bool-cases
      (ltb now (s.last_prune + 1000000000) && ltb (length s.entries) cfg.max_entries)) [
        | inl e ↦ rw e w
        | inr e ↦ rw e (record {
          short =
              omega (arith, w.short, Table.length-erase_if text_key (expired cfg now) s.entries);
          each = Each-erase_if cfg now (expired cfg now) s.entries w.each;
        })
      ]

recorded :
    (cfg : AuthConfig) (key : List ℕ) (now failures : ℕ) (s : State)
    → length (Table.erase text_key key s.entries) < cfg.max_entries
    → Each cfg now s.entries
    → Sane cfg now (record_failure cfg key now failures s)
unfolding record_failure Table.put
recorded cfg key now failures s room w = record {
  short = omega (arith, room);
  each =
      more (record { past = omega arith; delayed = omega (arith, delay_for_le cfg (suc failures)) })
        (Each-erase cfg now key s.entries w);
}

track-Sane :
    (cfg : AuthConfig) (key : List ℕ) (now : ℕ) (s : State)
    → Sane cfg now s
    → Sane cfg now (track cfg key now s)
unfolding track
track-Sane cfg key now s w = elim (Option-cases (Table.find text_key key s.entries)) [
  | inl e ↦
      rw (e, track)
        (elim (Bool-cases (leb cfg.max_entries (length s.entries))) [
          | inl full ↦ rw (full, track) w
          | inr space ↦
              rw (space, track)
                (recorded cfg key now 0 s
                  (ground (arith, Table.length-erase text_key key s.entries, space)) w.each)
        ])
  | inr (t, e) ↦
      rw (e, track)
        (recorded cfg key now _ s
          (omega (arith, w.short, Table.length-erase_found text_key key t s.entries e)) w.each)
]

later-Sane :
    (cfg : AuthConfig) (now later : ℕ) (s : State) → now ≤ later → Sane cfg now s → Sane cfg later s
later-Sane cfg now later s h w = record {
  short = w.short;
  each = Each-later cfg now later s.entries h w.each;
}

erase-Sane :
    (cfg : AuthConfig) (now : ℕ) (key : List ℕ) (s : State)
    → Sane cfg now s
    → Sane cfg now (record s { entries = Table.erase text_key key s.entries })
erase-Sane cfg now key s w = record {
  short = omega (arith, w.short, Table.length-erase text_key key s.entries);
  each = Each-erase cfg now key s.entries w.each;
}

check-Sane :
    (cfg : AuthConfig) (name : List ℕ) (now : ℕ) (s : State)
    → Sane cfg now s
    → Sane cfg now (check cfg name now s).1
unfolding check
check-Sane cfg name now s w = elim (Bool-cases (length (normalize name) == 0)) [
  | inl e ↦ rw (e, check) w
  | inr e ↦
      rw (e, check)
        (elim (Option-cases (Table.find text_key (normalize name) s.entries)) [
          | inl a ↦ rw (a, check) w
          | inr (t, a) ↦
              rw (a, check)
                (elim (Bool-cases (expired cfg now t)) [
                  | inl x ↦ rw (x, check) (erase-Sane cfg now (normalize name) s w)
                  | inr x ↦
                      rw (x, check)
                        (elim (Bool-cases (ltb now t.next_allowed)) [
                          | inl y ↦ rw (y, check) w
                          | inr y ↦ rw (y, check) w
                        ])
                ])
        ])
]

Reached-Sane : {cfg : AuthConfig} {now : ℕ} {s : State} → Reached cfg now s → Sane cfg now s
unfolding on_failure on_success
Reached-Sane (start now) = record { short = omega arith; each = nothing }
Reached-Sane {cfg} (asked {now} {s} name later h r) =
    check-Sane cfg name later s (later-Sane cfg now later s h (Reached-Sane r))
Reached-Sane {cfg} (failed {now} {s} name later h r) =
    let w = later-Sane cfg now later s h (Reached-Sane r) in
    elim (Bool-cases (length (normalize name) == 0)) [
      | inl e ↦ rw e w
      | inr e ↦ rw e (track-Sane cfg (normalize name) later _ (prune-Sane cfg later s w))
    ]
Reached-Sane {cfg} (succeeded {now} {s} name r) =
    let w = Reached-Sane r in
    elim (Bool-cases (length (normalize name) == 0)) [
      | inl e ↦ rw e w
      | inr e ↦ rw e (erase-Sane cfg now (normalize name) s w)
    ]

seconds_mono : (a b : ℕ) → a ≤ b → seconds a ≤ seconds b
seconds_mono a b h = ground arith

told_at_most :
    (cfg : AuthConfig) (name : List ℕ) (now : ℕ) (s : State)
    → Sane cfg now s
    → (check cfg name now s).0.retry_after ≤ seconds cfg.max_delay
unfolding check
told_at_most cfg name now s w = elim (Bool-cases (length (normalize name) == 0)) [
  | inl e ↦ rw (e, check) (omega arith)
  | inr e ↦
      rw (e, check)
        (elim (Option-cases (Table.find text_key (normalize name) s.entries)) [
          | inl a ↦ rw (a, check) (omega arith)
          | inr (t, a) ↦
              rw (a, check)
                (elim (Bool-cases (expired cfg now t)) [
                  | inl x ↦ rw (x, check) (omega arith)
                  | inr x ↦
                      rw (x, check)
                        (elim (Bool-cases (ltb now t.next_allowed)) [
                          | inl y ↦
                              let b = Each-find cfg now (normalize name) s.entries t w.each a in
                              rw (y, check)
                                (seconds_mono ((t.next_allowed - now) / 1000000) cfg.max_delay
                                  (omega (arith, b.past, b.delayed)))
                          | inr y ↦ rw (y, check) (omega arith)
                        ])
                ])
        ])
]

-- After any sequence of `check`, `on_failure` and `on_success` from the empty table, at times that do not
-- go back, not more names are tracked than the configuration says, and no name is told to wait
-- longer than the greatest delay, in seconds rounded up, and one second at least.
pub Reached-bounds :
    {cfg : AuthConfig} {now : ℕ} {s : State}
    → Reached cfg now s
    → (length s.entries ≤ cfg.max_entries)
      × ((name : List ℕ) (later : ℕ)
          → now ≤ later
          → (check cfg name later s).0.retry_after ≤ seconds cfg.max_delay)
Reached-bounds {cfg} {now} {s} r =
    let w = Reached-Sane r in
    (w.short, λ name later h. told_at_most cfg name later s (later-Sane cfg now later s h w))
