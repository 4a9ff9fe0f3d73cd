-- ===== src/Throttle/Ip/Counts.antt =====
-- The failures that count for an address, and when it is refused.
use russia_tetris.Base.{
  ℕ, ◌+◌, ◌≤◌, ◌<◌, ◌≡◌, ◌≢◌, refl, sym, ◌∙◌, ◌⊎◌, ◌↔◌, inl, inr, length, true, Bool-cases, Option,
  none, some, Option-cases, arith, ltb, leb, ◌==◌, ==_iff, ℕ_discrete, ◌&&◌,
}
use russia_tetris.Throttle.Env.{IpConfig}
use russia_tetris.Throttle.Table
use russia_tetris.Throttle.Table.{kept, kept_some}
use russia_tetris.Throttle.Window.{Window, new_window, slice, window_sum, bump, refuse}
use russia_tetris.Throttle.Window.Sum.{Placed, Placed-later, new-Placed, bump-Placed}
use russia_tetris.Throttle.Window.Decide.{slice_mono}
use russia_tetris.Throttle.Ip.{
  State, address_key, drained, prune_if_needed, limit, check, record_failure, on_failure,
}

-- The failures of an entry within the window at `now`; none without an entry.
unfoldable pub sum_of : IpConfig → ℕ → Option Window → ℕ
sum_of cfg now none = 0
sum_of cfg now (some w) = window_sum w (slice cfg.window now)

unfoldable pub failures : IpConfig → ℕ → ℕ → State → ℕ
unfolding sum_of
failures cfg ip now s = sum_of cfg now (Table.find address_key ip s.entries)

-- Every window was written to at `now` or before; the table has one entry at most for an address, and
-- not more entries than the configuration says.
pub record Valid (cfg : IpConfig) (now : ℕ) (s : State) : Type 0 where
  pub unique : Table.Unique address_key s.entries
  pub bounded : length s.entries ≤ cfg.ip_entries
  pub placed :
      (ip : ℕ) (w : Window)
      → Table.find address_key ip s.entries ≡ some w
      → Placed w (slice cfg.window now)

pub limit_positive : (cfg : IpConfig) → 0 < limit cfg
unfolding limit
limit_positive cfg = ground arith

-- An address is refused when its failures within the window have reached the limit; address 0 never.
pub check-failures :
    (cfg : IpConfig) (ip now : ℕ) (s : State)
    → ((check cfg ip now s).0.throttled ≡ true) ↔ ((ip ≢ 0) × (limit cfg ≤ failures cfg ip now s))
unfolding check failures sum_of refuse
check-failures cfg ip now s =
    let some_limit = limit_positive cfg in
    elim (Option-cases (Table.find address_key ip s.entries)) [
      | inl e ↦ rw e (ground (arith, some_limit))
      | inr (w, e) ↦ rw e (ground (arith, some_limit))
    ]

-- What an operation finds in the table after old entries went.
pub prune-find :
    (cfg : IpConfig) (ip now : ℕ) (s : State)
    → Valid cfg now s
    → (Table.find address_key ip (prune_if_needed cfg now s).entries
        ≡ Table.find address_key ip s.entries)
      ⊎ (Table.find address_key ip (prune_if_needed cfg now s).entries ≡ none)
        × (failures cfg ip now s ≡ 0)
unfolding prune_if_needed failures sum_of kept
prune-find cfg ip now s v =
    elim (Bool-cases (ltb now (s.last_prune + 1000) && ltb (length s.entries) cfg.ip_entries)) [
      | inl e ↦ rw e (inl refl)
      | inr e ↦
          let f = Table.find-erase_if address_key (drained cfg now) ip s.entries v.unique in
          elim (Option-cases (Table.find address_key ip s.entries)) [
            | inl a ↦ rw (e, f) (inl (rw a refl))
            | inr (w, a) ↦ elim (Bool-cases (drained cfg now w)) [
              | inl gone ↦ rw (e, f) (inr (rw a (rw gone refl), rw a ((==_iff _ 0).0 gone)))
              | inr stays ↦ rw (e, f) (inl (rw a (rw stays refl)))
            ]
          ]
    ]

pub prune-Valid :
    (cfg : IpConfig) (now : ℕ) (s : State)
    → Valid cfg now s
    → Valid cfg now (prune_if_needed cfg now s)
unfolding prune_if_needed kept
prune-Valid cfg now s v =
    elim (Bool-cases (ltb now (s.last_prune + 1000) && ltb (length s.entries) cfg.ip_entries)) [
      | inl e ↦ rw e v
      | inr e ↦ rw e (record {
        unique = Table.Unique-erase_if address_key (drained cfg now) s.entries v.unique;
        bounded =
            omega (arith, v.bounded, Table.length-erase_if address_key (drained cfg now) s.entries);
        placed = λ ip w found. v.placed ip w (
            kept_some (drained cfg now) _ w (
              sym (Table.find-erase_if address_key (drained cfg now) ip s.entries v.unique)
              ∙ found));
      })
    ]

pub Valid-later :
    (cfg : IpConfig) (now later : ℕ) (s : State) → now ≤ later → Valid cfg now s → Valid cfg later s
Valid-later cfg now later s h v = record {
  unique = v.unique;
  bounded = v.bounded;
  placed = λ ip w found.
      Placed-later w (slice cfg.window now) (slice cfg.window later)
        (slice_mono cfg.window now later h) (v.placed ip w found);
}

record-Valid :
    (cfg : IpConfig) (ip now : ℕ) (w : Window) (s : State)
    → Valid cfg now s
    → Placed w (slice cfg.window now)
    → length (Table.erase address_key ip s.entries) < cfg.ip_entries
    → Valid cfg now (record_failure cfg ip now w s)
unfolding record_failure Table.put
record-Valid cfg ip now w s v p room =
    let cur = slice cfg.window now in
    record {
      unique = Table.Unique-put address_key ip (bump w cur) s.entries v.unique;
      bounded = omega (arith, room);
      placed = λ other u found. elim (ℕ_discrete other ip) [
        | yes e ↦
            let same : some u ≡ some (bump w cur) =
              sym found
              ∙ (λ k.
                  Table.find address_key (e k) (Table.put address_key ip (bump w cur) s.entries))
              ∙ Table.find-put address_key ip (bump w cur) s.entries in
            rw (some_inj same) (bump-Placed w cur cur (omega arith) p)
        | no ne ↦
            v.placed other u
              (sym (Table.find-put_other address_key other ip (bump w cur) s.entries ne) ∙ found)
      ];
    }
  where
    some_inj : {a b : Window} → some a ≡ some b → a ≡ b
    some_inj e = ground arith

-- A failure keeps the table in order, whatever the address.
pub on_failure_keeps :
    (cfg : IpConfig) (ip now : ℕ) (s : State)
    → Valid cfg now s
    → Valid cfg now (on_failure cfg ip now s)
unfolding on_failure
on_failure_keeps cfg ip now s v =
    let p = prune_if_needed cfg now s in
    let pv = prune-Valid cfg now s v in
    elim (Bool-cases (ip == 0)) [
      | inl e ↦ rw e v
      | inr e ↦ rw e (elim (Option-cases (Table.find address_key ip p.entries)) [
        | inl a ↦ rw a (elim (Bool-cases (leb cfg.ip_entries (length p.entries))) [
          | inl full ↦ rw full pv
          | inr room ↦ rw room (
              record-Valid cfg ip now new_window p pv (new-Placed _)
                (ground (arith, room, Table.length-erase address_key ip p.entries)))
        ])
        | inr (w, a) ↦ rw a (
            record-Valid cfg ip now w p pv (pv.placed ip w a)
              (omega (arith, pv.bounded, Table.length-erase_found address_key ip w p.entries a)))
      ])
    ]
