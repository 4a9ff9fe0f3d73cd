-- ===== src/Throttle/Auth/Failure.antt =====
-- What one more failed login of a name changes.
use russia_tetris.Base.{
  ℕ, ◌*◌, suc, ◌+◌, ◌≤◌, ◌<◌, ◌≡◌, ◌≢◌, refl, sym, ap, ◌∙◌, ◌⊎◌, inl, inr, List, length, false,
  Bool-cases, none, some, Option-cases, arith, ltb, leb, ◌==◌, ◌&&◌,
}
use russia_tetris.Throttle.Env.{AuthConfig}
use russia_tetris.Throttle.Table
use russia_tetris.Throttle.Table.{differs, kept, kept_gone, kept_stays}
use russia_tetris.Throttle.Auth.{
  Entry, State, normalize, delay_for, expired, text_key, prune_if_needed, record_failure, track,
  on_failure,
}
use russia_tetris.Throttle.Auth.Counts.{
  live, failures_of, Valid, not_empty, prune-live, prune-Valid,
}

-- The entry of a name after one more failure, `failures` having counted before.
abbrev pub failed_entry : AuthConfig → ℕ → ℕ → Entry
failed_entry cfg now failures = record {
  failures = suc failures;
  last_failure = now;
  next_allowed = now + 1000000 * delay_for cfg (suc failures);
}

prune_length :
    (cfg : AuthConfig) (now : ℕ) (s : State)
    → length (prune_if_needed cfg now s).entries ≤ length s.entries
unfolding prune_if_needed
prune_length cfg now s =
    elim (Bool-cases
      (ltb now (s.last_prune + 1000000000) && ltb (length s.entries) cfg.max_entries)) [
        | inl e ↦ rw e (omega arith)
        | inr e ↦ rw e (Table.length-erase_if text_key (expired cfg now) s.entries)
      ]

-- Failures that have expired count as none.
track-find :
    (cfg : AuthConfig) (key : List ℕ) (now : ℕ) (s : State)
    → (length s.entries < cfg.max_entries) ⊎ (live cfg now key s ≢ none)
    → Table.find text_key key (track cfg key now s).entries
      ≡ some (failed_entry cfg now (failures_of (live cfg now key s)))
unfolding track record_failure live kept
track-find cfg key now s room = elim (Option-cases (Table.find text_key key s.entries)) [
  | inl e ↦
      let space : leb cfg.max_entries (length s.entries) ≡ false = elim room [
        | inl lt ↦ ground arith
        | inr there ↦ absurd (there (rw e refl))
      ] in
      rw (e, track) (rw (space, track) (Table.find-put text_key key _ s.entries))
  | inr (t, e) ↦
      rw (e, track)
        (elim (Bool-cases (expired cfg now t)) [
          | inl x ↦
              rw (x, track)
                (Table.find-put text_key key _ s.entries
                  ∙ ap (λ f. some (failed_entry cfg now f)) (ground arith))
          | inr x ↦
              rw (x, track)
                (Table.find-put text_key key _ s.entries
                  ∙ ap (λ f. some (failed_entry cfg now f)) (ground arith))
        ])
]

track-find_other :
    (cfg : AuthConfig) (key other : List ℕ) (now : ℕ) (s : State)
    → other ≢ key
    → Table.find text_key other (track cfg key now s).entries ≡ Table.find text_key other s.entries
unfolding track record_failure
track-find_other cfg key other now s ne = elim (Option-cases (Table.find text_key key s.entries)) [
  | inl e ↦
      rw (e, track)
        (elim (Bool-cases (leb cfg.max_entries (length s.entries))) [
          | inl full ↦ rw (full, track) refl
          | inr space ↦ rw (space, track) (Table.find-put_other text_key other key _ s.entries ne)
        ])
  | inr (t, e) ↦ rw (e, track) (Table.find-put_other text_key other key _ s.entries ne)
]

track-Valid :
    (cfg : AuthConfig) (key : List ℕ) (now : ℕ) (s : State)
    → Valid cfg s
    → Valid cfg (track cfg key now s)
unfolding track record_failure Table.put
track-Valid cfg key now s v = elim (Option-cases (Table.find text_key key s.entries)) [
  | inl e ↦
      rw (e, track)
        (elim (Bool-cases (leb cfg.max_entries (length s.entries))) [
          | inl full ↦ rw (full, track) v
          | inr space ↦
              rw (space, track)
                (record {
                  unique = Table.Unique-put text_key key _ s.entries v.unique;
                  bounded = ground (arith, Table.length-erase text_key key s.entries, space);
                })
        ])
  | inr (t, e) ↦
      rw (e, track)
        (record {
          unique = Table.Unique-put text_key key _ s.entries v.unique;
          bounded = omega (arith, v.bounded, Table.length-erase_found text_key key t s.entries e);
        })
]

module _ (cfg : AuthConfig) (name : List ℕ) (now : ℕ) (s : State) (valid : Valid cfg s)
    (named : 0 < length (normalize name)) where
  -- When there is room in the table, or the name has a live entry, a failure is counted on top of the
  -- live failures of the name, and the next login has to wait for the delay of the new count.
  pub on_failure-counts :
      (length s.entries < cfg.max_entries) ⊎ (live cfg now (normalize name) s ≢ none)
      → Table.find text_key (normalize name) (on_failure cfg name now s).entries
        ≡ some (failed_entry cfg now (failures_of (live cfg now (normalize name) s)))
  unfolding on_failure
  on_failure-counts room =
      let key = normalize name in
      let p = prune_if_needed cfg now s in
      let same : live cfg now key p ≡ live cfg now key s =
        prune-live cfg now now key s valid (omega arith) in
      rw (not_empty cfg name now s named) (
        track-find cfg key now p (elim room [
          | inl lt ↦ inl (omega (arith, prune_length cfg now s))
          | inr there ↦ inr (λ gone. there (sym same ∙ gone))
        ])
        ∙ ap (λ o. some (failed_entry cfg now (failures_of o))) same)

  -- A failure of one name changes the live entry of no other, now or later.
  pub on_failure-live_other :
      (other : List ℕ) (later : ℕ)
      → other ≢ normalize name
      → now ≤ later
      → live cfg later other (on_failure cfg name now s) ≡ live cfg later other s
  unfolding on_failure live
  on_failure-live_other other later ne h =
      let p = prune_if_needed cfg now s in
      rw (not_empty cfg name now s named) (
        ap (kept (expired cfg later)) (track-find_other cfg (normalize name) other now p ne)
        ∙ prune-live cfg now later other s valid h)

-- No name ever has two entries, and not more names are tracked than the configuration says.
pub on_failure-Valid :
    (cfg : AuthConfig) (name : List ℕ) (now : ℕ) (s : State)
    → Valid cfg s
    → Valid cfg (on_failure cfg name now s)
unfolding on_failure
on_failure-Valid cfg name now s v = elim (Bool-cases (length (normalize name) == 0)) [
  | inl e ↦ rw e v
  | inr e ↦ rw e (track-Valid cfg (normalize name) now _ (prune-Valid cfg now s v))
]
