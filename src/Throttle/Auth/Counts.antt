-- ===== src/Throttle/Auth/Counts.antt =====
-- What the throttle knows of a name, and how each operation changes it.
use russia_tetris.Base.{
  ℕ, ◌/◌, ◌+◌, ◌-◌, ◌≤◌, ◌<◌, ◌≡◌, refl, ap, ◌∙◌, inl, inr, List, length, true, false, Bool-cases,
  Option, none, some, Option-cases, arith, ltb, ◌==◌, if◌then◌else◌, ◌&&◌,
}
use russia_tetris.Throttle.Env.{AuthConfig}
use russia_tetris.Throttle.Table
use russia_tetris.Throttle.Table.{differs, kept, kept_gone, kept_stays}
use russia_tetris.Throttle.Auth.{
  Entry, Decision, allowed, State, normalize, expired, text_key, prune_if_needed, seconds, check,
  on_success,
}

-- The entry of a name that has not expired.
unfoldable pub live : AuthConfig → ℕ → List ℕ → State → Option Entry
live cfg now key s = kept (expired cfg now) (Table.find text_key key s.entries)

abbrev pub failures_of : Option Entry → ℕ
failures_of none = 0
failures_of (some e) = e.failures

-- The answer that the live entry of a name calls for.
unfoldable pub decision : ℕ → Option Entry → Decision
decision now none = allowed
decision now (some e) =
    if ltb now e.next_allowed
    then record { throttled = true; retry_after = seconds ((e.next_allowed - now) / 1000000) }
    else allowed

-- Names have one entry at most, and not more names are tracked than the configuration says.
pub record Valid (cfg : AuthConfig) (s : State) : Type 0 where
  pub unique : Table.Unique text_key s.entries
  pub bounded : length s.entries ≤ cfg.max_entries

expired_later :
    (cfg : AuthConfig) (now later : ℕ) (t : Entry)
    → now ≤ later
    → expired cfg now t ≡ true
    → expired cfg later t ≡ true
unfolding expired
expired_later cfg now later t h x = ground arith

kept_later :
    (cfg : AuthConfig) (now later : ℕ) (o : Option Entry)
    → now ≤ later
    → kept (expired cfg later) (kept (expired cfg now) o) ≡ kept (expired cfg later) o
unfolding kept
kept_later cfg now later none h = refl
kept_later cfg now later (some t) h = elim (Bool-cases (expired cfg now t)) [
  | inl x ↦ rw x (rw (expired_later cfg now later t h x) refl)
  | inr x ↦ rw x refl
]

erase_old :
    (cfg : AuthConfig) (now later : ℕ) (k key : List ℕ) (t : Entry) (xs : List (List ℕ × Entry))
    → Table.find text_key k xs ≡ some t
    → expired cfg now t ≡ true
    → now ≤ later
    → kept (expired cfg later) (Table.find text_key key (Table.erase text_key k xs))
      ≡ kept (expired cfg later) (Table.find text_key key xs)
unfolding kept
erase_old cfg now later k key t xs e x h = elim (Bool-cases (text_key.same key k)) [
  | inl same ↦
      let eq : key ≡ k = (text_key.same_iff key k).0 same in
      rw (eq, Table.find-erase text_key k xs, e) (rw (expired_later cfg now later t h x) refl)
  | inr other ↦
      ap (kept (expired cfg later))
        (Table.find-erase_other text_key key k xs (differs text_key key k other))
]

module _ (cfg : AuthConfig) (name : List ℕ) (now : ℕ) (s : State)
    (named : 0 < length (normalize name)) where
  pub not_empty : (length (normalize name) == 0) ≡ false
  not_empty = ground arith

  -- `check` answers by the live entry of the name alone.
  pub check-decision : (check cfg name now s).0 ≡ decision now (live cfg now (normalize name) s)
  unfolding check live decision kept
  check-decision =
      rw not_empty (elim (Option-cases (Table.find text_key (normalize name) s.entries)) [
        | inl e ↦ rw e refl
        | inr (t, e) ↦ rw e (elim (Bool-cases (expired cfg now t)) [
          | inl x ↦ rw x refl
          | inr x ↦ rw x (ground arith)
        ])
      ])

  -- What `check` removes has expired: no name loses or changes a live entry, now or later.
  pub check-live :
      (key : List ℕ) (later : ℕ)
      → now ≤ later
      → live cfg later key (check cfg name now s).1 ≡ live cfg later key s
  unfolding check live
  check-live key later h =
      rw not_empty (elim (Option-cases (Table.find text_key (normalize name) s.entries)) [
        | inl e ↦ rw e refl
        | inr (t, e) ↦ rw e (elim (Bool-cases (expired cfg now t)) [
          | inl x ↦ rw x (erase_old cfg now later (normalize name) key t s.entries e x h)
          | inr x ↦ rw x (ground arith)
        ])
      ])

  -- A successful login forgets the name.
  pub on_success-live : live cfg now (normalize name) (on_success name s) ≡ none
  unfolding on_success live kept
  on_success-live = rw not_empty (rw (Table.find-erase text_key (normalize name) s.entries) refl)

pub prune-live :
    (cfg : AuthConfig) (now later : ℕ) (key : List ℕ) (s : State)
    → Valid cfg s
    → now ≤ later
    → live cfg later key (prune_if_needed cfg now s) ≡ live cfg later key s
unfolding prune_if_needed live
prune-live cfg now later key s v h =
    elim (Bool-cases
      (ltb now (s.last_prune + 1000000000) && ltb (length s.entries) cfg.max_entries)) [
        | inl e ↦ rw e refl
        | inr e ↦ rw e (
            ap (kept (expired cfg later))
              (Table.find-erase_if text_key (expired cfg now) key s.entries v.unique)
            ∙ kept_later cfg now later (Table.find text_key key s.entries) h)
      ]

pub prune-Valid :
    (cfg : AuthConfig) (now : ℕ) (s : State) → Valid cfg s → Valid cfg (prune_if_needed cfg now s)
unfolding prune_if_needed
prune-Valid cfg now s v =
    elim (Bool-cases
      (ltb now (s.last_prune + 1000000000) && ltb (length s.entries) cfg.max_entries)) [
        | inl e ↦ rw e v
        | inr e ↦ rw e (record {
          unique = Table.Unique-erase_if text_key (expired cfg now) s.entries v.unique;
          bounded =
              omega (arith, v.bounded, Table.length-erase_if text_key (expired cfg now) s.entries);
        })
      ]
