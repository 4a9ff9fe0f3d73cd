-- ===== src/Server/Credentials/Registers.antt =====
-- When a registration is handed to a task.
use russia_tetris.Base.{
  ℕ, suc, ◌≡◌, ◌≢◌, refl, ◌∙◌, ◌⊎◌, inl, inr, List, [], ◌∷◌, ◌++◌, Bool, true, false, Option, none,
  some, arith, ◌==◌, length, if◌then◌else◌, Bool-cases,
}
use russia_tetris.Status.{over_quit}
use russia_tetris.World.{save_new_user_data}
use russia_tetris.Throttle.Reg
use russia_tetris.Password
use russia_tetris.Screens.Menus.{
  show_password_empty_error, show_registration_throttled, show_password_too_short_error,
  show_register_success,
}
use russia_tetris.Throttle.Window.{now_ms}
use russia_tetris.Server.{Host, Limits, Event, Act, ◌>>◌, return, set_password, show}
use russia_tetris.Server.Line.{receive_entry}
use russia_tetris.Server.Calm.{
  Calm, Calm-refl, status_before, show-Calm, >>=-Calm, receive_entry-Calm, clear_show-Calm,
}
use russia_tetris.Server.Credentials.{
  ask_reg, count_attempt, save_new_user, try_registration, enter_registration, register_password,
}

module _ (l : Limits) (e : Event) where
  -- The answer of the limiter of registrations, and its state after that answer.
  abbrev pub answer : Host → Reg.Answer × Reg.State
  answer h = Reg.check l.reg_limits h.peer_ip (now_ms e.now) h.reg

  -- What is left when the password `p` was entered for the new name of `h`.
  pub data RegistrationTried (h : Host) (p : List ℕ) : Host → Type 0 where
    refused :
        {h' : Host}
        → ((answer h).0.decision.throttled ≡ true) ⊎ (Password.check p ≡ false)
        → h'.write_queue ≡ h.write_queue
        → h'.reg ≡ (answer h).1
        → (h'.status ≡ h.status) ⊎ (h'.status ≡ over_quit)
        → RegistrationTried h p h'
    submitted :
        {h' : Host}
        → (answer h).0.decision.throttled ≡ false
        → Password.check p ≡ true
        → h'.write_queue ≡ h.write_queue ++ save_new_user_data h.username p ∷ []
        → h'.reg ≡ Reg.on_attempt l.reg_limits h.peer_ip (now_ms e.now) (answer h).1
        → (h'.status ≡ h.status) ⊎ (h'.status ≡ over_quit)
        → RegistrationTried h p h'

  try_registration-Tried :
      (p : List ℕ) (h : Host) → RegistrationTried h p (try_registration l e p h).1
  unfolding try_registration
  try_registration-Tried p h = elim (Bool-cases (answer h).0.decision.throttled) [
    | inl full ↦
        let c =
          clear_show-Calm (show_registration_throttled (answer h).0.decision.retry_after) 1
            (ask_reg l e h).1 in
        rw (full, try_registration) (refused (inl full) c.tasks c.reg c.status)
    | inr free ↦ elim (Bool-cases (Password.check p)) [
      | inr bad ↦
          let c = clear_show-Calm (show_password_too_short_error 15) 0 (ask_reg l e h).1 in
          rw (free, bad, try_registration) (refused (inr bad) c.tasks c.reg c.status)
      | inl good ↦
          let m : Act (Unit {0}) = set_password p >> count_attempt l e >> save_new_user in
          let h0 = (m (ask_reg l e h).1).1 in
          let c : Calm h0 ((show show_register_success >> return 1) h0).1 =
            >>=-Calm (show show_register_success) (λ _. return 1) h0
              (show-Calm show_register_success h0) (λ _ h'. Calm-refl h') in
          rw (free, good, try_registration) (submitted free good c.tasks c.reg c.status)
    ]
  ]

  RegistrationTried-Calm :
      {h h0 h' : Host} {p : List ℕ}
      → Calm h h0
      → RegistrationTried h0 p h'
      → RegistrationTried h p h'
  RegistrationTried-Calm {h} {h0} c (refused full q r s) =
      let same : answer h0 ≡ answer h = rw (c.peer_ip, c.reg) refl in
      refused (rw (← same) full) (q ∙ c.tasks) (rw (← same) r) (status_before c.status s)
  RegistrationTried-Calm {h} {h0} c (submitted a b q r s) =
      let same : answer h0 ≡ answer h = rw (c.peer_ip, c.reg) refl in
      submitted (rw (← same) a) b (rw (← c.username, ← c.tasks) q) (rw (← same, ← c.peer_ip) r)
        (status_before c.status s)

  -- What is left of `register_password` after the table of players was loaded.
  pub data RegisterTried (h h' : Host) : Type 0 where
    nothing_entered :
        {r : Option (List ℕ)}
        → (receive_entry e.incoming (show_password_empty_error 15) h).0 ≡ r
        → (r ≡ none) ⊎ (r ≡ some [])
        → Calm h h'
        → RegisterTried h h'
    entered :
        (p : List ℕ)
        → p ≢ []
        → (receive_entry e.incoming (show_password_empty_error 15) h).0 ≡ some p
        → RegistrationTried h p h'
        → RegisterTried h h'

  register_after :
      (h : Host) (r : Option (List ℕ) × Host)
      → (receive_entry e.incoming (show_password_empty_error 15) h).0 ≡ r.0
      → Calm h r.1
      → RegisterTried h
          (elim r.0 as (λ _. Option ℕ × Host) [
            | none ↦ (none, r.1)
            | some p ↦ (if length p == 0 then return 0 else try_registration l e p) r.1
          ]).1
  register_after h (none, h') eq c = nothing_entered eq (inl refl) c
  register_after h (some [], h') eq c = nothing_entered eq (inr refl) c
  register_after h (some (x ∷ xs), h') eq c =
      let n = suc (length xs) in
      let nz : (n == 0) ≡ false = ground arith in
      entered (x ∷ xs) (λ b. cc) eq
        (RegistrationTried-Calm c (rw nz (try_registration-Tried (x ∷ xs) h')))

  when_loaded :
      (b : Bool) (m : Act ℕ) (h : Host)
      → b ≡ true
      → RegisterTried h (m h).1
      → RegisterTried h ((if b then m else return 0) h).1
  when_loaded true m h eq t = t
  when_loaded false m h eq t = cc

  -- `register_password`, on every branch, when the table of players was loaded: with nothing entered
  -- it pushes no task and counts nothing. A password that was entered is handed to the task that
  -- saves the account, and the attempt is counted, exactly when the limiter does not refuse and the
  -- policy accepts it; otherwise nothing is pushed or counted.
  pub register_password-Tried :
      (h : Host) → e.players_loaded ≡ true → RegisterTried h (register_password l e h).1
  unfolding register_password enter_registration
  register_password-Tried h loaded =
      when_loaded e.players_loaded (enter_registration l e) h loaded (
        register_after h (receive_entry e.incoming (show_password_empty_error 15) h) refl
          (receive_entry-Calm e.incoming (show_password_empty_error 15) h))
