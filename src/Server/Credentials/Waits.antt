-- ===== src/Server/Credentials/Waits.antt =====
-- When a password is handed to a task.
use russia_tetris.Base.{
  ℕ, suc, ◌≡◌, ◌≢◌, refl, ◌∙◌, sym, ◌⊎◌, inl, inr, List, [], ◌∷◌, ◌++◌, Bool, true, false, Option,
  none, some, arith, ◌==◌, length, if◌then◌else◌, Bool-cases,
}
use russia_tetris.Status.{over_quit, verifying_password}
use russia_tetris.World.{login_task}
use russia_tetris.Throttle.Auth
use russia_tetris.Throttle.Window.{now_ms}
use russia_tetris.Throttle.Ip
use russia_tetris.Screens.Menus.{show_password_empty_error, show_login_throttled}
use russia_tetris.Server.{Host, Limits, Event, return}
use russia_tetris.Server.Line.{receive_entry}
use russia_tetris.Server.Calm.{Calm, status_before, receive_entry-Calm, clear_show-Calm}
use russia_tetris.Server.Credentials.{
  ask_ip, ask_auth, refuse_login, submit_login, try_login, load_password,
}

module _ (l : Limits) (e : Event) where
  -- What the two limiters of logins answer now.
  abbrev pub by_ip : Host → Bool
  by_ip h = (Ip.check l.ip_limits h.peer_ip (now_ms e.now) h.ip).0.throttled

  abbrev pub by_name : Host → Bool
  by_name h = (Auth.check l.auth_limits h.username e.now h.auth).0.throttled

  -- What is left when the password `p` was entered for the name of `h`.
  pub data LoginTried (h : Host) (p : List ℕ) : Host → Type 0 where
    refused :
        {h' : Host}
        → (by_ip h ≡ true) ⊎ (by_name h ≡ true)
        → h'.write_queue ≡ h.write_queue
        → (h'.status ≡ h.status) ⊎ (h'.status ≡ over_quit)
        → LoginTried h p h'
    submitted :
        {h' : Host}
        → by_ip h ≡ false
        → by_name h ≡ false
        → h'.write_queue ≡ h.write_queue ++ login_task h.username p h.peer_ip ∷ []
        → h'.status ≡ verifying_password
        → LoginTried h p h'

  refuse_login-Calm : (seconds : ℕ) (h : Host) → Calm h (refuse_login seconds h).1
  unfolding refuse_login
  refuse_login-Calm seconds h = clear_show-Calm (show_login_throttled seconds) 2 h

  try_login-Tried : (p : List ℕ) (h : Host) → LoginTried h p (try_login l e p h).1
  unfolding try_login submit_login
  try_login-Tried p h = elim (Bool-cases (by_ip h)) [
    | inl ip_full ↦
        let c =
          refuse_login-Calm (Ip.check l.ip_limits h.peer_ip (now_ms e.now) h.ip).0.retry_after
            (ask_ip l e h).1 in
        rw (ip_full, try_login) (refused (inl ip_full) c.tasks c.status)
    | inr ip_free ↦ elim (Bool-cases (by_name h)) [
      | inl name_full ↦
          let c =
            refuse_login-Calm (Auth.check l.auth_limits h.username e.now h.auth).0.retry_after
              (ask_auth l e (ask_ip l e h).1).1 in
          rw (ip_free, name_full, try_login) (refused (inr name_full) c.tasks c.status)
      | inr name_free ↦ rw (ip_free, name_free, try_login) (submitted ip_free name_free refl refl)
    ]
  ]

  -- What is left of `load_password`: nothing was entered, or the password that was.
  pub data LoadTried (h h' : Host) : Type 0 where
    nothing_entered :
        {r : Option (List ℕ)}
        → (receive_entry e.incoming (show_password_empty_error 15) h).0 ≡ r
        → (r ≡ none) ⊎ (r ≡ some [])
        → Calm h h'
        → LoadTried h h'
    entered :
        (p : List ℕ)
        → p ≢ []
        → (receive_entry e.incoming (show_password_empty_error 15) h).0 ≡ some p
        → LoginTried h p h'
        → LoadTried h h'

  by_ip-Calm : {h h0 : Host} → Calm h h0 → by_ip h0 ≡ by_ip h
  by_ip-Calm c = rw (c.peer_ip, c.ip) refl

  by_name-Calm : {h h0 : Host} → Calm h h0 → by_name h0 ≡ by_name h
  by_name-Calm c = rw (c.username, c.auth) refl

  LoginTried-Calm :
      {h h0 h' : Host} {p : List ℕ} → Calm h h0 → LoginTried h0 p h' → LoginTried h p h'
  LoginTried-Calm {h} {h0} c (refused full q s) =
      refused (full_before full) (q ∙ c.tasks) (status_before c.status s)
    where
      full_before : (by_ip h0 ≡ true) ⊎ (by_name h0 ≡ true) → (by_ip h ≡ true) ⊎ (by_name h ≡ true)
      full_before (inl f) = inl (sym (by_ip-Calm c) ∙ f)
      full_before (inr f) = inr (sym (by_name-Calm c) ∙ f)
  LoginTried-Calm c (submitted a b q s) =
      submitted (sym (by_ip-Calm c) ∙ a) (sym (by_name-Calm c) ∙ b)
        (rw (← c.username, ← c.peer_ip, ← c.tasks) q) s

  load_after :
      (h : Host) (r : Option (List ℕ) × Host)
      → (receive_entry e.incoming (show_password_empty_error 15) h).0 ≡ r.0
      → Calm h r.1
      → LoadTried h
          (elim r.0 as (λ _. Option ℕ × Host) [
            | none ↦ (none, r.1)
            | some p ↦ (if length p == 0 then return 2 else try_login l e p) r.1
          ]).1
  load_after h (none, h') eq c = nothing_entered eq (inl refl) c
  load_after h (some [], h') eq c = nothing_entered eq (inr refl) c
  load_after h (some (x ∷ xs), h') eq c =
      let n = suc (length xs) in
      let nz : (n == 0) ≡ false = ground arith in
      entered (x ∷ xs) (λ b. cc) eq (LoginTried-Calm c (rw nz (try_login-Tried (x ∷ xs) h')))

  -- `load_password`, on every branch: with nothing entered it changes no state but to the end of
  -- the connection, pushes no task and counts nothing. A password that was entered is handed to a
  -- task, with the name and the address of the connection, exactly when neither the limit of the
  -- address nor that of the name refuses; otherwise no task is pushed and the state stays.
  pub load_password-Tried : (h : Host) → LoadTried h (load_password l e h).1
  unfolding load_password
  load_password-Tried h =
      load_after h (receive_entry e.incoming (show_password_empty_error 15) h) refl
        (receive_entry-Calm e.incoming (show_password_empty_error 15) h)
