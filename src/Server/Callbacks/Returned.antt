-- ===== src/Server/Callbacks/Returned.antt =====
-- What the answer to a task does to the limiters and to the state of the connection.
use russia_tetris.Base.{ℕ, ◌≡◌, ◌≢◌, refl, ◌⊎◌, inl, inr, List, []}
use russia_tetris.Status.{
  Status-discrete, login, login_over, over_quit, receive_password_load, register_or_load_over,
  verifying_password,
}
use russia_tetris.Throttle.Auth
use russia_tetris.Throttle.Window.{now_ms}
use russia_tetris.Throttle.Ip
use russia_tetris.Screens.{Item}
use russia_tetris.Screens.Shown.{render-Shown}
use russia_tetris.Screens.Menus.{
  show_server_busy, show_password_changed, show_change_password_error,
}
use russia_tetris.Screens.Notices.{wrong_old, busy_change, error_change}
use russia_tetris.Server.{Host, Limits}
use russia_tetris.Filedata.{LoginResult, PasswordChangeResult}
use russia_tetris.Server.Callbacks.{
  draw, with_status, without_input, without_password, finish_login, login_returned, finish_change,
  change_returned,
}

draw-password : (items : List Item) (h : Host) → (draw items (without_password h)).password ≡ []
unfolding draw
draw-password items h = (render-Shown items (without_password h).world).same.password

-- The limiters of logins as they were.
pub record Uncounted (h h' : Host) : Type 0 where
  pub auth : h'.auth ≡ h.auth
  pub ip : h'.ip ≡ h.ip

-- A failure counted against the name and against the address.
pub record Failed (l : Limits) (now : ℕ) (username : List ℕ) (peer_ip : ℕ) (h h' : Host)
    : Type 0 where
  pub auth : h'.auth ≡ Auth.on_failure l.auth_limits username now h.auth
  pub ip : h'.ip ≡ Ip.on_failure l.ip_limits peer_ip (now_ms now) h.ip

-- The failures of the name forgotten, those of the address kept.
pub record Cleared (username : List ℕ) (h h' : Host) : Type 0 where
  pub auth : h'.auth ≡ Auth.on_success username h.auth
  pub ip : h'.ip ≡ h.ip

module _ (l : Limits) (now : ℕ) (username : List ℕ) (peer_ip : ℕ) where
  pub data LoginReturned (h : Host) : LoginResult → Host → Type 0 where
    late : {r : LoginResult} → h.status ≢ verifying_password → LoginReturned h r h
    was_busy :
        {h' : Host}
        → h.status ≡ verifying_password
        → Uncounted h h'
        → (h'.status ≡ receive_password_load) ⊎ (h'.status ≡ over_quit)
        → LoginReturned h LoginResult.busy h'
    was_wrong :
        {h' : Host}
        → h.status ≡ verifying_password
        → Failed l now username peer_ip h h'
        → h'.status ≡ register_or_load_over
        → LoginReturned h LoginResult.bad_credentials h'
    was_right :
        {h' : Host}
        → h.status ≡ verifying_password
        → Cleared username h h'
        → h'.status ≡ login
        → LoginReturned h LoginResult.ok h'

  finish_login-Returned :
      (r : LoginResult) (h : Host)
      → h.status ≡ verifying_password
      → LoginReturned h r (finish_login l now username peer_ip r h)
  unfolding finish_login draw
  finish_login-Returned LoginResult.busy h v =
      was_busy v (record { auth = refl; ip = refl })
        (render-Shown show_server_busy
          (without_input (with_status receive_password_load h)).world).drawn.kept.status
  finish_login-Returned LoginResult.bad_credentials h v =
      was_wrong v (record { auth = refl; ip = refl }) refl
  finish_login-Returned LoginResult.ok h v = was_right v (record { auth = refl; ip = refl }) refl

  -- The answer to a login changes nothing when the connection has left `verifying_password`.
  -- Otherwise: a busy queue counts nothing, and the password can be entered again; wrong credentials
  -- count one failure against the name and one against the address, and the state is
  -- `register_or_load_over`; right ones forget the failures of the name, keep those of the address,
  -- and the state is `login`. The last two states are set even when the socket broke while the
  -- screen was sent, which had ended the connection.
  pub login_returned-Counts :
      (r : LoginResult) (h : Host) → LoginReturned h r (login_returned l now username peer_ip r h)
  unfolding login_returned
  login_returned-Counts r h =
      elim (Status-discrete h.status verifying_password)
        as (λ d.
          LoginReturned h r (elim d as (λ _. Host) [
            | yes _ ↦ finish_login l now username peer_ip r h
            | no _ ↦ h
          ])) [ yes v ↦ finish_login-Returned r h v | no n ↦ late n ]

  pub data ChangeReturned (h : Host) : PasswordChangeResult → Host → Type 0 where
    late : {r : PasswordChangeResult} → h.status ≢ verifying_password → ChangeReturned h r h
    was_right :
        {h' : Host}
        → h.status ≡ verifying_password
        → Cleared username h h'
        → h'.status ≡ login_over
        → h'.password ≡ []
        → ChangeReturned h PasswordChangeResult.ok h'
    was_wrong :
        {h' : Host}
        → h.status ≡ verifying_password
        → Failed l now username peer_ip h h'
        → h'.status ≡ login_over
        → h'.password ≡ []
        → ChangeReturned h PasswordChangeResult.bad_credentials h'
    was_not_checked :
        {r : PasswordChangeResult} {h' : Host}
        → h.status ≡ verifying_password
        → (r ≡ PasswordChangeResult.busy) ⊎ (r ≡ PasswordChangeResult.error)
        → Uncounted h h'
        → h'.status ≡ login_over
        → h'.password ≡ []
        → ChangeReturned h r h'

  finish_change-Returned :
      (r : PasswordChangeResult) (h : Host)
      → h.status ≡ verifying_password
      → ChangeReturned h r
          (finish_change l now username peer_ip r (without_input (without_password h)))
  unfolding finish_change draw
  finish_change-Returned PasswordChangeResult.ok h v =
      was_right v (record { auth = refl; ip = refl }) refl
        (draw-password show_password_changed (without_input h))
  finish_change-Returned PasswordChangeResult.bad_credentials h v =
      was_wrong v (record { auth = refl; ip = refl }) refl
        (draw-password (show_change_password_error wrong_old) (without_input h))
  finish_change-Returned PasswordChangeResult.busy h v =
      was_not_checked v (inl refl) (record { auth = refl; ip = refl }) refl
        (draw-password (show_change_password_error busy_change) (without_input h))
  finish_change-Returned PasswordChangeResult.error h v =
      was_not_checked v (inr refl) (record { auth = refl; ip = refl }) refl
        (draw-password (show_change_password_error error_change) (without_input h))

  -- The answer to a change of the password changes nothing when the connection has left
  -- `verifying_password`. Otherwise the connection forgets the password and its state is
  -- `login_over`; a wrong password counts a failure against the name and one against the address,
  -- a change that was made forgets the failures of the name, and a busy queue or an error of the
  -- store count nothing.
  pub change_returned-Counts :
      (r : PasswordChangeResult) (h : Host)
      → ChangeReturned h r (change_returned l now username peer_ip r h)
  unfolding change_returned
  change_returned-Counts r h =
      elim (Status-discrete h.status verifying_password)
        as (λ d. ChangeReturned h r (elim d as (λ _. Host) [
          | yes _ ↦ finish_change l now username peer_ip r (without_input (without_password h))
          | no _ ↦ h
        ])) [ yes v ↦ finish_change-Returned r h v | no n ↦ late n ]
