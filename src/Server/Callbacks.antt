-- ===== src/Server/Callbacks.antt =====
-- src/TetrisGame/Server.cpp: what the answers to the tasks of a login and of a change of the password do.
pub mod Returned
use russia_tetris.Base.{ℕ, List, [], ◌∷◌}
use russia_tetris.Status.{
  Status, Status-discrete, login, login_over, receive_password_load, register_or_load_over,
  verifying_password,
}
use russia_tetris.Throttle.Auth
use russia_tetris.Throttle.Window.{now_ms}
use russia_tetris.Throttle.Ip
use russia_tetris.Screens.{Item, render}
use russia_tetris.Screens.Notices.{wrong_old, busy_change, error_change}
use russia_tetris.Screens.Menus.{
  show_login_failure, show_server_busy, show_change_password_error, show_password_changed,
  show_load_menu,
}
use russia_tetris.Filedata.{LoginResult, PasswordChangeResult}
use russia_tetris.Server.{Host, Limits}

-- UImanage::show...(user), its result dropped.
unfoldable pub draw : List Item → Host → Host
unfolding render
draw items h = record h { world = (render items h.world).1 }

abbrev pub with_status : Status → Host → Host
with_status s h = record h { world = record h.world { user = record h.world.user { status = s } } }

abbrev pub without_input : Host → Host
without_input h = record h {
  world = record h.world { user = record h.world.user { receivedata = [] } };
}

abbrev pub without_password : Host → Host
without_password h = record h {
  world = record h.world { user = record h.world.user { password = [] } };
}

-- onFailure of both limiters, at one time.
abbrev pub count_failure : Limits → ℕ → List ℕ → ℕ → Host → Host
count_failure l now username peer_ip h = record h {
  auth = Auth.on_failure l.auth_limits username now h.auth;
  ip = Ip.on_failure l.ip_limits peer_ip (now_ms now) h.ip;
}

abbrev pub count_success : List ℕ → Host → Host
count_success username h = record h { auth = Auth.on_success username h.auth }

unfoldable pub finish_login : Limits → ℕ → List ℕ → ℕ → LoginResult → Host → Host
unfolding draw Auth.on_failure Auth.on_success Ip.on_failure
finish_login l now username peer_ip LoginResult.busy h =
    draw show_server_busy (without_input (with_status receive_password_load h))
finish_login l now username peer_ip LoginResult.bad_credentials h = without_input (
    with_status register_or_load_over
      (draw show_login_failure (count_failure l now username peer_ip h)))
finish_login l now username peer_ip LoginResult.ok h =
    without_input (with_status login (draw show_load_menu (count_success username h)))

-- A connection in another state than `verifying_password` is left as it is.
unfoldable pub login_returned : Limits → ℕ → List ℕ → ℕ → LoginResult → Host → Host
unfolding finish_login
login_returned l now username peer_ip result h =
    elim (Status-discrete h.status verifying_password) [
      | yes _ ↦ finish_login l now username peer_ip result h
      | no _ ↦ h
    ]

unfoldable pub finish_change : Limits → ℕ → List ℕ → ℕ → PasswordChangeResult → Host → Host
unfolding draw Auth.on_failure Auth.on_success Ip.on_failure
finish_change l now username peer_ip PasswordChangeResult.ok h =
    with_status login_over (draw show_password_changed (count_success username h))
finish_change l now username peer_ip PasswordChangeResult.bad_credentials h =
    with_status login_over
      (draw (show_change_password_error wrong_old) (count_failure l now username peer_ip h))
finish_change l now username peer_ip PasswordChangeResult.busy h =
    with_status login_over (draw (show_change_password_error busy_change) h)
finish_change l now username peer_ip PasswordChangeResult.error h =
    with_status login_over (draw (show_change_password_error error_change) h)

unfoldable pub change_returned : Limits → ℕ → List ℕ → ℕ → PasswordChangeResult → Host → Host
unfolding finish_change
change_returned l now username peer_ip result h =
    elim (Status-discrete h.status verifying_password) [
      | yes _ ↦ finish_change l now username peer_ip result (without_input (without_password h))
      | no _ ↦ h
    ]
