-- ===== src/Server/Credentials.antt =====
-- src/TetrisGame/Server.cpp: the passwords that a task checks, and the callbacks of the tasks.
pub mod Waits
pub mod Registers
use russia_tetris.Base.{
  ℕ, ◌+◌, ◌*◌, List, [], ◌∷◌, ◌++◌, Bool, true, false, not, ◌&&◌, ◌==◌, ltb, if◌then◌else◌, Option,
  none, some, length, pos, same_text,
}
use russia_tetris.Status.{
  Status, Status-discrete, login, login_over, receive_password_load, register_or_load_over,
  verifying_password,
}
use russia_tetris.World.{WriteTask, save_new_user_data, login_task, change_password_task}
use russia_tetris.Output.Decimal.{to_string}
use russia_tetris.Throttle.Auth
use russia_tetris.Throttle.Window.{now_ms}
use russia_tetris.Throttle.Ip
use russia_tetris.Throttle.Reg
use russia_tetris.Password
use russia_tetris.Screens.{Item, line, menu_col, middle, render}
use russia_tetris.Screens.Notices.{
  logging_in, changing, change_too_often, wrong_old, busy_change, error_change,
}
use russia_tetris.Screens.Texts.{seconds_retry}
use russia_tetris.Screens.Menus.{
  show_password_empty_error, show_password_too_short_error, show_password_unchanged_error,
  show_registration_throttled, show_register_success, show_login_throttled, show_login_failure,
  show_server_busy, show_change_password_error, show_password_changed, show_load_menu,
}
use russia_tetris.Server.{
  Host, Limits, Incoming, Event, Act, ◌>>=◌, ◌>>◌, return, change_world, set_status,
  set_receivedata, set_password, push_task, show,
}
use russia_tetris.Server.Line.{receive_entry}
use russia_tetris.Server.Forms.{enter_by, if_entered}

-- A call of a limiter that answers and may forget an entry, and one that counts.
abbrev pub ask_auth : Limits → Event → Act Auth.Decision
ask_auth l e h =
    let (d, s) = Auth.check l.auth_limits h.username e.now h.auth in (some d, record h { auth = s })

abbrev pub ask_ip : Limits → Event → Act Auth.Decision
ask_ip l e h =
    let (d, s) = Ip.check l.ip_limits h.peer_ip (now_ms e.now) h.ip in (some d, record h { ip = s })

abbrev pub ask_reg : Limits → Event → Act Reg.Answer
ask_reg l e h =
    let (d, s) = Reg.check l.reg_limits h.peer_ip (now_ms e.now) h.reg in
    (some d, record h { reg = s })

abbrev pub count_attempt : Limits → Event → Act (Unit {0})
count_attempt l e h =
    (some tt, record h { reg = Reg.on_attempt l.reg_limits h.peer_ip (now_ms e.now) h.reg })

-- Filedata::saveNewUserDataAsync
abbrev pub save_new_user : Act (Unit {0})
save_new_user h = push_task (save_new_user_data h.username h.password) h

-- The steps of a registration once a password was entered.
unfoldable pub try_registration : Limits → Event → List ℕ → Act ℕ
unfolding show Reg.check Reg.on_attempt Password.check
try_registration l e password = ask_reg l e >>= λ answer.
    if answer.decision.throttled
    then (set_receivedata []
        >> show (show_registration_throttled answer.decision.retry_after)
        >> return 1)
    else if not (Password.check password)
    then set_receivedata [] >> show (show_password_too_short_error (middle + 3)) >> return 0
    else (set_password password
        >> count_attempt l e
        >> save_new_user
        >> show show_register_success
        >> return 1)

unfoldable pub enter_registration : Limits → Event → Act ℕ
unfolding receive_entry try_registration
enter_registration l e =
    receive_entry e.incoming (show_password_empty_error (middle + 3)) >>= λ password.
    if length password == 0 then return 0 else try_registration l e password

unfoldable pub register_password : Limits → Event → Act ℕ
unfolding enter_registration
register_password l e = if e.players_loaded then enter_registration l e else return 0

unfoldable pub refuse_login : ℕ → Act ℕ
unfolding show
refuse_login seconds = set_receivedata [] >> show (show_login_throttled seconds) >> return 2

unfoldable pub submit_login : List ℕ → Act ℕ
submit_login password = set_password password >> set_status verifying_password >> λ h.
    (push_task (login_task h.username password h.peer_ip) >> return 1) h

-- The steps of a login once a password was entered: the limit of the address, that of the name.
unfoldable pub try_login : Limits → Event → List ℕ → Act ℕ
unfolding refuse_login submit_login Ip.check Auth.check
try_login l e password = ask_ip l e >>= λ by_ip.
    if by_ip.throttled
    then refuse_login by_ip.retry_after
    else (ask_auth l e >>= λ by_name.
        if by_name.throttled then refuse_login by_name.retry_after else submit_login password)

unfoldable pub load_password : Limits → Event → Act ℕ
unfolding receive_entry try_login
load_password l e =
    receive_entry e.incoming (show_password_empty_error (middle + 3)) >>= λ password.
    if length password == 0 then return 2 else try_login l e password

-- The seconds to wait, 0 when neither limit refuses.
unfoldable pub retry_after_seconds : Limits → Event → Act ℕ
unfolding Ip.check Auth.check
retry_after_seconds l e = ask_ip l e >>= λ by_ip.
    if by_ip.throttled
    then return by_ip.retry_after
    else (ask_auth l e >>= λ by_name.
        if by_name.throttled then return by_name.retry_after else return 0)

unfoldable pub submit_change : List ℕ → Act ℕ
submit_change new_password h =
    (set_status verifying_password
        >> push_task (change_password_task h.username h.password new_password h.peer_ip)
        >> return 1)
      h

unfoldable pub try_change : Limits → Event → List ℕ → Act ℕ
unfolding retry_after_seconds submit_change show
try_change l e new_password = retry_after_seconds l e >>= λ seconds.
    if ltb 0 seconds
    then (set_password []
        >> set_receivedata []
        >> show (
            show_change_password_error
              (change_too_often ++ to_string (pos seconds) ++ seconds_retry))
        >> return 3)
    else submit_change new_password

unfoldable pub try_new : Limits → Event → List ℕ → Act ℕ
unfolding Password.check try_change show same_text
try_new l e new_password h = elim (Password.check new_password) [
  | false ↦ (set_receivedata [] >> show (show_password_too_short_error (middle + 2)) >> return 0) h
  | true ↦ elim (same_text new_password h.password) [
    | true ↦ (set_receivedata [] >> show show_password_unchanged_error >> return 0) h
    | false ↦ try_change l e new_password h
  ]
]

unfoldable pub changepassword_new : Limits → Event → Act ℕ
unfolding receive_entry try_new
changepassword_new l e =
    receive_entry e.incoming (show_password_empty_error (middle + 4)) >>= if_entered (try_new l e)

unfoldable pub process_password_register : Limits → Event → Act (Unit {0})
unfolding register_password enter_by
process_password_register l e = register_password l e >>= enter_by ((1, register_or_load_over) ∷ [])

-- outputText(...), its result dropped.
unfoldable pub note : List ℕ → Act (Unit {0})
unfolding render
note text h =
    (some tt, record h { world = (render (line (middle + 4) menu_col text ∷ []) h.world).1 })

abbrev pub note_by : List ℕ → ℕ → Act (Unit {0})
note_by text key = if key == 1 then note text else return tt

unfoldable pub process_password_load : Limits → Event → Act (Unit {0})
unfolding load_password note
process_password_load l e = load_password l e >>= note_by logging_in

abbrev pub change_by : ℕ → Act (Unit {0})
change_by key =
    if key == 1 then note changing else if key == 3 then set_status login_over else return tt

unfoldable pub process_change_password_new : Limits → Event → Act (Unit {0})
unfolding changepassword_new note
process_change_password_new l e = changepassword_new l e >>= change_by
