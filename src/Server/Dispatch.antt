-- ===== src/Server/Dispatch.antt =====
-- `Server::handleClientData`: the handler of the state that a connection is in.
pub mod Still
pub mod Edges
pub mod Handled
pub mod Sessions
use russia_tetris.Base.{ℕ, List, [], Option, none, some}
use russia_tetris.Status.{
  Status, playing, over_confirming, select_game_difficulty, notstart, login, login_over,
  receive_username_register, receive_password_register, receive_username_load,
  receive_password_load, register_or_load_over, verifying_password, change_password_old,
  change_password_new,
}
use russia_tetris.Output.{open_batch, close_batch}
use russia_tetris.Server.{Host, Limits, Event, Act, ◌>>=◌, ◌>>◌, return, set_receivedata}
use russia_tetris.Server.Line.{receive_data}
use russia_tetris.Server.Games.{
  Table, Draws, process_play, process_over_confirming, process_select_game_difficulty,
}
use russia_tetris.Server.Forms.{
  process_notstart, process_username_register, process_username_load, process_login,
  process_login_over, process_register_or_load_over, process_change_password_old,
}
use russia_tetris.Server.Credentials.{
  process_password_register, process_password_load, process_change_password_new,
}

-- What arrives while a password is checked is read and dropped.
unfoldable pub drop_input : Event → Act (Unit {0})
unfolding receive_data
drop_input e = receive_data e.incoming >>= λ _. set_receivedata []

-- The states of the menus; nothing for the others, where it is not called but for `over_quit`.
unfoldable pub menu_of : Limits → Event → Status → Act (Unit {0})
unfolding process_notstart process_username_register process_username_load process_login
    process_login_over process_register_or_load_over process_change_password_old
    process_password_register process_password_load process_change_password_new drop_input
menu_of l e s h = elim s [
  | notstart ↦ process_notstart e h
  | receive_username_register ↦ process_username_register e h
  | receive_password_register ↦ process_password_register l e h
  | receive_username_load ↦ process_username_load e h
  | receive_password_load ↦ process_password_load l e h
  | verifying_password ↦ drop_input e h
  | login ↦ process_login e h
  | login_over ↦ process_login_over e h
  | register_or_load_over ↦ process_register_or_load_over e h
  | change_password_old ↦ process_change_password_old e h
  | change_password_new ↦ process_change_password_new l e h
  | _ ↦ (some tt, h)
]

-- The difficulty menu and the two states of a game are left to `Game`; a connection that has ended
-- has no handler.
unfoldable pub dispatch :
    Limits → Event → Table → Draws → Status → Host → Option (Option (Unit {0}) × Host)
unfolding menu_of process_play process_over_confirming process_select_game_difficulty
dispatch l e t d s h = elim s [
  | playing ↦ process_play e h
  | over_confirming ↦ process_over_confirming e h
  | select_game_difficulty ↦ process_select_game_difficulty e t d h
  | other ↦ some (menu_of l e other h)
]

-- The outputs of one event are collected, and sent at its end. `none` is an access outside of the
-- board.
unfoldable pub handle_client_data : Limits → Event → Table → Draws → Host → Option Host
unfolding dispatch open_batch close_batch
handle_client_data l e t d h =
    elim (dispatch l e t d h.status (record h { world = open_batch h.world })) [
      | none ↦ none
      | some (r, h') ↦ some (record h' { world = close_batch h'.world })
    ]
