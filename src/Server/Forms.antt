-- ===== src/Server/Forms.antt =====
-- src/TetrisGame/Server.cpp: the menus, the names, and the current password.
use russia_tetris.Base.{
  ℕ, ◌+◌, List, [], ◌∷◌, Bool, true, false, not, ◌&&◌, ◌==◌, if◌then◌else◌, none, length,
}
use russia_tetris.Status.{
  Status, notstart, login, login_over, receive_username_register, receive_password_register,
  receive_username_load, receive_password_load, select_game_difficulty, change_password_old,
  change_password_new,
}
use russia_tetris.World.{read_recent_grades, read_all_player_info}
use russia_tetris.Screens.{wipe, line, menu_col, middle, replace_line}
use russia_tetris.Screens.Texts.{wrong_input}
use russia_tetris.Screens.Labels.{loading, loading_top}
use russia_tetris.Screens.Menus.{
  show_init_menu, show_receive_username, show_receive_password, show_username_empty_error,
  show_username_taken_error, show_password_empty_error, show_receive_new_password,
  show_change_password_old, show_game_difficulty, show_error_message,
}
use russia_tetris.Server.{
  Event, Act, ◌>>=◌, ◌>>◌, return, set_status, set_receivedata, set_username, set_password,
  push_task, show,
}
use russia_tetris.Server.Line.{
  receive_data, typed, return_to_init_menu, return_to_load_menu, receive_entry,
}

-- WINDOW_ROW_COUNT / 3
abbrev pub upper : ℕ
upper = 8

-- The two screens that are filled in later, by the answer to a task.
unfoldable pub show_recent_scores : Act (Unit {0})
unfolding show
show_recent_scores = show (wipe ∷ line upper menu_col loading ∷ []) >> push_task read_recent_grades

unfoldable pub show_top_scores : Act (Unit {0})
unfolding show
show_top_scores =
    show (wipe ∷ line upper menu_col loading_top ∷ []) >> push_task read_all_player_info

-- Utility.cpp: no account has the empty name.
unfoldable pub is_user_exists : Event → List ℕ → Bool
is_user_exists e name = not (length name == 0) && e.account_exists name

-- The rest of `receive_username_register` once a name was entered.
unfoldable pub new_name : Event → List ℕ → Act ℕ
unfolding show is_user_exists
new_name e name =
    if is_user_exists e name
    then show (show_username_taken_error (middle + 1)) >> set_receivedata [] >> return 0
    else set_username name >> show show_receive_password >> return 1

unfoldable pub given_name : List ℕ → Act ℕ
unfolding show
given_name name = set_username name >> show show_receive_password >> return 1

unfoldable pub given_old : List ℕ → Act ℕ
unfolding show
given_old password = set_password password >> show show_receive_new_password >> return 1

-- if (entry == "") return 2; otherwise the rest
abbrev pub if_entered : (List ℕ → Act ℕ) → List ℕ → Act ℕ
if_entered rest entry = if length entry == 0 then return 2 else rest entry

unfoldable pub register_username : Event → Act ℕ
unfolding receive_entry new_name
register_username e =
    receive_entry e.incoming (show_username_empty_error (middle + 1)) >>= if_entered (new_name e)

unfoldable pub load_username : Event → Act ℕ
unfolding receive_entry given_name
load_username e =
    receive_entry e.incoming (show_username_empty_error (middle + 1)) >>= if_entered given_name

unfoldable pub changepassword_old : Event → Act ℕ
unfolding receive_entry given_old
changepassword_old e =
    receive_entry e.incoming (show_password_empty_error (middle + 2)) >>= if_entered given_old

-- if (receivedata == "...") ... else if ... else: the first key of the list that was typed, or
-- `other`.
unfoldable pub choose : List (ℕ × Act ℕ) → Act ℕ → Act ℕ
unfolding typed
choose [] other h = other h
choose ((digit, chosen) ∷ rest) other h = elim (typed digit h) [
  | true ↦ chosen h
  | false ↦ choose rest other h
]

abbrev pub main_keys : List (ℕ × Act ℕ)
main_keys =
    (1, show_recent_scores >> return 1)
    ∷ (2, show_top_scores >> return 2)
    ∷ (3, show show_game_difficulty >> return 3)
    ∷ (4, show show_init_menu >> return 4)
    ∷ (5, show show_change_password_old >> return 6)
    ∷ []

abbrev pub other_key : Act ℕ
other_key = show (show_error_message (middle + 14)) >> set_receivedata [] >> return 5

-- The main menu: the key, 5 for any other line or none.
unfoldable pub login_user : Event → Act ℕ
unfolding receive_data choose
login_user e =
    receive_data e.incoming >>= λ temp. if temp == 1 then choose main_keys other_key else return 5

-- setStatus(s); setReceivedata("")
abbrev pub enter : Status → Act (Unit {0})
enter s = set_status s >> set_receivedata []

-- if (key == ...) ... else if ...: the state that the list gives for the result of a handler.
unfoldable pub enter_by : List (ℕ × Status) → ℕ → Act (Unit {0})
enter_by [] key = return tt
enter_by ((code, s) ∷ rest) key = if key == code then enter s else enter_by rest key

-- The menu before a login has no result of its own; it is 1 and 2 here for the two keys.
abbrev pub start_keys : List (ℕ × Act ℕ)
start_keys =
    (1, show show_receive_username >> return 1) ∷ (2, show show_receive_username >> return 2) ∷ []

abbrev pub start_other : Act ℕ
start_other = set_receivedata [] >> show (replace_line (middle + 4) wrong_input) >> return 0

unfoldable pub process_notstart : Event → Act (Unit {0})
unfolding receive_data choose enter_by
process_notstart e =
    (receive_data e.incoming >>= λ temp.
    if temp == 1 then choose start_keys start_other else return 0)
    >>= enter_by ((1, receive_username_register) ∷ (2, receive_username_load) ∷ [])

unfoldable pub process_username_register : Event → Act (Unit {0})
unfolding register_username enter_by
process_username_register e =
    if e.players_loaded
    then register_username e >>= enter_by ((1, receive_password_register) ∷ [])
    else λ h. (none, h)

unfoldable pub process_username_load : Event → Act (Unit {0})
unfolding load_username enter_by
process_username_load e = load_username e >>= enter_by ((1, receive_password_load) ∷ [])

unfoldable pub process_login : Event → Act (Unit {0})
unfolding login_user enter_by
process_login e =
    login_user e
    >>= enter_by (
        (1, login_over)
        ∷ (2, login_over)
        ∷ (3, select_game_difficulty)
        ∷ (4, notstart)
        ∷ (6, change_password_old)
        ∷ [])

-- returnToLoadMenu(user, WINDOW_ROW_COUNT / 3 + 20)
unfoldable pub process_login_over : Event → Act (Unit {0})
unfolding return_to_load_menu enter_by
process_login_over e = return_to_load_menu e.incoming (upper + 20) >>= enter_by ((1, login) ∷ [])

unfoldable pub process_register_or_load_over : Event → Act (Unit {0})
unfolding return_to_init_menu enter_by
process_register_or_load_over e = return_to_init_menu e.incoming >>= enter_by ((1, notstart) ∷ [])

unfoldable pub process_change_password_old : Event → Act (Unit {0})
unfolding changepassword_old
process_change_password_old e =
    changepassword_old e >>= λ key. if key == 1 then set_status change_password_new else return tt
