-- ===== src/Server/Dispatch/Edges.antt =====
-- Which states the handlers of the menus lead to.
use russia_tetris.Base.{
  ℕ, ◌+◌, refl, inl, inr, List, [], ◌∷◌, true, false, ◌==◌, if◌then◌else◌, Option, none,
}
use russia_tetris.Status.{
  Status, notstart, login, login_over, receive_username_register, receive_password_register,
  receive_username_load, receive_password_load, register_or_load_over, select_game_difficulty,
  verifying_password, change_password_old, change_password_new,
}
use russia_tetris.World.{read_recent_grades, read_all_player_info}
use russia_tetris.Screens.{wipe, line, menu_col, middle, replace_line}
use russia_tetris.Screens.Texts.{wrong_input}
use russia_tetris.Screens.Labels.{loading, loading_top}
use russia_tetris.Screens.Menus.{
  show_init_menu, show_receive_username, show_receive_password, show_username_empty_error,
  show_username_taken_error, show_password_empty_error, show_receive_new_password,
  show_change_password_old, show_game_difficulty, show_error_message, show_load_menu,
}
use russia_tetris.Server.{
  Host, Event, Act, ◌>>=◌, ◌>>◌, return, set_status, set_receivedata, set_username, set_password,
  show,
}
use russia_tetris.Server.Line.{
  receive_data, typed, start_line, menu_line, return_to_init_menu, return_to_load_menu,
}
use russia_tetris.Server.Forms.{
  is_user_exists, show_recent_scores, show_top_scores, new_name, given_name, given_old, enter_by,
  register_username, load_username, changepassword_old, choose, main_keys, other_key, login_user,
  start_keys, start_other, process_notstart, process_username_register, process_username_load,
  process_login, process_login_over, process_register_or_load_over, process_change_password_old,
}
use russia_tetris.Server.Calm.{clear_show-Calm}
use russia_tetris.Server.Dispatch.Still.{
  Still, Leads, then_moves, then_enter, if-Leads, if-Still, show-return-Still, show_clear-Still,
  show_push-Still, on_line-Still, on_entry-Still, no_more, one_more, AllStill, choose-Still,
}

-- The moves between the states of the menus.
pub data Edge : Status → Status → Type 0 where
  to_register : Edge notstart receive_username_register
  to_load : Edge notstart receive_username_load
  name_chosen : Edge receive_username_register receive_password_register
  account_made : Edge receive_password_register register_or_load_over
  name_given : Edge receive_username_load receive_password_load
  password_given : Edge receive_password_load verifying_password
  to_scores : Edge login login_over
  to_game : Edge login select_game_difficulty
  to_start : Edge login notstart
  to_change : Edge login change_password_old
  to_menu : Edge login_over login
  go_back : Edge register_or_load_over notstart
  old_given : Edge change_password_old change_password_new
  new_given : Edge change_password_new verifying_password
  change_refused : Edge change_password_new login_over

new_name-Still : (e : Event) (name : List ℕ) (h : Host) → Still h (new_name e name h).1
unfolding new_name
new_name-Still e name h =
    if-Still {A = ℕ} (is_user_exists e name)
      (show (show_username_taken_error (middle + 1)) >> set_receivedata [] >> return 0)
      (set_username name >> show show_receive_password >> return 1) h
      (show_clear-Still (show_username_taken_error (middle + 1)) 0 h)
      (show-return-Still show_receive_password 1 (set_username name h).1)

given_name-Still : (name : List ℕ) (h : Host) → Still h (given_name name h).1
unfolding given_name
given_name-Still name h = show-return-Still show_receive_password 1 (set_username name h).1

given_old-Still : (p : List ℕ) (h : Host) → Still h (given_old p h).1
unfolding given_old
given_old-Still p h = show-return-Still show_receive_new_password 1 (set_password p h).1

main_keys-Still : AllStill main_keys
unfolding show_recent_scores show_top_scores
main_keys-Still =
    AllStill.one_more (show_push-Still (wipe ∷ line 8 menu_col loading ∷ []) read_recent_grades 1) (
      AllStill.one_more
        (show_push-Still (wipe ∷ line 8 menu_col loading_top ∷ []) read_all_player_info 2)
        (AllStill.one_more (show-return-Still show_game_difficulty 3) (
          AllStill.one_more (show-return-Still show_init_menu 4)
            (AllStill.one_more (show-return-Still show_change_password_old 6) AllStill.no_more))))

login_user-Still : (e : Event) (h : Host) → Still h (login_user e h).1
unfolding login_user
login_user-Still e h = on_line-Still e.incoming (choose main_keys other_key) 5 h λ h'.
    choose-Still main_keys other_key h' main_keys-Still
      (show_clear-Still (show_error_message (middle + 14)) 5 h')

start_keys-Still : AllStill start_keys
start_keys-Still =
    AllStill.one_more (show-return-Still show_receive_username 1)
      (AllStill.one_more (show-return-Still show_receive_username 2) AllStill.no_more)

pub process_notstart-Leads :
    (e : Event) (h : Host) → Leads (Edge notstart) h (process_notstart e h).1
unfolding process_notstart
process_notstart-Leads e h =
    then_enter (Edge notstart)
      (receive_data e.incoming >>= λ temp.
        if temp == 1 then choose start_keys start_other else return 0)
      ((1, receive_username_register) ∷ (2, receive_username_load) ∷ []) h
      (on_line-Still e.incoming (choose start_keys start_other) 0 h λ h'.
        choose-Still start_keys start_other h' start_keys-Still
          (clear_show-Calm (replace_line (middle + 4) wrong_input) 0 h').status)
      (one_more to_register (one_more to_load no_more))

pub process_login-Leads : (e : Event) (h : Host) → Leads (Edge login) h (process_login e h).1
unfolding process_login
process_login-Leads e h =
    then_enter (Edge login) (login_user e)
      ((1, login_over)
        ∷ (2, login_over)
        ∷ (3, select_game_difficulty)
        ∷ (4, notstart)
        ∷ (6, change_password_old)
        ∷ [])
      h (login_user-Still e h)
      (one_more to_scores
        (one_more to_scores (one_more to_game (one_more to_start (one_more to_change no_more)))))

pub process_username_register-Leads :
    (e : Event) (h : Host)
    → Leads (Edge receive_username_register) h (process_username_register e h).1
unfolding process_username_register register_username
process_username_register-Leads e h =
    let m = register_username e in
    let table = (1, receive_password_register) ∷ [] in
    if-Leads (Edge receive_username_register) e.players_loaded (m >>= enter_by table)
      (λ h'. (none, h')) h
      (then_enter (Edge receive_username_register) m table h
        (on_entry-Still e.incoming (show_username_empty_error (middle + 1)) (new_name e) h
          (new_name-Still e))
        (one_more name_chosen no_more))
      (inl (inl refl))

pub process_username_load-Leads :
    (e : Event) (h : Host) → Leads (Edge receive_username_load) h (process_username_load e h).1
unfolding process_username_load load_username
process_username_load-Leads e h =
    then_enter (Edge receive_username_load) (load_username e) ((1, receive_password_load) ∷ []) h
      (on_entry-Still e.incoming (show_username_empty_error (middle + 1)) given_name h
        given_name-Still)
      (one_more name_given no_more)

line-Still :
    (digit : ℕ) (chosen other : Act ℕ) (h : Host)
    → Still h (chosen h).1
    → Still h (other h).1
    → Still h
        (elim (typed digit h) as (λ _. Option ℕ × Host) [ true ↦ chosen h | false ↦ other h ]).1
line-Still digit chosen other h a b =
    elim (typed digit h)
      as (λ t. Still h (elim t as (λ _. Option ℕ × Host) [ true ↦ chosen h | false ↦ other h ]).1) [
        | true ↦ a
        | false ↦ b
      ]

pub process_login_over-Leads :
    (e : Event) (h : Host) → Leads (Edge login_over) h (process_login_over e h).1
unfolding process_login_over return_to_load_menu menu_line
process_login_over-Leads e h =
    let row = middle + 29 in
    then_enter (Edge login_over) (return_to_load_menu e.incoming 28) ((1, login) ∷ []) h
      (on_line-Still e.incoming (menu_line row) 2 h λ h'.
        line-Still 3 (show show_load_menu >> return 1)
          (set_receivedata [] >> show (show_error_message row) >> return 2) h'
          (show-return-Still show_load_menu 1 h')
          (clear_show-Calm (show_error_message row) 2 h').status)
      (one_more to_menu no_more)

pub process_register_or_load_over-Leads :
    (e : Event) (h : Host)
    → Leads (Edge register_or_load_over) h (process_register_or_load_over e h).1
unfolding process_register_or_load_over return_to_init_menu start_line
process_register_or_load_over-Leads e h =
    then_enter (Edge register_or_load_over) (return_to_init_menu e.incoming) ((1, notstart) ∷ []) h
      (on_line-Still e.incoming start_line 2 h λ h'.
        line-Still 3 (show show_init_menu >> return 1)
          (show (show_error_message (middle + 6)) >> set_receivedata [] >> return 2) h'
          (show-return-Still show_init_menu 1 h')
          (show_clear-Still (show_error_message (middle + 6)) 2 h'))
      (one_more go_back no_more)

pub process_change_password_old-Leads :
    (e : Event) (h : Host) → Leads (Edge change_password_old) h (process_change_password_old e h).1
unfolding process_change_password_old changepassword_old
process_change_password_old-Leads e h =
    then_moves (Edge change_password_old) (changepassword_old e)
      (λ key. if key == 1 then set_status change_password_new else return tt) h
      (on_entry-Still e.incoming (show_password_empty_error (middle + 2)) given_old h
        given_old-Still)
      (λ key h'.
        if-Leads (Edge change_password_old) (key == 1) (set_status change_password_new) (return tt)
          h' (inr old_given) (inl (inl refl)))
