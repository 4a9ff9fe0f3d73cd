-- ===== src/Screens/Menus.antt =====
-- The screens up to the choice of a difficulty.
use russia_tetris.Base.{ℕ, ◌+◌, pos, List, [], ◌∷◌, ◌++◌}
use russia_tetris.Output.Decimal.{to_string}
use russia_tetris.Screens.{Item, wipe, line, menu_col, middle, replace_line}
use russia_tetris.Screens.Texts.{
  choose_prompt, item_register, item_login, enter_username, wrong_input, username_empty,
  username_taken, enter_password, password_empty, password_short, registered, three_to_return,
  login_failed, three_goes_back, login_too_often, seconds_retry, register_too_often, seconds_later,
  server_busy, change_title, enter_old, enter_new, new_unchanged, changed, use_new, three_to_menu,
}
use russia_tetris.Screens.Labels.{
  item_recent, item_top, item_start, item_back, item_change, your_choice, item_easy, item_normal,
  item_hard, item_upper,
}

abbrev pub show_init_menu : List Item
show_init_menu =
    wipe
    ∷ line middle menu_col choose_prompt
    ∷ line (middle + 1) menu_col item_register
    ∷ line (middle + 2) menu_col item_login
    ∷ line (middle + 4) menu_col choose_prompt
    ∷ []

abbrev pub show_receive_username : List Item
show_receive_username = wipe ∷ line middle menu_col enter_username ∷ []

abbrev pub show_error_message : ℕ → List Item
show_error_message i = replace_line i wrong_input

abbrev pub show_username_empty_error : ℕ → List Item
show_username_empty_error i = replace_line i username_empty

abbrev pub show_username_taken_error : ℕ → List Item
show_username_taken_error i = replace_line i username_taken

abbrev pub show_receive_password : List Item
show_receive_password = line (middle + 3) menu_col enter_password ∷ []

abbrev pub show_password_empty_error : ℕ → List Item
show_password_empty_error i = replace_line i password_empty

abbrev pub show_password_too_short_error : ℕ → List Item
show_password_too_short_error i = replace_line i password_short

abbrev pub show_register_success : List Item
show_register_success =
    line (middle + 4) menu_col registered ∷ line (middle + 5) menu_col three_to_return ∷ []

abbrev pub show_login_failure : List Item
show_login_failure =
    line (middle + 4) menu_col login_failed ∷ line (middle + 5) menu_col three_goes_back ∷ []

abbrev pub show_login_throttled : ℕ → List Item
show_login_throttled seconds =
    line (middle + 4) menu_col (login_too_often ++ to_string (pos seconds) ++ seconds_retry)
    ∷ line (middle + 5) menu_col enter_password
    ∷ []

abbrev pub show_registration_throttled : ℕ → List Item
show_registration_throttled seconds =
    wipe
    ∷ line middle menu_col (register_too_often ++ to_string (pos seconds) ++ seconds_later)
    ∷ line (middle + 2) menu_col three_to_return
    ∷ []

abbrev pub show_server_busy : List Item
show_server_busy =
    line (middle + 4) menu_col server_busy ∷ line (middle + 5) menu_col enter_password ∷ []

abbrev pub show_change_password_old : List Item
show_change_password_old =
    wipe ∷ line middle menu_col change_title ∷ line (middle + 2) menu_col enter_old ∷ []

abbrev pub show_receive_new_password : List Item
show_receive_new_password = line (middle + 4) menu_col enter_new ∷ []

abbrev pub show_password_unchanged_error : List Item
show_password_unchanged_error = replace_line (middle + 4) new_unchanged

abbrev pub show_password_changed : List Item
show_password_changed =
    wipe
    ∷ line middle menu_col changed
    ∷ line (middle + 1) menu_col use_new
    ∷ line (middle + 3) menu_col three_to_menu
    ∷ []

abbrev pub show_change_password_error : List ℕ → List Item
show_change_password_error message =
    wipe ∷ line middle menu_col message ∷ line (middle + 2) menu_col three_to_menu ∷ []

abbrev pub show_load_menu : List Item
show_load_menu =
    wipe
    ∷ line middle menu_col choose_prompt
    ∷ line (middle + 2) menu_col item_recent
    ∷ line (middle + 4) menu_col item_top
    ∷ line (middle + 6) menu_col item_start
    ∷ line (middle + 8) menu_col item_back
    ∷ line (middle + 10) menu_col item_change
    ∷ line (middle + 12) menu_col your_choice
    ∷ []

abbrev pub show_game_difficulty : List Item
show_game_difficulty =
    wipe
    ∷ line middle menu_col item_easy
    ∷ line (middle + 2) menu_col item_normal
    ∷ line (middle + 4) menu_col item_hard
    ∷ line (middle + 6) menu_col item_upper
    ∷ line (middle + 8) menu_col choose_prompt
    ∷ []
