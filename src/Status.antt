-- ===== src/Status.antt =====
-- src/Common/Common.h: the states of a connection, and the size of the window.
use russia_tetris.Base.{ℕ}

-- `enum GameStatus`, in the order of the source.
pub data Status : Type 0 where
  notstart playing over_confirming over_quit : Status
  login login_over : Status
  receive_username_register receive_password_register : Status
  receive_username_load receive_password_load : Status
  register_or_load_over select_game_difficulty : Status
  verifying_password change_password_old change_password_new : Status

pub Status-discrete : Discrete Status
Status-discrete = hlevel

abbrev pub window_row_count : ℕ
window_row_count = 24

abbrev pub window_col_count : ℕ
window_col_count = 20
