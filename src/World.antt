-- ===== src/World.antt =====
-- src/TetrisGame/User.h and User.cpp: what one connection holds, and what the code around it
-- keeps outside of the object: the batch depth of src/Utility/Utility.cpp and the socket.
use russia_tetris.Base.{ℕ, ℤ, List, Bool}
use russia_tetris.Status.{Status}

-- The part of `User` that the game reads and writes. `data` is called `cells`; both arrays are
-- functions of row and column, and are only read and written through `GetData` and the like,
-- which fail outside of [0, 24) x [0, 30).
pub record Play : Type 0 where
  pub line : ℕ
  pub score : ℕ
  pub shape : ℕ
  pub form : ℕ
  pub next_shape : ℕ
  pub next_form : ℕ
  pub row : ℤ
  pub col : ℤ
  pub cells : ℕ → ℕ → ℕ
  pub colors : ℕ → ℕ → ℤ

-- Texts are lists of bytes, points of time are in nanoseconds.
pub record User : Type 0 where
  pub fd : ℤ
  pub peer_ip : ℕ
  pub status : Status
  pub play : Play
  pub open play use *
  pub username : List ℕ
  pub password : List ℕ
  pub maximum_score_easy : ℕ
  pub scores : List ℕ
  pub game_diffclutys : List (List ℕ)
  pub receivedata : List ℕ
  pub sendbuf : List ℕ
  pub pendingoutput : Bool
  pub speed : ℕ
  pub last_trigger_time : ℕ
  pub current_time : ℕ
  pub game_diffculty : List ℕ

-- What the next call of `send` does: the kernel takes `n` more bytes, or all that are left when
-- they are fewer (it returns that number, 0 included); EINTR; EAGAIN or EWOULDBLOCK; any other
-- error.
pub data Reply : Type 0 where
  accepts : ℕ → Reply
  interrupted would_block broken : Reply

-- A job in `Filedata`'s queue of writes. The one that saves a score holds the connection's object,
-- and reads the score, the name and the difficulty when it runs; the others have copies of a name, of
-- one or two passwords and of the address that their callback uses.
pub data WriteTask : Type 0 where
  update_top_score_recent_score : WriteTask
  save_new_user_data : List ℕ → List ℕ → WriteTask
  login_task : List ℕ → List ℕ → ℕ → WriteTask
  change_password_task : List ℕ → List ℕ → List ℕ → ℕ → WriteTask
  read_recent_grades read_all_player_info : WriteTask

-- `depth` is `gOutputBatchDepth`. `replies` are the results of the calls of `send` to come, in
-- their order; past its end the socket would block. `delivered` is what the kernel has taken so
-- far, `closed` the descriptors that were passed to `close`.
pub record World : Type 0 where
  pub user : User
  pub open user use *
  pub depth : ℕ
  pub replies : List Reply
  pub delivered : List ℕ
  pub closed : List ℤ
  pub write_queue : List WriteTask

abbrev pub set_play : World → Play → World
set_play w p = record w { user = record w.user { play = p } }

abbrev pub set_status : World → Status → World
set_status w s = record w { user = record w.user { status = s } }
