-- ===== src/Server/Games.antt =====
-- src/TetrisGame/Game.cpp: the handlers that `handleClientData` calls for a game, for its end and for
-- its difficulty; and src/TetrisGame/User.cpp: `resetUserInfo` and `initUserInfo`.
use russia_tetris.Base.{
  ℕ, ◌+◌, pos, negsuc, List, [], ◌∷◌, Bool, true, false, ◌||◌, ◌==◌, if◌then◌else◌, Option, none,
  some, same_text,
}
use russia_tetris.Status.{notstart, playing, login, select_game_difficulty}
use russia_tetris.World.{World}
use russia_tetris.Output.{color_white}
use russia_tetris.Effect.{M, modify, lift, ◌⟫◌}
use russia_tetris.Game.Draw.{text}
use russia_tetris.Game.Start.{init_game_face}
use russia_tetris.Game.Play.{Received, process_playing, give_up, repaint}
use russia_tetris.Screens.{render, middle, menu_col}
use russia_tetris.Screens.Menus.{
  show_init_menu, show_game_difficulty, show_load_menu, show_error_message,
}
use russia_tetris.Screens.Scores.{Player}
use russia_tetris.Server.{Host, Incoming, no_data, recv_error, disconnected, bytes, Event}
use russia_tetris.Server.Line.{receive_data, typed}

-- The players that the server knows, and the four draws of `rand` of a new game.
abbrev pub Table : Type 0
Table = List Player

pub record Draws : Type 0 where
  pub first : ℕ
  pub first_form : ℕ
  pub second : ℕ
  pub second_form : ℕ

-- A function of the game called on the server; `false` is `none`.
abbrev pub game : M Bool → Host → Option (Option (Unit {0}) × Host)
game m h = elim (m h.world) [
  | none ↦ none
  | some (b, w) ↦ some ((if b then some tt else none), record h { world = w })
]

-- `recv` in the states of a game: every error ends the connection, EAGAIN included.
abbrev pub received : Incoming → Received
received no_data = Received.broken_off
received recv_error = Received.broken_off
received disconnected = Received.broken_off
received (bytes buffer) = Received.bytes buffer

unfoldable pub process_play : Event → Host → Option (Option (Unit {0}) × Host)
unfolding process_playing
process_play e h = game (process_playing (received e.incoming)) h

-- What stays: the descriptor, the piece, the clock of the timer, the speed, the difficulty and the
-- best score.
unfoldable pub reset_user_info : World → World
reset_user_info w = record w {
  user = record w.user {
    status = notstart;
    play = record w.play { line = 0; score = 0; cells = λ _ _. 0; colors = λ _ _. negsuc 0 };
    username = [];
    password = [];
    receivedata = [];
    peer_ip = 0;
    scores = [];
    game_diffclutys = [];
    sendbuf = [];
    pendingoutput = false;
  };
}

-- setStatus(STATUS_SELECT_GAME_DIFFICULTY); setScore(0); setScores({}); setGameDiffclutys({})
abbrev pub again : World → World
again w = record w {
  user = record w.user {
    status = select_game_difficulty;
    play = record w.play { score = 0 };
    scores = [];
    game_diffclutys = [];
  };
}

-- "选择错误，请再次选择"
abbrev pub wrong_choice : List ℕ
wrong_choice =
    233 ∷ 128 ∷ 137 ∷ 230 ∷ 139 ∷ 169 ∷ 233 ∷ 148 ∷ 153 ∷ 232 ∷ 175 ∷ 175 ∷ 239 ∷ 188 ∷ 140 ∷ 232
    ∷ 175 ∷ 183 ∷ 229 ∷ 134 ∷ 141 ∷ 230 ∷ 172 ∷ 161 ∷ 233 ∷ 128 ∷ 137 ∷ 230 ∷ 139 ∷ 169 ∷ []

-- The first byte decides.
unfoldable pub handle_confirming : ℕ → M Bool
unfolding render reset_user_info repaint
handle_confirming first =
    if first == 89 || first == 121
    then lift (render show_game_difficulty) ⟫ modify again
    else if first == 110 || first == 78
    then modify reset_user_info ⟫ lift (render show_init_menu)
    else if first == 114 || first == 82
    then repaint
    else text (pos (middle + 4)) (pos menu_col) color_white wrong_choice

first_of : List ℕ → ℕ
first_of [] = 0
first_of (c ∷ cs) = c

confirm : Received → M Bool
unfolding handle_confirming first_of
confirm (Received.bytes buffer) = handle_confirming (first_of buffer)
confirm Received.broken_off = λ w. some (false, give_up w)

unfoldable pub process_over_confirming : Event → Host → Option (Option (Unit {0}) × Host)
unfolding confirm
process_over_confirming e h = game (confirm (received e.incoming)) h

unfoldable pub find_player : Table → List ℕ → Option Player
unfolding same_text
find_player [] name = none
find_player (p ∷ ps) name = elim (same_text p.playername name) [
  | true ↦ some p
  | false ↦ find_player ps name
]

-- The players of the table have no lists of scores, which are then not copied either.
unfoldable pub init_user_info : Table → World → World
unfolding find_player
init_user_info t w = elim (find_player t w.username) [
  | none ↦ w
  | some p ↦ record w { user = record w.user { maximum_score_easy = p.easy.score } }
]

-- The speed is in milliseconds here.
abbrev pub begin : Table → List ℕ → ℕ → World → World
begin t difficulty speed w =
    init_user_info t
      (record w { user = record w.user { game_diffculty = difficulty; speed = speed } })

unfoldable pub start_game : Table → Draws → List ℕ → ℕ → M Bool
unfolding init_game_face init_user_info
start_game t d difficulty speed =
    init_game_face d.first d.first_form d.second d.second_form ⟫ modify (begin t difficulty speed)

-- setReceivedata(""); setStatus(STATUS_PLAYING)
abbrev pub play_on : World → World
play_on w = record w { user = record w.user { receivedata = []; status = playing } }

-- "EASY", "NORMAL" and "DIFFICULT"
abbrev pub easy_name : List ℕ
easy_name = 69 ∷ 65 ∷ 83 ∷ 89 ∷ []

abbrev pub normal_name : List ℕ
normal_name = 78 ∷ 79 ∷ 82 ∷ 77 ∷ 65 ∷ 76 ∷ []

abbrev pub difficult_name : List ℕ
difficult_name = 68 ∷ 73 ∷ 70 ∷ 70 ∷ 73 ∷ 67 ∷ 85 ∷ 76 ∷ 84 ∷ []

-- The key 4, and a line that is no key. A screen that fails gives 0 and not -1 here, so that the
-- handler goes on, and succeeds.
unfoldable pub leave_or_retry : Bool → World → World
unfolding render
leave_or_retry true w =
    let (b, w') = render show_load_menu w in
    if b then record w' { user = record w'.user { status = login; receivedata = [] } } else w'
leave_or_retry false w =
    let (b, w') = render (show_error_message (middle + 10)) w in
    if b then record w' { user = record w'.user { receivedata = [] } } else w'

-- What was typed in the difficulty menu.
unfoldable pub choose_difficulty : Table → Draws → Host → Option (Option (Unit {0}) × Host)
unfolding typed start_game leave_or_retry
choose_difficulty t d h = elim (typed 1 h) [
  | true ↦ game (start_game t d easy_name 1000 ⟫ modify play_on) h
  | false ↦ elim (typed 2 h) [
    | true ↦ game (start_game t d normal_name 500 ⟫ modify play_on) h
    | false ↦ elim (typed 3 h) [
      | true ↦ game (start_game t d difficult_name 200 ⟫ modify play_on) h
      | false ↦ some (some tt, record h { world = leave_or_retry (typed 4 h) h.world })
    ]
  ]
]

-- `select_game_difficulty` and its caller: nothing is read when the table could not be loaded.
unfoldable pub process_select_game_difficulty :
    Event → Table → Draws → Host → Option (Option (Unit {0}) × Host)
unfolding receive_data choose_difficulty
process_select_game_difficulty e t d h =
    if e.players_loaded
    then (let (r, h') = receive_data e.incoming h in
        elim r [
          | none ↦ some (none, h')
          | some temp ↦ if temp == 1 then choose_difficulty t d h' else some (some tt, h')
        ])
    else some (some tt, h)
