-- ===== src/Server/Line.antt =====
-- `Server::ReceiveData`, and the handlers that wait for a digit and the Enter key.
use russia_tetris.Base.{
  ℕ, ◌+◌, List, [], ◌∷◌, ◌++◌, Bool, true, false, ◌&&◌, ◌==◌, if◌then◌else◌, Option, none, some,
  same_text, length,
}
use russia_tetris.Status.{over_quit}
use russia_tetris.World.{World}
use russia_tetris.Game.Play.{c_string}
use russia_tetris.Screens.{Item, middle}
use russia_tetris.Screens.Menus.{show_init_menu, show_load_menu, show_error_message}
use russia_tetris.Server.{
  Host, Incoming, no_data, recv_error, disconnected, bytes, Act, ◌>>=◌, ◌>>◌, return,
  set_receivedata, show,
}

-- The text before the first "\r\n".
unfoldable pub before_end : List ℕ → Option (List ℕ)
before_end [] = none
before_end (c ∷ []) = none
before_end (c ∷ d ∷ rest) =
    if c == 13 && d == 10
    then some []
    else elim (before_end (d ∷ rest)) [ none ↦ none | some text ↦ some (c ∷ text) ]

-- setStatus(STATUS_OVER_QUIT); close(getFd())
abbrev pub hang_up : World → World
hang_up w = record w { user = record w.user { status = over_quit }; closed = w.fd ∷ w.closed }

-- 0: nothing to read; 1: a whole line, which `receivedata` then is; 2: a line that goes on.
unfoldable pub receive_data : Incoming → Act ℕ
unfolding c_string before_end
receive_data no_data h = (some 0, h)
receive_data recv_error h = (none, record h { world = hang_up h.world })
receive_data disconnected h = (none, record h { world = hang_up h.world })
receive_data (bytes buffer) h =
    let text = h.receivedata ++ c_string buffer in
    elim (before_end text) [
      | none ↦ (set_receivedata text >> return 2) h
      | some line ↦ (set_receivedata line >> return 1) h
    ]

abbrev pub key : ℕ → List ℕ
key digit = (48 + digit) ∷ []

-- Whether the line of `receivedata` is the key.
unfoldable pub typed : ℕ → Host → Bool
unfolding same_text
typed digit h = same_text h.receivedata (key digit)

unfoldable pub start_line : Act ℕ
unfolding typed show
start_line h = elim (typed 3 h) [
  | true ↦ (show show_init_menu >> return 1) h
  | false ↦ (show (show_error_message (middle + 6)) >> set_receivedata [] >> return 2) h
]

unfoldable pub return_to_init_menu : Incoming → Act ℕ
unfolding receive_data start_line
return_to_init_menu incoming =
    receive_data incoming >>= λ temp. if temp == 1 then start_line else return 2

-- It empties `receivedata` before it shows the error, not after.
unfoldable pub menu_line : ℕ → Act ℕ
unfolding typed show
menu_line row h = elim (typed 3 h) [
  | true ↦ (show show_load_menu >> return 1) h
  | false ↦ (set_receivedata [] >> show (show_error_message row) >> return 2) h
]

unfoldable pub return_to_load_menu : Incoming → ℕ → Act ℕ
unfolding receive_data menu_line
return_to_load_menu incoming i =
    receive_data incoming >>= λ temp. if temp == 1 then menu_line (middle + (i + 1)) else return 2

-- A line that was read: the error is shown for an empty one, when `receivedata` is empty already.
unfoldable pub take_line : List Item → Act (List ℕ)
unfolding show
take_line error h =
    if length h.receivedata == 0
    then (show error >> return []) h
    else (set_receivedata [] >> return h.receivedata) h

-- A line that is not empty, or the empty text.
unfoldable pub receive_entry : Incoming → List Item → Act (List ℕ)
unfolding receive_data take_line
receive_entry incoming error =
    receive_data incoming >>= λ temp. if temp == 1 then take_line error else return []
