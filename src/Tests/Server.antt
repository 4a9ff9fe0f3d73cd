-- ===== src/Tests/Server.antt =====
-- One connection in the menus, its queues and its buffer.
use russia_tetris.Base.{some, ℕ, ◌≤◌, ◌≡◌, refl, ◌⊎◌, List, [], ◌∷◌, none, true, false, take, arith}
use russia_tetris.Status.{
  Status, notstart, receive_password_load, receive_password_register, verifying_password,
}
use russia_tetris.World.{World, accepts, would_block}
use russia_tetris.Output.{flush_user_output}
use russia_tetris.Output.Delivered.{Flushed, flush_user_output-Flushed}
use russia_tetris.Throttle.Env.{default_auth, default_ip, default_reg}
use russia_tetris.Throttle.Window.{new_window}
use russia_tetris.Screens.Scores.{Player, easy_entries, later_entries}
use russia_tetris.Screens.Scores.Ranked.{Below, rows_of, positive, easy_start, entries-top_ten}
use russia_tetris.Filedata.{
  LoginResult, PasswordChangeResult, Queues, Moment, Lookup, Step, login_job, run_job, write_thread,
}
use russia_tetris.Filedata.Answers.{count, of_answer, tally, weight}
use russia_tetris.Filedata.Ends.{Steps, Idle, Steps-answered}
use russia_tetris.Server.{Host, Limits, Event, Incoming}
use russia_tetris.Server.Credentials.{load_password, register_password}
use russia_tetris.Server.Credentials.Waits.{LoadTried, load_password-Tried}
use russia_tetris.Server.Credentials.Registers.{RegisterTried, register_password-Tried}
use russia_tetris.Server.Callbacks.{login_returned, change_returned}
use russia_tetris.Server.Callbacks.Returned.{
  LoginReturned, ChangeReturned, login_returned-Counts, change_returned-Counts,
}
use russia_tetris.Server.Dispatch.{handle_client_data}
use russia_tetris.Server.Dispatch.Still.{Leads}
use russia_tetris.Server.Dispatch.Edges.{Edge}
use russia_tetris.Server.Dispatch.Handled.{is_game, handle_client_data-Leads}
use russia_tetris.Server.Games.{Draws}
use russia_tetris.Server.Dispatch.Sessions.{
  Label, Anonymous, Granted, start, then_step, on_input, login_needs_answer,
}
use russia_tetris.Tests.Game.{world}
use russia_tetris.Tests.PasswordHash.{toy}

abbrev anna : List ℕ
anna = 97 ∷ 110 ∷ 110 ∷ 97 ∷ []

-- A connection that a name was entered on, in the state `s`.
abbrev connection : Status → World
connection s = record world { user = record world.user { status = s; username = anna } }

abbrev host : Status → Host
host s = record {
  world = connection s;
  auth = record { entries = []; last_prune = 0 };
  ip = record { entries = []; last_prune = 0 };
  reg = record { global_window = new_window; entries = []; last_prune = 0 };
}

abbrev limits : Limits
limits = record { auth_limits = default_auth; ip_limits = default_ip; reg_limits = default_reg }

-- "tetris!1" and the end of the line arrive.
abbrev line_event : Event
line_event = record {
  incoming = Incoming.bytes (116 ∷ 101 ∷ 116 ∷ 114 ∷ 105 ∷ 115 ∷ 33 ∷ 49 ∷ 13 ∷ 10 ∷ []);
  now = 5000;
  account_exists = λ _. false;
  players_loaded = true;
}

load_password-Tried_example :
    LoadTried limits line_event
      (host receive_password_load)
      (load_password limits line_event (host receive_password_load)).1
load_password-Tried_example = load_password-Tried limits line_event (host receive_password_load)

register_password-Tried_example :
    RegisterTried limits line_event
      (host receive_password_register)
      (register_password limits line_event (host receive_password_register)).1
register_password-Tried_example =
    register_password-Tried limits line_event (host receive_password_register) refl

login_returned-Counts_example :
    LoginReturned limits 6000 anna 1
      (host verifying_password)
      LoginResult.bad_credentials
      (login_returned limits 6000 anna 1 LoginResult.bad_credentials (host verifying_password))
login_returned-Counts_example =
    login_returned-Counts limits 6000 anna 1 LoginResult.bad_credentials (host verifying_password)

change_returned-Counts_example :
    ChangeReturned limits 6000 anna 1
      (host verifying_password)
      PasswordChangeResult.error
      (change_returned limits 6000 anna 1 PasswordChangeResult.error (host verifying_password))
change_returned-Counts_example =
    change_returned-Counts limits 6000 anna 1 PasswordChangeResult.error (host verifying_password)

not_game : is_game notstart ≡ false
unfolding is_game
not_game = refl

abbrev draws : Draws
draws = record { first = 3; first_form = 1; second = 6; second_form = 0 }

handle_client_data-Leads_example :
    (h' : Host) × (handle_client_data limits line_event [] draws (host notstart) ≡ some h')
    × Leads (Edge notstart) (host notstart) h'
handle_client_data-Leads_example =
    handle_client_data-Leads limits line_event [] draws (host notstart) not_game

-- The host after the line.
abbrev handled : Host
handled = (handle_client_data-Leads limits line_event [] draws (host notstart) not_game).0

handled_so : handle_client_data limits line_event [] draws (host notstart) ≡ some handled
handled_so = (handle_client_data-Leads limits line_event [] draws (host notstart) not_game).1

login_needs_answer_example : Anonymous handled.status ⊎ Granted (Label.input ∷ [])
login_needs_answer_example =
    login_needs_answer limits {h = host notstart}
      (then_step start (on_input line_event [] draws handled_so)) Anonymous.at_start

-- A login waits, and two threads hash.
abbrev queues : Queues
queues = record {
  pool_ready = true;
  write_queue = login_job 7 anna anna ∷ [];
  hash_queue = [];
  posted = [];
}

abbrev moment : Moment
moment = record { lookup = λ _. Lookup.found anna; updates = true; salt = none }

abbrev later : Queues
later = run_job toy 1024 moment (login_job 7 anna anna) (record queues { write_queue = [] })

Steps-answered_example :
    (1 ≤ weight queues)
    × (Idle toy 1024 later ⊎ ((q : Queues) × Step toy 1024 later q))
    × (Idle toy 1024 later → (i : ℕ) → count (of_answer i) later.posted ≡ tally i queues)
Steps-answered_example =
    Steps-answered toy 1024 moment {q = queues}
      (Steps.one_more Steps.none_yet (write_thread moment refl))

-- The kernel takes two bytes of five, then none.
abbrev buffered : World
buffered = record world {
  user = record world.user { sendbuf = 1 ∷ 2 ∷ 3 ∷ 4 ∷ 5 ∷ []; pendingoutput = true };
  replies = accepts 2 ∷ would_block ∷ [];
}

flush_user_output-Flushed_example : Flushed buffered (flush_user_output buffered)
flush_user_output-Flushed_example = flush_user_output-Flushed buffered

abbrev player : ℕ → Player
player n = record {
  playername = anna;
  easy = record { score = n; timestamp = [] };
  normal = record { score = n; timestamp = [] };
  difficult = record { score = n; timestamp = [] };
}

abbrev players : List Player
players = player 20 ∷ player 10 ∷ player 0 ∷ []

sorted : Below (λ p. p.easy) 20 players
sorted = Below.next (omega arith) (Below.next (omega arith) (Below.next (omega arith) Below.empty))

sorted_normal : Below (λ p. p.normal) 20 players
sorted_normal =
    Below.next (omega arith) (Below.next (omega arith) (Below.next (omega arith) Below.empty))

entries-top_ten_example :
    (easy_entries 8 6 players
      ≡ rows_of (λ p. p.easy) (easy_start 8 players) 6 (take 10 (positive (λ p. p.easy) players)))
    × (later_entries (λ p. p.normal) 8 6 players
        ≡ rows_of (λ p. p.normal) 12 6 (take 10 (positive (λ p. p.normal) players)))
entries-top_ten_example =
    entries-top_ten 8 6 20 20 (λ p. p.normal) players players sorted sorted_normal
