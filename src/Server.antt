-- ===== src/Server.antt =====
-- src/TetrisGame/Server.cpp: what the handlers of the menus work on.
pub mod Line
pub mod Forms
pub mod Calm
pub mod Credentials
pub mod Callbacks
pub mod Games
pub mod Dispatch
use russia_tetris.Base.{
  ℕ, List, [], ◌∷◌, ◌++◌, Bool, true, false, if◌then◌else◌, Option, none, some,
}
use russia_tetris.Status.{Status}
use russia_tetris.World.{World, WriteTask}
use russia_tetris.Screens.{Item, render}
use russia_tetris.Throttle.Env.{AuthConfig, IpConfig, RegConfig}
use russia_tetris.Throttle.Auth
use russia_tetris.Throttle.Ip
use russia_tetris.Throttle.Reg

-- One connection, and the statics of the three limiters.
pub record Host : Type 0 where
  pub world : World
  pub open world use *
  pub auth : Auth.State
  pub ip : Ip.State
  pub reg : Reg.State

pub record Limits : Type 0 where
  pub auth_limits : AuthConfig
  pub ip_limits : IpConfig
  pub reg_limits : RegConfig

-- What `recv` gives for a buffer of 1023 bytes: EAGAIN, another error, the end of the connection, or
-- bytes.
pub data Incoming : Type 0 where
  no_data recv_error disconnected : Incoming
  bytes : List ℕ → Incoming

-- What an event finds: the result of `recv`, the clock in nanoseconds, and what the database
-- answers: whether an account is there, and whether the table of players could be loaded.
pub record Event : Type 0 where
  pub incoming : Incoming
  pub now : ℕ
  pub account_exists : List ℕ → Bool
  pub players_loaded : Bool

-- A handler: its result, where -1 and `false` are `none`, and what it leaves.
abbrev pub Act : Type 0 → Type 0
Act A = Host → Option A × Host

infixl 5 ◌>>=◌ ◌>>◌
abbrev pub ◌>>=◌ : {A B : Type 0} → Act A → (A → Act B) → Act B
◌>>=◌ m f h = let (r, h') = m h in elim r [ none ↦ (none, h') | some a ↦ f a h' ]

abbrev pub ◌>>◌ : {B : Type 0} → Act (Unit {0}) → Act B → Act B
m >> k = m >>= λ _. k

abbrev pub return : {A : Type 0} → A → Act A
return a h = (some a, h)

abbrev pub change_world : (World → World) → Act (Unit {0})
change_world f h = (some tt, record h { world = f h.world })

abbrev pub set_status : Status → Act (Unit {0})
set_status s = change_world λ w. record w { user = record w.user { status = s } }

abbrev pub set_receivedata : List ℕ → Act (Unit {0})
set_receivedata d = change_world λ w. record w { user = record w.user { receivedata = d } }

abbrev pub set_username : List ℕ → Act (Unit {0})
set_username n = change_world λ w. record w { user = record w.user { username = n } }

abbrev pub set_password : List ℕ → Act (Unit {0})
set_password p = change_world λ w. record w { user = record w.user { password = p } }

-- writeQueue.push(task)
abbrev pub push_task : WriteTask → Act (Unit {0})
push_task t = change_world λ w. record w { write_queue = w.write_queue ++ t ∷ [] }

-- if (!UImanage::show...(user)) return -1;
unfoldable pub show : List Item → Act (Unit {0})
unfolding render
show items h =
    let (b, w) = render items h.world in ((if b then some tt else none), record h { world = w })
