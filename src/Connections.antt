-- ===== src/Connections.antt =====
-- src/ConnectionPool/ConnectionPool.cpp, and the table of connections of src/TetrisGame/User.cpp:
-- which objects are in use and which are kept for later.
pub mod Places
pub mod Owned
use russia_tetris.Base.{
  ℕ, zero, suc, ◌-◌, List, [], ◌∷◌, ◌++◌, Bool, true, false, ltb, leb, if◌then◌else◌, ◌||◌, ◌+◌,
  ◌*◌, Option, none, some, length, drop,
}
use russia_tetris.Throttle.Table
use russia_tetris.Throttle.Ip.{address_key}

abbrev pub max_pool_size : ℕ
max_pool_size = 100000

-- Objects are numbers, from 0 to below `created`. `users` maps descriptors to objects. `pool_size` of
-- the source is the length of `pool`.
pub record Registry : Type 0 where
  pub pool : List ℕ
  pub users : List (ℕ × ℕ)
  pub created : ℕ

-- The front of the pool, or a new object.
unfoldable pub acquire : Registry → ℕ × Registry
acquire r = elim r.pool [
  | [] ↦ (r.created, record r { created = suc r.created })
  | o ∷ rest ↦ (o, record r { pool = rest })
]

-- A full pool drops the object.
unfoldable pub release : ℕ → Registry → Registry
release o r = if ltb (length r.pool) max_pool_size then record r { pool = r.pool ++ o ∷ [] } else r

-- users.insert_or_assign(fd, user)
unfoldable pub add_user : ℕ → ℕ → Registry → Registry
add_user fd o r = record r { users = Table.put address_key fd o r.users }

unfoldable pub remove_user : ℕ → Registry → Registry
remove_user fd r = record r { users = Table.erase address_key fd r.users }

unfoldable pub get_user : ℕ → Registry → Option ℕ
get_user fd r = Table.find address_key fd r.users

-- `Server::handleNewClientConnection` once `accept` has given a descriptor: `ready` is whether the
-- socket was set and the first menu shown.
unfoldable pub new_client : ℕ → Bool → Registry → Registry
unfolding acquire release add_user remove_user
new_client fd ready r =
    let (o, r1) = acquire r in
    let r2 = add_user fd o r1 in if ready then r2 else release o (remove_user fd r2)

unfoldable pub release_when : Bool → ℕ → Registry → Registry
unfolding release
release_when true o r = release o r
release_when false o r = r

-- Every object of the table whose connection has ended, released in turn.
unfoldable pub release_ended : (ℕ → Bool) → List (ℕ × ℕ) → Registry → Registry
unfolding release_when
release_ended ended [] r = r
release_ended ended (x ∷ xs) r = release_ended ended xs (release_when (ended x.1) x.1 r)

-- They are released, then taken out of the table.
unfoldable pub sweep : (ℕ → Bool) → Registry → Registry
unfolding release_ended
sweep ended r =
    let r1 = release_ended ended r.users r in
    record r1 { users = Table.erase_if address_key ended r1.users }

-- The oldest objects above the target go.
unfoldable pub trim_idle_objects : ℕ → Registry → Registry
trim_idle_objects target r =
    if leb (length r.pool) target
    then r
    else record r { pool = drop (length r.pool - target) r.pool }

-- initialize: `n` objects more in the pool.
unfoldable pub initialize : ℕ → Registry → Registry
initialize zero r = r
initialize (suc n) r =
    initialize n (record r { pool = r.pool ++ r.created ∷ []; created = suc r.created })

-- TETRIS_POOL_TRIM_TARGET as `envInt` gives it: a value above the bound means no trim.
unfoldable pub trim_target : ℕ → ℕ
trim_target raw = if ltb max_pool_size raw then max_pool_size else raw

unfoldable pub trim_interval_ms : ℕ → ℕ
trim_interval_ms raw = if ltb raw 100 || ltb 3600000 raw then 5000 else raw

-- One trim in an interval at most. Times are in nanoseconds, the interval in
-- milliseconds. `last` is the time of the last look, and `none` at first.
unfoldable pub maybe_trim : ℕ → ℕ → ℕ → Option ℕ → Registry → Option ℕ × Registry
unfolding trim_idle_objects
maybe_trim target interval now none r =
    if leb max_pool_size target then (none, r) else (some now, trim_idle_objects target r)
maybe_trim target interval now (some last) r =
    if leb max_pool_size target || ltb now (last + 1000000 * interval)
    then (some last, r)
    else (some now, trim_idle_objects target r)

-- `EventLoop::unregister_Event_User`, which the timer calls.
unfoldable pub unregister : (ℕ → Bool) → ℕ → ℕ → ℕ → Option ℕ → Registry → Option ℕ × Registry
unfolding sweep maybe_trim
unregister ended target interval now last r = maybe_trim target interval now last (sweep ended r)

unfoldable pub cleanup : Registry → Registry
cleanup r = record r { pool = [] }

-- What happens to the two.
pub data Event : Registry → Registry → Type 0 where
  came : {r : Registry} (fd : ℕ) (ready : Bool) → Event r (new_client fd ready r)
  timed :
      {r : Registry} (ended : ℕ → Bool) (target interval now : ℕ) (last : Option ℕ)
      → Event r ((unregister ended target interval now last r).1)
  cleaned : {r : Registry} → Event r (cleanup r)
