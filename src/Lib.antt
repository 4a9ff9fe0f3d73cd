-- ===== src/Lib.antt =====
-- The Tetris server: the model of its game and of its output, and what holds of them.
--
-- A connection is an object of class `User` (TetrisGame/User.h under src/). The event loop calls the
-- functions of class `Game` (src/TetrisGame/Game.cpp) with it: a timer calls `processBlockDown`,
-- received keys call the `handle...` functions. They read and write the board and the piece of the
-- connection, and draw by `outputText` of src/Utility/Utility.cpp, which appends to the connection's
-- send buffer and, when no `OutputBatch` is open, passes it to `send`.
--
-- Base: numbers, tests, lists and integers. Status: the enumeration of src/Common/Common.h.
-- World: the state. `Play` and `User` have the fields of class `User` that are used; `World` adds the
-- batch depth of Utility.cpp, the replies of the calls of `send` to come, what was sent, the closed
-- descriptors, and the queue of jobs that save scores.
-- Output: `output`, `flushUserOutput`, `OutputBatch`, `outputText`.
-- Effect: functions as state passing. A call may leave an array (none), or return `false` early when
-- an output ended the connection. Effect/Does: what holds of such a call whatever the socket does, and what
-- holds of it in a batch, where no output can fail.
-- Game/Start: `InitInterface`, `InitGameFace`. Game/Blocks: `InitBlockInfo`. Game/Board: the arrays and `IsLegal`. Game/Draw: `DrawBlock`,
-- `DrawSpace`, `RedrawWalls`, `UpdateCurrentScore`. Game/Moves: the four keys. Game/Lines:
-- `Is_Increase_Score`; Game/Lines/Plain is the same pass on the play alone. Game/Drop: `IsOver`
-- and `processBlockDown`. Game/Play: `handleReceivedData_STATUS_PLAYING`, `Repaint` and
-- `handleTimedUserLogic`; a received text has at most 1023 bytes there. Its clock counts nanoseconds and
-- `Speed` is in milliseconds; the program compares them as `double` seconds, which is taken as exact.
--
-- Throttle: src/TetrisGame/AuthThrottle.cpp (Throttle/Auth), IpThrottle.cpp (Throttle/Ip) and
-- RegThrottle.cpp (Throttle/Reg), which the server asks before it computes a password hash and tells of
-- failures and registrations. Throttle/Window is the window of five slots that the last two have alike,
-- Throttle/Table the map of entries, Throttle/Env the configurations. Points of time are whole
-- nanoseconds since the clock's start for AuthThrottle, and whole milliseconds for the other two, which
-- round a point of time down to them (`now_ms`) before they compute; the environment and `strtoll` are parameters; the classes' statics are a state that
-- the functions take and return.
--
-- Password: src/TetrisGame/PasswordPolicy.h; Password/Encoded has UTF-8 as RFC 3629 describes it.
-- PasswordHash: src/TetrisGame/PasswordHash.cpp, the stored
-- credentials; OpenSSL's PBKDF2 and comparison are a parameter, with what its documentation says of
-- them as hypotheses. Filedata: the two queues of src/TetrisGame/Filedata.cpp, with the tasks of a login
-- and of a change of the password; what the database answers is a part of each step.
--
-- Screens: src/UImanage/UImanage.cpp, each screen as the list of its outputs. Server:
-- src/TetrisGame/Server.cpp. Its handlers are in Server/Line (`ReceiveData`, the menus that wait for one
-- key), Server/Forms (names and menus), Server/Credentials (passwords) and Server/Callbacks (the
-- answers to tasks); Server/Games has the handlers of src/TetrisGame/Game.cpp for the difficulty and for
-- the keys of and after a game; Server/Dispatch is `handleClientData`. A handler is a function on a
-- `Host`, that is a connection and the three limiters; -1 and `false` are `none`. What `recv` gives, the
-- clock and what the database answers are one `Event`. Server/Dispatch/Sessions has the runs of a
-- connection.
--
-- Connections: the pool of objects of src/ConnectionPool/ConnectionPool.cpp, the table of connections
-- of src/TetrisGame/User.cpp, and the sweep of ended ones in src/EventLoop/EventLoop.cpp. An object is a
-- number there.
--
-- The board is two functions of row and column, read and written only through functions that fail
-- outside of 24 rows and 30 columns. The two draws of `rand` are arguments. The loop `while (1)` of
-- `processBlockDown` has fuel 23: every round but the last takes 18 of at most 396 blocks away. Scores
-- and line counts have no upper bound here; they are `int` in the program.
--
-- Not modelled: logging and the tracing switches, locks (the loop is one thread, and a queue's operations
-- are single steps), what the kernel does with the bytes, SQLite and the statements for it, how long a
-- hash takes, the start and the end of the threads, `accept`, and the timers.
pub mod Base
pub mod Status
pub mod World
pub mod Output
pub mod Effect
pub mod Game
pub mod Throttle
pub mod Screens
pub mod Server
pub mod Filedata
pub mod Connections
pub mod Password
pub mod PasswordHash
pub mod Tests
