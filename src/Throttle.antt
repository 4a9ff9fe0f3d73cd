-- ===== src/Throttle.antt =====
-- The three throttles of src/TetrisGame: AuthThrottle (failed logins of a name), IpThrottle (failed logins
-- from an address) and RegThrottle (registrations). Times are those of the steady clock,
-- from its start. The configuration, a static of each class, is an argument.
pub mod Env
pub mod Table
pub mod Auth
pub mod Window
pub mod Ip
pub mod Reg
