-- ===== src/Client.antt =====
-- The client program: the players and the connection to the server (folder client).
pub mod Strategy
pub mod Legal
pub mod PlayerAuto
pub mod Recovery
pub mod Dispatch
pub mod Entries
pub mod Delivery
pub mod PlayerConsole
pub mod Console
pub mod Run
pub mod Session
pub mod Pieces
pub mod Value
pub mod Answer
pub mod LineStages
pub mod Turns
pub mod ExitCode
