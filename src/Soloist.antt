-- ===== src/Soloist.antt =====
-- internal/soloist: the Soloist process. Connector has the commands on its WebSocket, Pairing the
-- pairing process and its retries, Supervisor the process in Connect mode, Disk and
-- Binary the stored session and the program, Expired what follows its expiry, and Arguments the
-- command lines.
pub mod Connector
pub mod Disk
pub mod Binary
pub mod Expired
pub mod Pairing
pub mod Supervisor
pub mod Session
pub mod Run
pub mod Commands
pub mod Arguments
