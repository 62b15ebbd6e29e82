-- ===== src/Shim.antt =====
-- cmd/shim/main.go: the orchestrator. Recording has the slot of the live recorder and `runRecorder`,
-- Startup the way to the supervisor, the sources of the streams and the health reports of all parts,
-- Socket the place where the recorder finds the daemon, Wiring what is built from the configuration, and
-- Main how it ends. Streaming, Playing and Relaying put the parts together: /stream with the slot and
-- with the connector, and the events of the mock server with the connector.
pub mod Recording
pub mod Startup
pub mod Socket
pub mod Wiring
pub mod Streaming
pub mod Playing
pub mod Relaying
pub mod Main
