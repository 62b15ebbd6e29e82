-- ===== src/Sse.antt =====
-- internal/sselistener/listener.go: the listener that turns the events of a Teddycloud server into
-- commands. Lines has the line scanner, Dispatch the frames and their meaning, Loop the reading of
-- one connection and the reconnecting; the other modules prove.
pub mod Lines
pub mod Dispatch
pub mod Loop
pub mod Timing
pub mod Frames
