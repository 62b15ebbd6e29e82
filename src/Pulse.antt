-- ===== src/Pulse.antt =====
-- internal/audio/pulse.go and monitor.go: the PulseAudio daemon. Sinks has the search for the virtual
-- sink, Daemon one start, Halt the liveness and `Stop`, and Run the supervision.
pub mod Sinks
pub mod Daemon
pub mod Halt
pub mod Run
pub mod MonitorStream
