-- ===== src/Tests.antt =====
-- Runs of the model on concrete inputs, and each result of Lib applied to an input that meets its
-- conditions. One module for each part.
mod Sinks
mod Json
mod Backoff
mod Recorder
mod Sse
mod Mock
mod Soloist
mod Server
mod Config
mod Binary
mod Pulse
mod Shim
mod Streaming
