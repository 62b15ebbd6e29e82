-- ===== src/Lib.antt =====
-- teddycloud-spotify-radio-shim: a box that plays figurines is made to play Spotify. The shim listens
-- to the events of a Teddycloud server, and turns them into commands for Soloist, a Spotify client
-- that it pairs, starts and supervises; it records what Soloist plays and streams it back.
--
-- The parts, and the files that model them:
--   Sse        internal/sselistener/listener.go. `Listener.Run` connects, `subscribeOnce` and
--              `consume` read one connection, `readLoop` cuts it into lines and `dispatch` turns an
--              event into a command. Dispatch has `dispatch`, `send`, `wrappedValue` and the body of
--              `readLoop` on one line; Loop has the loops around it.
--   Mock       cmd/mock-teddycloud/main.go, the server that writes such events in tests: the hub of
--              subscribers, the actions of its control page, and the handlers. Page has the page,
--              Unordered the hub without the order of its Go map, as a quotient.
--   Recorder   internal/audio/recorder.go. `PulseRecorder` cuts the bytes of its source into chunks
--              on a channel; `start`, `stop`, `flush` and `round` are Start, Stop, Flush and one turn
--              of pump.
--   Soloist    internal/soloist: Binary (binary.go) and Disk (session.go) work on one set of files;
--              Connector (connector.go), Pairing (pair.go), and the supervisor of supervisor.go in
--              three files: Supervisor (`handleExit`, `waitWSAddr`), Session (`runOnce`) and Run
--              (`Run`); Expired has the exits behind which the binary is deleted, Arguments the two
--              command lines, Pairing/Managed `Pair` with the manager of its process, and
--              Pairing/Attempts `Drive` over the calls of `Pair`.
--   Pulse      internal/audio/pulse.go and monitor.go, the PulseAudio daemon: Sinks (`sinkListed`,
--              `findSinkByName`), Daemon (`SetupEnv`, `startDaemon`, `Start`), Halt (`daemonAlive`,
--              `Stop`), Run (`Run` with a concurrent `Stop`, a step relation) and MonitorStream
--              (`OpenMonitorStream`, `Close`).
--   Server     internal/server: `handleStream` (stream.go) as the interleaved steps of its requests,
--              and the health reports (server.go, healthz.go). Server/Uri has `validURI`, Server/Wav
--              `writeWAVHeader`, Server/Healthz the bodies of /healthz and of the errors, Server/Batch
--              `streamChunks` with the buffer of bufio.Writer (Server/Batch/Failing: its writes may
--              fail), Server/Static the source of a tone (static.go).
--   Shim       cmd/shim/main.go, which puts the parts together: Recording (`recorderSlot` and
--              `runRecorder`, a step relation that uses Recorder and Pulse/MonitorStream; its child
--              Slot is the abstract machine that consumers of the slot see, and Opening the loop of
--              `openMonitorStream`), Startup (the branches behind the Soloist binary, and all health
--              reports; Startup/Handover is `pairThenSupervisor`), Socket, Wiring (what is built from the configuration), Main (how it ends),
--              and the composition of the parts: Streaming (/stream on the slot of the recorder, a
--              step relation over Server and Recording), Playing (/stream with
--              `CommandConnector.Play`) and Relaying (the events of the mock server on the connection
--              with Soloist).
--   Telemetry  internal/telemetry/telemetry.go: `Sample`, and `runTelemetry` of the main program.
--   Config     internal/config/config.go: `Load`.
--   Process    internal/process: a manager of processes as a record, `ExecManager` over os/exec, the
--              fake of the tests, and `ExitCode`.
--   Backoff    internal/audio/pulse.go: `NextBackoff`, which all loops use, and its copy in pair.go.
--   Json       the package encoding/json as `wrappedValue` and the connector use it: the validity of
--              an object, its member "data", a string read and written.
--   Base       shared names, lists, integers of 64 bits, byte strings, and the parts of strconv,
--              strings and path/filepath that are used.
--   Tests      the model run on concrete inputs.
--
-- How it is modelled. A text is the list of its bytes, or of its characters where no byte is looked
-- at. A `time.Duration` is an integer that wraps at 64 bits; a zero setting stands for its default.
-- What is not the code's own doing (the network, the clock, a process, the files, the caller's
-- context, the choice of a `select` between two ready cases) is an argument: a list with an entry
-- for each time around a loop. All loops are recursions on these lists, so that every run of the
-- model ends; a result that says the loop has returned is a field or a constructor of its own. The
-- loop that cuts chunks runs on fuel, the number of bytes held, and each round takes a byte at
-- least. Errors that the code logs and drops are dropped.
--
-- A sink of commands (`CommandSender`) is a record of functions over a state of the caller's; the
-- connector is one. A WebSocket connection (the package gorilla/websocket) is a parameter.
--
-- Where goroutines share state (`Run` and `Stop` of the daemon; `runRecorder`, its watchdog, its pump
-- and its consumers; the requests to /stream and the slot) a step is one of their accesses, and an
-- invariant is proved along the steps. A request to /stream takes its source in one step and is let in
-- by a later one.
-- Some steps hold more than one access: the move of `runRecorder` that leaves a recorder stops it,
-- closes its stream and empties the slot; a round of the pump has its check of the stop channel, its
-- Read and its sends; a start of the daemon has all of `startDaemon` with the readiness behind it; and
-- a request to /stream has `Play` with the section of its mutex. So a Stop that comes within one of
-- these is taken before or behind it. The count of the daemon's attempts and the bytes of one call of
-- `streamChunks` do not wrap, and the directory that a download makes is not on the modelled disk.
-- float64 is a parameter. Telemetry/Ratio supposes of it the laws of its rounding, of finite numbers
-- alone; of the sine only that doubling the counter is doubling the frequency is supposed.
--
-- Not modelled: net/http, os/exec, the processes and the client library of PulseAudio themselves, the
-- age of the Soloist binary, which is only logged, the order in which `main` starts its goroutines, and
-- logging everywhere.
pub mod Base
pub mod Backoff
pub mod Json
pub mod Sse
pub mod Mock
pub mod Recorder
pub mod Process
pub mod Soloist
pub mod Server
pub mod Config
pub mod Pulse
pub mod Telemetry
pub mod Shim
mod Tests
