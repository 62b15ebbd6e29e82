-- ===== src/Shim/Startup.antt =====
-- cmd/shim/main.go: the branches of `main` behind the Soloist binary, `pairThenSupervisor`, the sources
-- of the streams, and the health reports, which all end in one field of the server.
pub mod Health
pub mod Reported
pub mod Handover
use teddycloud_spotify_radio.Base.{
  ℕ, Bool, true, false, List, [], ◌∷◌, Option, none, some, if◌then◌else◌, Text, codes,
}
use teddycloud_spotify_radio.Server.{Server, set_unhealthy}
use teddycloud_spotify_radio.Soloist.Disk.{Disk, SessionState, ready, unpaired, check}
use teddycloud_spotify_radio.Soloist.Binary.{BinaryError, BinaryManager, Machine, Resolved, resolve}
use teddycloud_spotify_radio.Soloist.Pairing.{PairOutcome, pair_done, pair_expired}

-- What `main` starts for Soloist: nothing, the supervisor, or the pairing; with the binary.
pub data Branch : Type 0 where
  without_soloist : Branch
  supervises pairs : Text → Branch

with_session : Text → SessionState → Server → Server × Branch
unfolding set_unhealthy
with_session path ready s = (s, supervises path)
with_session path unpaired s = (set_unhealthy s (codes "soloist_unpaired"), pairs path)

with_binary : Text → Resolved → Server → Server × Branch
unfolding with_session check set_unhealthy
with_binary data_dir r s = elim r.error [
  | some e ↦ (set_unhealthy s (codes "soloist_missing"), without_soloist)
  | none ↦ with_session r.path (check data_dir r.disk) s
]

-- Phase 2 of `main`; the checker looks into the data directory of the binary manager.
unfoldable pub start_soloist : Machine → BinaryManager → Disk → Server → Server × Branch
unfolding with_binary resolve
start_soloist m b d s = with_binary b.data_dir (resolve m b d) s

-- `pairThenSupervisor` behind `Drive`: whether the supervisor is run.
unfoldable pub pair_then_supervisor : PairOutcome → Server → Server × Bool
unfolding set_unhealthy
pair_then_supervisor pair_done s = (s, true)
pair_then_supervisor pair_expired s = (set_unhealthy s (codes "soloist_expired"), false)
pair_then_supervisor _ s = (s, false)

-- The health reports of the daemon and the supervisor, in the order in which they come.
unfoldable pub reported : Server → List Text → Server
unfolding set_unhealthy
reported s [] = s
reported s (r ∷ rs) = reported (set_unhealthy s r) rs

-- A source of a stream: a tone of a rate, or the recorder of an attempt.
pub data Source : Type 0 where
  tone live : ℕ → Source

-- `srcFunc`, from the configuration and the slot.
unfoldable pub src_func : Bool → ℕ → Option ℕ → Option Source
src_func true rate slot = some (tone rate)
src_func false rate none = none
src_func false rate (some attempt) = some (live attempt)
