-- ===== src/Server.antt =====
-- internal/server/server.go, stream.go and healthz.go: /stream and /healthz. A request that is let in
-- is numbered; its number stands for its context and its `CancelFunc`. The two sections of
-- `handleStream` that hold `streamMu` are one step each, and the steps of several requests interleave.
mod Streams
pub mod Swap
pub mod Admission
pub mod Healthz
pub mod Wav
pub mod Batch
pub mod Uri
pub mod Static
use teddycloud_spotify_radio.Base.{
  ℕ, suc, ◌+◌, ◌-◌, ◌%◌, ◌^◌, Bool, true, false, List, [], ◌∷◌, ◌++◌, map, Option, none, some, ◌==◌,
  if◌then◌else◌, length, Text, codes,
}
use teddycloud_spotify_radio.Server.Uri.{valid_uri}
use teddycloud_spotify_radio.Server.Wav.{write_wav_header}

-- A request between its entry and the end of its handler: `streamID` at its entry, whether its
-- context is done, and whether it counts as an open stream.
pub record Stream : Type 0 where
  pub request : ℕ
  pub my_id : ℕ
  pub canceled : Bool
  pub active : Bool

-- The counters are words of 64 bits.
pub record Server : Type 0 where
  pub unhealthy_reason : Text
  pub stream_id : ℕ
  pub stream_cancel : Option ℕ
  pub delivered : ℕ
  pub active : ℕ
  pub streams : List Stream
  pub requests : ℕ
  -- What was given to `play`.
  pub played : List Text

abbrev pub new_server : Server
new_server = record {
  unhealthy_reason = [];
  stream_id = 0;
  stream_cancel = none;
  delivered = 0;
  active = 0;
  streams = [];
  requests = 0;
  played = [];
}

abbrev pub word : ℕ → ℕ
word n = n % 2 ^ 64

unfoldable pub set_unhealthy : Server → Text → Server
set_unhealthy s reason = record s { unhealthy_reason = reason }

-- The status of /healthz.
unfoldable pub handle_healthz : Server → ℕ
handle_healthz s = elim s.unhealthy_reason [ [] ↦ 200 | c ∷ cs ↦ 503 ]

-- The context of a request is done.
unfoldable pub cancel : ℕ → List Stream → List Stream
cancel r [] = []
cancel r (t ∷ ts) = (if t.request == r then record t { canceled = true } else t) ∷ cancel r ts

pub cancel_stored : Option ℕ → List Stream → List Stream
unfolding cancel
cancel_stored none ts = ts
cancel_stored (some r) ts = cancel r ts

-- The first section under the lock: the stream before is cancelled, and this one is registered.
unfoldable pub enter : Server → Server
unfolding cancel_stored
enter s =
    let id = word (s.stream_id + 1) in
    record s {
      streams =
          record { request = s.requests; my_id = id; canceled = false; active = false }
          ∷ cancel_stored s.stream_cancel s.streams;
      stream_id = id;
      stream_cancel = some s.requests;
      requests = suc s.requests;
    }

play_if : Bool → Text → Server → Server
play_if true uri s = record s { played = s.played ++ uri ∷ [] }
play_if false uri s = s

connect_if : Bool → Bool → Bool → Text → Server → Server × Option ℕ
unfolding enter play_if
connect_if false has_source has_play uri s = (s, some 400)
connect_if true false has_play uri s = (s, some 503)
connect_if true true has_play uri s = (play_if has_play uri (enter s), none)

-- What `handleStream` does up to its first write: the status of an error, or none if it goes on. The
-- flush of the source changes the source alone, and the error of `play` is only logged.
unfoldable pub connect : Server → Bool → Bool → Text → Server × Option ℕ
unfolding connect_if valid_uri
connect s has_source has_play uri = connect_if (valid_uri uri) has_source has_play uri s

abbrev set_active : ℕ → List Stream → List Stream
set_active r [] = []
set_active r (t ∷ ts) = (if t.request == r then record t { active = true } else t) ∷ set_active r ts

unfoldable pub find : ℕ → List Stream → Option Stream
find r [] = none
find r (t ∷ ts) = if t.request == r then some t else find r ts

begin_if : Server → Option Stream → ℕ → Server
unfolding write_wav_header
begin_if s none rate = s
begin_if s (some t) rate = if t.active then s else record s {
  delivered = word (s.delivered + length (write_wav_header rate));
  active = word (s.active + 1);
  streams = set_active t.request s.streams;
}

-- The header is written, and the stream counts as open.
unfoldable pub begin : Server → ℕ → ℕ → Server
unfolding begin_if find
begin s r rate = begin_if s (find r s.streams) rate

-- A chunk of `n` bytes is written.
unfoldable pub deliver : Server → ℕ → Server
deliver s n = record s { delivered = word (s.delivered + n) }

pub remove : ℕ → List Stream → List Stream
remove r [] = []
remove r (t ∷ ts) = let rest = remove r ts in if t.request == r then rest else t ∷ rest

leave_if : Server → Option Stream → Server
unfolding remove
leave_if s none = s
leave_if s (some t) = record s {
  active = (if t.active then word (s.active + (2 ^ 64 - 1)) else s.active);
  stream_cancel = (if s.stream_id == t.my_id then none else s.stream_cancel);
  streams = remove t.request s.streams;
}

-- The deferred calls of `handleStream`.
unfoldable pub leave : Server → ℕ → Server
unfolding leave_if find
leave s r = leave_if s (find r s.streams)

-- A step of some request: its entry; its connection is lost; its header; a chunk; its end.
pub data Event : Type 0 where
  connects : Bool → Bool → Text → Event
  disconnects ends : ℕ → Event
  begins delivers : ℕ → ℕ → Event
  reports : Text → Event

unfoldable pub step : Server → Event → Server
unfolding connect set_unhealthy deliver
step s (connects has_source has_play uri) = (connect s has_source has_play uri).0
step s (disconnects r) = record s { streams = cancel r s.streams }
step s (begins r rate) = begin s r rate
step s (delivers r n) = deliver s n
step s (ends r) = leave s r
step s (reports reason) = set_unhealthy s reason

unfoldable pub run : Server → List Event → Server
run s [] = s
run s (e ∷ es) = run (step s e) es
