-- ===== src/Recorder.antt =====
-- internal/audio/recorder.go: `PulseRecorder` cuts the bytes of its source into chunks, which it
-- offers to a buffered channel without waiting. The channel is a list; a nil channel is an empty one
-- that is not yet `created`.
mod Chunks
pub mod Steps
pub mod Delivery
pub mod Life
pub mod Pumping
pub mod Draining
use teddycloud_spotify_radio.Base.{
  ℕ, zero, suc, ◌+◌, ◌%◌, ◌^◌, Bool, true, false, ◌||◌, List, [], ◌∷◌, ◌++◌, Option, none, some,
  ltb, leb, if◌then◌else◌, is_some, length, take, drop, ℤ, positive_or,
}

abbrev pub Bytes : Type 0
Bytes = List ℕ

pub data ReadError : Type 0 where
  eof read_failed : ReadError

pub record Recorder : Type 0 where
  -- ChunkSize and BufferLen; zero stands for the default.
  pub chunk_size : ℤ
  pub buffer_len : ℤ
  pub chunks_sent : ℕ
  pub dropped : ℕ
  pub created : Bool
  pub queue : List Bytes
  -- The stop channel, if it was made, and whether it is closed; `done` likewise.
  pub stop_closed : Option Bool
  pub done_closed : Option Bool
  pub stopped : Bool
  -- Whether `start` was used up, whether the pump runs, and the bytes that it holds.
  pub started : Bool
  pub pumping : Bool
  pub acc : Bytes

unfoldable pub new_recorder : ℤ → ℤ → Recorder
new_recorder chunk_size buffer_len = record {
  chunk_size = chunk_size;
  buffer_len = buffer_len;
  chunks_sent = 0;
  dropped = 0;
  created = false;
  queue = [];
  stop_closed = none;
  done_closed = none;
  stopped = false;
  started = false;
  pumping = false;
  acc = [];
}

abbrev pub chunk_size_of : Recorder → ℕ
chunk_size_of r = positive_or r.chunk_size 4096

abbrev pub buffer_len_of : Recorder → ℕ
buffer_len_of r = positive_or r.buffer_len 256

-- A uint64 counter goes up.
abbrev pub u64 : ℕ → ℕ
u64 n = n % 2 ^ 64

new_chunk_chan : Recorder → Recorder
new_chunk_chan r = record r { created = true }

-- The pump is spawned once; it gets a new stop channel and a new done channel.
unfoldable pub start : Recorder → Recorder
unfolding new_chunk_chan
start r =
    let r' = new_chunk_chan r in
    if r'.started then r' else record r' {
      stop_closed = some false;
      done_closed = some false;
      started = true;
      pumping = true;
      acc = [];
    }

made : Option Bool → Option Bool
made none = some false
made (some closed) = some closed

unfoldable pub stop : Recorder → Recorder
unfolding made
stop r =
    let r' = record r { stop_closed = made r.stop_closed } in
    if r'.stopped then r' else record r' { stop_closed = some true; stopped = true }

unfoldable pub flush : Recorder → Recorder
flush r = if r.created then record r { queue = [] } else r

-- A send that does not wait.
pub offer : Recorder → Bytes → Recorder
offer r chunk =
    if ltb (length r.queue) (buffer_len_of r)
    then record r { queue = r.queue ++ chunk ∷ []; chunks_sent = u64 (r.chunks_sent + 1) }
    else record r { dropped = u64 (r.dropped + 1) }

-- `for len(acc) >= cs`: each round takes a chunk off, so as many rounds as there are bytes suffice.
unfoldable pub emit : ℕ → Recorder → Recorder
unfolding offer
emit zero r = r
emit (suc fuel) r =
    let cs = chunk_size_of r in
    let on = emit fuel (offer (record r { acc = drop cs r.acc }) (take cs r.acc)) in
    if leb cs (length r.acc) then on else r

-- The pump returns: `done` is closed.
exit : Recorder → Recorder
exit r = record r { pumping = false; done_closed = some true }

is_closed : Option Bool → Bool
is_closed none = false
is_closed (some closed) = closed

-- Once around the loop of `pump`: the context is done or not, and what `Read` returns.
unfoldable pub round : Recorder → Bool → Bytes → Option ReadError → Recorder
unfolding exit is_closed
round r ctx_done bytes err =
    if ctx_done || is_closed r.stop_closed
    then exit r
    else (let r' = record r { acc = r.acc ++ bytes } in
        let emitted = emit (length r'.acc) r' in if is_some err then exit emitted else emitted)

-- What may happen to a recorder, one after the other. The pump and a consumer share the channel
-- alone, and `Read` fills a buffer of one chunk, so that a round sends at most once.
pub data Event : Type 0 where
  starts stops flushes receives : Event
  pumps : Bool → Bytes → Option ReadError → Event

receive : Recorder → List Bytes → Recorder × List Bytes
receive r [] = (r, [])
receive r (c ∷ cs) = (record r { queue = cs }, c ∷ [])

-- The recorder after the event, and the chunk that a consumer received.
unfoldable pub step : Recorder → Event → Recorder × List Bytes
unfolding receive
step r starts = (start r, [])
step r stops = (stop r, [])
step r flushes = (flush r, [])
step r receives = receive r r.queue
step r (pumps ctx_done bytes err) = (if r.pumping then round r ctx_done bytes err else r, [])

unfoldable pub run : Recorder → List Event → Recorder × List Bytes
run r [] = (r, [])
run r (e ∷ es) = let (r', out) = step r e in let (r'', rest) = run r' es in (r'', out ++ rest)
