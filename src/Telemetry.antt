-- ===== src/Telemetry.antt =====
-- internal/telemetry/telemetry.go: the rates between two snapshots, and cmd/shim/main.go:
-- `runTelemetry`, which takes the snapshots. float64 is a parameter.
pub mod Ratio
pub mod Pairs
use teddycloud_spotify_radio.Base.{
  ℕ, ◌+◌, ◌-◌, ◌*◌, ◌%◌, ◌^◌, Bool, true, false, not, ◌||◌, List, [], ◌∷◌, Option, none, some,
  if◌then◌else◌, ltb, leb_ℤ, ltb_ℤ, ℤ, pos, negsuc, signed64, pos_part, neg_part,
}
use teddycloud_spotify_radio.Recorder.{Recorder}
use teddycloud_spotify_radio.Server.{Server}

-- What the source uses of float64: conversions from uint64 and from a duration, and three operations.
pub record Floats (F : Type 0) : Type 0 where
  pub of_uint64 : ℕ → F
  pub seconds : ℕ → F
  pub add : F → F → F
  pub div : F → F → F
  pub is_positive : F → Bool

-- The counters are words of 64 bits.
pub record Snapshot : Type 0 where
  pub chunks : ℕ
  pub dropped : ℕ
  pub delivered : ℕ
  pub streams : ℤ

pub record Summary (F : Type 0) : Type 0 where
  pub chunks_per_sec : F
  pub dropped_per_sec : F
  pub drop_ratio : F
  pub delivered_kibps : F
  pub streams : ℤ

-- A time is a count of nanoseconds.
pub record Sampler : Type 0 where
  pub prev : Snapshot
  pub prev_t : ℤ
  pub set : Bool

abbrev pub new_sampler : Sampler
new_sampler = record {
  prev = record { chunks = 0; dropped = 0; delivered = 0; streams = pos 0 };
  prev_t = pos 0;
  set = false;
}

-- A difference of uint64, which wraps.
abbrev pub minus64 : ℕ → ℕ → ℕ
minus64 a b = (a + (2 ^ 64 - b)) % 2 ^ 64

-- `now.Sub(prev)`, a second where it is not positive.
abbrev pub interval : ℤ → ℤ → ℕ
interval now prev =
    if ltb_ℤ prev now
    then (pos_part now + neg_part prev) - (pos_part prev + neg_part now)
    else 1_000_000_000

-- A tick of `runTelemetry`: the time, the server, and the recorder in the slot.
pub record Tick : Type 0 where
  pub now : ℤ
  pub server : Server
  pub recorder : Option Recorder

unfoldable pub snapshot : Server → Option Recorder → Snapshot
snapshot s none = record {
  chunks = 0;
  dropped = 0;
  delivered = s.delivered;
  streams = signed64 s.active;
}
snapshot s (some r) = record {
  chunks = r.chunks_sent;
  dropped = r.dropped;
  delivered = s.delivered;
  streams = signed64 s.active;
}

module _ {F : Type 0} (fl : Floats F) where
  zero_rates : ℤ → Summary F
  zero_rates streams = record {
    chunks_per_sec = fl.of_uint64 0;
    dropped_per_sec = fl.of_uint64 0;
    drop_ratio = fl.of_uint64 0;
    delivered_kibps = fl.of_uint64 0;
    streams = streams;
  }

  drop_ratio_of : ℕ → ℕ → F
  drop_ratio_of dropped chunks =
      let produced = fl.add (fl.of_uint64 dropped) (fl.of_uint64 chunks) in
      if fl.is_positive produced then fl.div (fl.of_uint64 dropped) produced else fl.of_uint64 0

  rates : Snapshot → Snapshot → ℕ → Summary F
  unfolding drop_ratio_of
  rates prev cur dt = record {
    chunks_per_sec = fl.div (fl.of_uint64 (minus64 cur.chunks prev.chunks)) (fl.seconds dt);
    dropped_per_sec = fl.div (fl.of_uint64 (minus64 cur.dropped prev.dropped)) (fl.seconds dt);
    drop_ratio = drop_ratio_of (minus64 cur.dropped prev.dropped) (minus64 cur.chunks prev.chunks);
    delivered_kibps =
        fl.div (fl.div (fl.of_uint64 (minus64 cur.delivered prev.delivered)) (fl.of_uint64 1024))
          (fl.seconds dt);
    streams = cur.streams;
  }

  -- `Sample`.
  unfoldable pub sample : Sampler → ℤ → Snapshot → Summary F × Sampler
  unfolding zero_rates rates
  sample s now cur =
      if not s.set || ltb cur.chunks s.prev.chunks || ltb cur.dropped s.prev.dropped
      then (zero_rates cur.streams, record { prev = cur; prev_t = now; set = true })
      else (rates s.prev cur (interval now s.prev_t), record s { prev = cur; prev_t = now })

  -- The summaries that `runTelemetry` logs.
  unfoldable pub run_telemetry : Sampler → List Tick → List (Summary F)
  unfolding sample snapshot
  run_telemetry s [] = []
  run_telemetry s (t ∷ ts) =
      let (summary, next) = sample s t.now (snapshot t.server t.recorder) in
      summary ∷ run_telemetry next ts
