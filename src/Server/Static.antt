-- ===== src/Server/Static.antt =====
-- internal/server/static.go: the source of a tone. The sine and the float64 products are a parameter,
-- `tone hz rate amplitude i`: the int16 that the source computes for the sample `i`.
pub mod Channels
pub mod Flow
use teddycloud_spotify_radio.Base.{
  ℕ, zero, suc, ◌+◌, ◌-◌, ◌*◌, ◌/◌, ◌%◌, ◌^◌, Bool, true, false, List, [], ◌∷◌, ◌++◌, Option, none,
  some, if◌then◌else◌, ltb, length, ℤ, pos, negsuc,
}
use teddycloud_spotify_radio.Recorder.{Bytes}

abbrev pub Tone : Type 0
Tone = ℕ → ℕ → ℕ → ℕ → ℤ

-- The 16 bits of an int16.
abbrev pub bits16 : ℤ → ℕ
bits16 (pos n) = n % 2 ^ 16
bits16 (negsuc n) = 2 ^ 16 - 1 - n % 2 ^ 16

-- The rounds of the loop from the sample `i`, by how many are left.
pub sine_from : Tone → ℕ → ℕ → ℕ → ℕ → ℕ → Bytes
sine_from tone hz rate amplitude zero i = []
sine_from tone hz rate amplitude (suc left) i =
    bits16 (tone hz rate amplitude i) % 256
    ∷ bits16 (tone hz rate amplitude i) / 256
    ∷ sine_from tone hz rate amplitude left (i + 1)

unfoldable pub sine_chunk : Tone → ℕ → ℕ → ℕ → Bytes
unfolding sine_from
sine_chunk tone hz rate amplitude = sine_from tone hz rate amplitude 2048 0

-- A source: its channel of 16 chunks, whether it was closed, and whether its generator runs.
pub record StaticSource : Type 0 where
  pub ch : List Bytes
  pub stopped : Bool
  pub generating : Bool
  pub rate : ℕ
  pub chunk : Bytes

unfoldable pub new_static_source : Tone → ℕ → StaticSource
unfolding sine_chunk
new_static_source tone sample_rate =
    let chunk = sine_chunk tone 440 sample_rate 1024 in
    record {
      ch = chunk ∷ chunk ∷ chunk ∷ chunk ∷ [];
      stopped = false;
      generating = true;
      rate = sample_rate;
      chunk = chunk;
    }

-- What may happen to a source: its generator sends, or sees the stop; a consumer receives; `Close`.
pub data StaticEvent : Type 0 where
  generates sees_stop receives closes : StaticEvent

generate : StaticSource → StaticSource
generate s =
    if s.generating
    then (if ltb (length s.ch) 16 then record s { ch = s.ch ++ s.chunk ∷ [] } else s)
    else s

receive_from : List Bytes → StaticSource → StaticSource × List Bytes
receive_from [] s = (s, [])
receive_from (c ∷ cs) s = (record s { ch = cs }, c ∷ [])

-- The source behind an event, and what a consumer received.
unfoldable pub static_step : StaticSource → StaticEvent → StaticSource × List Bytes
unfolding generate receive_from
static_step s generates = (generate s, [])
static_step s sees_stop =
    (record s { generating = (if s.stopped then false else s.generating) }, [])
static_step s receives = receive_from s.ch s
static_step s closes = (record s { stopped = true }, [])

unfoldable pub static_run : StaticSource → List StaticEvent → StaticSource × List Bytes
unfolding static_step
static_run s [] = (s, [])
static_run s (e ∷ es) =
    let (s', out) = static_step s e in let (s'', rest) = static_run s' es in (s'', out ++ rest)
