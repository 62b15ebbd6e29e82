-- ===== src/Recorder/Delivery.antt =====
-- What a consumer of the recorder gets of the source's bytes.
use mathlib.Core.List.{Sublist, flatten}
use mathlib.Core.List.Sublist
use teddycloud_spotify_radio.Base.{
  ℕ, ◌+◌, true, List, [], ◌++◌, ◌≡◌, refl, sym, inr, arith, ℤ, subst,
}
use teddycloud_spotify_radio.Recorder.{
  Bytes, Recorder, new_recorder, chunk_size_of, buffer_len_of, flush, Event, run,
}
use teddycloud_spotify_radio.Recorder.Chunks.{chunk_size_pos}
use teddycloud_spotify_radio.Recorder.Steps.{consumed_all, Carries, run-Carries}

new_recorder-Carries :
    (chunk_size buffer_len : ℤ)
    → let r = new_recorder chunk_size buffer_len in
      Carries (chunk_size_of r) (buffer_len_of r) 0 r [] []
unfolding new_recorder flatten
new_recorder-Carries chunk_size buffer_len = record {
  holds = record {
    chunks = [];
    whole = refl;
    sized = tt;
    order = Sublist.refl [];
    counted = refl;
    bounded = omega arith;
    chunk_size_is = refl;
    buffer_len_is = refl;
    idle = inr (refl, refl);
  };
  short = chunk_size_pos (new_recorder chunk_size buffer_len);
}

-- Whatever happens to a recorder, in whatever order: the bytes that its pump read are a sequence of
-- chunks of the configured size and less than a chunk that it still holds; what the consumer received
-- and what waits in the channel is a part of that sequence, in its order, with no chunk twice; the
-- two counters add up to the number of chunks (mod 2 ^ 64); and the channel is within its capacity.
pub run_new-Carries :
    (chunk_size buffer_len : ℤ) (es : List Event)
    → let r = new_recorder chunk_size buffer_len in
      Carries (chunk_size_of r) (buffer_len_of r) 0 (run r es).0 (consumed_all r es) (run r es).1
run_new-Carries chunk_size buffer_len es =
    let r = new_recorder chunk_size buffer_len in
    run-Carries (chunk_size_of r) (buffer_len_of r) 0 es r [] []
      (new_recorder-Carries chunk_size buffer_len)

flushed-Carries :
    (cs cap base : ℕ) (r : Recorder) (input : Bytes) (out : List Bytes)
    → Carries cs cap base r input out
    → r.created ≡ true
    → Carries cs cap (r.chunks_sent + r.dropped) (flush r) r.acc []
unfolding flush flatten
flushed-Carries cs cap base r input out h created = record {
  holds = record {
    chunks = [];
    whole = ground arith;
    sized = tt;
    order = subst (λ q. Sublist q []) (sym empty) (Sublist.refl []);
    counted = ground arith;
    bounded = ground arith;
    chunk_size_is = ground (arith, h.holds.chunk_size_is);
    buffer_len_is = ground (arith, h.holds.buffer_len_is);
    idle = ground (arith, h.holds.idle);
  };
  short = ground (arith, h.short);
}
  where
    empty : (flush r).queue ≡ []
    empty = ground arith

-- If a recorder is flushed after any run from new in which its channel was created, what a consumer
-- receives afterwards is, in order, some of the whole chunks cut from the bytes that the pump held
-- at the flush and those that it reads later, and the counters go on from where they stood.
pub flush-Carries :
    (chunk_size buffer_len : ℤ) (before after : List Event)
    → (run (new_recorder chunk_size buffer_len) before).0.created ≡ true
    → let r = new_recorder chunk_size buffer_len in
      let s = (run r before).0 in
      Carries
        (chunk_size_of r)
        (buffer_len_of r)
        (s.chunks_sent + s.dropped)
        (run (flush s) after).0
        (s.acc ++ consumed_all (flush s) after)
        (run (flush s) after).1
flush-Carries chunk_size buffer_len before after created =
    let r = new_recorder chunk_size buffer_len in
    let s = (run r before).0 in
    let reached = run_new-Carries chunk_size buffer_len before in
    run-Carries (chunk_size_of r) (buffer_len_of r) (s.chunks_sent + s.dropped) after (flush s)
      s.acc []
      (flushed-Carries (chunk_size_of r) (buffer_len_of r) 0 s (consumed_all r before)
        (run r before).1 reached created)
