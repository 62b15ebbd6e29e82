-- ===== src/Recorder/Steps.antt =====
-- What the steps of a recorder do to the bytes of its source.
use mathlib.Core.List.{Sublist, flatten, sublist-append_left}
use mathlib.Core.List.Sublist
use teddycloud_spotify_radio.Base.{
  ℕ, ◌≤◌, ◌<◌, Bool, true, false, ◌||◌, List, [], ◌∷◌, ◌++◌, Option, ◌≡◌, refl, sym, ap, ◌∙◌, ◌⊎◌,
  inl, inr, arith, if◌then◌else◌, length, append_assoc, append-nil, is_some, Bool-cases, subst,
}
use teddycloud_spotify_radio.Recorder.{
  Bytes, ReadError, Recorder, chunk_size_of, buffer_len_of, start, stop, flush, emit, is_closed,
  exit, round, Event, starts, stops, flushes, receives, pumps, receive, step, run,
}
use teddycloud_spotify_radio.Recorder.Chunks.{Holds, emit-Holds, emit-short}

-- The bytes that the pump read in an event.
pub consumed : Recorder → Event → Bytes
unfolding is_closed
consumed r (pumps ctx_done bytes err) =
    if r.pumping then (if ctx_done || is_closed r.stop_closed then [] else bytes) else []
consumed r _ = []

pub consumed_all : Recorder → List Event → Bytes
consumed_all r [] = []
consumed_all r (e ∷ es) = consumed r e ++ consumed_all (step r e).0 es

module _ (cs cap base : ℕ) where
  -- The pump holds less than a chunk between two rounds.
  pub record Carries (r : Recorder) (input : Bytes) (out : List Bytes) : Type 0 where
    pub holds : Holds cs cap base r input out
    pub short : length r.acc < cs

  -- A change of the fields that `Holds` does not read, or that leaves the queue a part of itself.
  Holds-with :
      (r r' : Recorder) (input : Bytes) (out out' : List Bytes)
      → Holds cs cap base r input out
      → r'.acc ≡ r.acc
      → Sublist (out' ++ r'.queue) (out ++ r.queue)
      → length r'.queue ≤ length r.queue
      → (r'.chunks_sent ≡ r.chunks_sent) × (r'.dropped ≡ r.dropped)
      → (chunk_size_of r' ≡ chunk_size_of r) × (buffer_len_of r' ≡ buffer_len_of r)
      → (r'.started ≡ true) ⊎ ((r'.acc ≡ []) × (r'.pumping ≡ false))
      → Holds cs cap base r' input out'
  Holds-with r r' input out out' h acc part fewer counts sizes idle = record {
    chunks = h.chunks;
    whole = h.whole ∙ ap (λ a. flatten h.chunks ++ a) (sym acc);
    sized = h.sized;
    order = Sublist.trans part h.order;
    counted = omega (arith, h.counted, counts.0, counts.1);
    bounded = omega (arith, h.bounded);
    chunk_size_is = sizes.0 ∙ h.chunk_size_is;
    buffer_len_is = sizes.1 ∙ h.buffer_len_is;
    idle = idle;
  }

  exit-Carries :
      (r : Recorder) (input : Bytes) (out : List Bytes)
      → Carries r input out
      → Carries (exit r) input out
  unfolding exit
  exit-Carries r input out h = record {
    holds =
        Holds-with r (exit r) input out out h.holds refl (Sublist.refl (out ++ r.queue))
          (omega arith) (refl, refl) (refl, refl) (ground (arith, h.holds.idle));
    short = h.short;
  }

  append-Holds :
      (r : Recorder) (bytes input : Bytes) (out : List Bytes)
      → Holds cs cap base r input out
      → r.started ≡ true
      → Holds cs cap base (record r { acc = r.acc ++ bytes }) (input ++ bytes) out
  append-Holds r bytes input out h running = record {
    chunks = h.chunks;
    whole = ap (λ i. i ++ bytes) h.whole ∙ append_assoc (flatten h.chunks) r.acc bytes;
    sized = h.sized;
    order = h.order;
    counted = h.counted;
    bounded = h.bounded;
    chunk_size_is = h.chunk_size_is;
    buffer_len_is = h.buffer_len_is;
    idle = inl running;
  }

  emit-Carries :
      (r : Recorder) (input : Bytes) (out : List Bytes)
      → Holds cs cap base r input out
      → r.started ≡ true
      → Carries (emit (length r.acc) r) input out
  emit-Carries r input out h running = record {
    holds = emit-Holds cs cap base (length r.acc) r input out h running;
    short = omega (arith, emit-short (length r.acc) r (omega arith), h.chunk_size_is);
  }

  finish-Carries :
      (b : Bool) (r : Recorder) (input : Bytes) (out : List Bytes)
      → Carries r input out
      → Carries (if b then exit r else r) input out
  finish-Carries true r input out h = exit-Carries r input out h
  finish-Carries false r input out h = h

  round-Carries :
      (r : Recorder) (ctx_done : Bool) (bytes : Bytes) (err : Option ReadError) (input : Bytes)
      (out : List Bytes)
      → Carries r input out
      → r.started ≡ true
      → Carries
          (round r ctx_done bytes err)
          (input ++ (if ctx_done || is_closed r.stop_closed then [] else bytes))
          out
  unfolding round
  round-Carries r ctx_done bytes err input out h running =
      elim (Bool-cases (ctx_done || is_closed r.stop_closed)) [
        | inl over ↦ rw over (rw (append-nil input) (exit-Carries r input out h))
        | inr on ↦ rw on (
            finish-Carries (is_some err) _ _ out
              (emit-Carries _ _ out (append-Holds r bytes input out h.holds running) running))
      ]

  Carries-same :
      (r r' : Recorder) (input : Bytes) (out : List Bytes)
      → Carries r input out
      → (r'.acc ≡ r.acc) × (r'.queue ≡ r.queue)
      → (r'.chunks_sent ≡ r.chunks_sent) × (r'.dropped ≡ r.dropped)
      → (chunk_size_of r' ≡ chunk_size_of r) × (buffer_len_of r' ≡ buffer_len_of r)
      → (r'.started ≡ true) ⊎ ((r'.acc ≡ []) × (r'.pumping ≡ false))
      → Carries r' input out
  Carries-same r r' input out h (acc, queue) counts sizes idle = record {
    holds =
        Holds-with r r' input out out h.holds acc
          (subst (λ q. Sublist (out ++ q) (out ++ r.queue)) (sym queue)
            (Sublist.refl (out ++ r.queue)))
          (omega (arith, ap length queue)) counts sizes idle;
    short = omega (arith, h.short, ap length acc);
  }

  start-Carries :
      (r : Recorder) (input : Bytes) (out : List Bytes)
      → Carries r input out
      → Carries (start r) input out
  unfolding start
  start-Carries r input out h =
      Carries-same r (start r) input out h (ground (arith, h.holds.idle)) (ground arith)
        (ground arith) (ground arith)

  stop-Carries :
      (r : Recorder) (input : Bytes) (out : List Bytes)
      → Carries r input out
      → Carries (stop r) input out
  unfolding stop
  stop-Carries r input out h =
      Carries-same r (stop r) input out h (ground arith) (ground arith) (ground arith)
        (ground (arith, h.holds.idle))

  part-Carries :
      (r : Recorder) (queue : List Bytes) (input : Bytes) (out out' : List Bytes)
      → Carries r input out
      → Sublist (out' ++ queue) (out ++ r.queue)
      → length queue ≤ length r.queue
      → Carries (record r { queue = queue }) input out'
  part-Carries r queue input out out' h part fewer = record {
    holds =
        Holds-with r (record r { queue = queue }) input out out' h.holds refl part fewer
          (refl, refl) (refl, refl) h.holds.idle;
    short = h.short;
  }

  flush_if-Carries :
      (b : Bool) (r : Recorder) (input : Bytes) (out : List Bytes)
      → Carries r input out
      → Carries (if b then record r { queue = [] } else r) input out
  flush_if-Carries true r input out h =
      part-Carries r [] input out out h
        (Sublist.append (Sublist.refl out) (sublist-append_left [] r.queue)) (omega arith)
  flush_if-Carries false r input out h = h

  receive-Carries :
      (r : Recorder) (queue : List Bytes) (input : Bytes) (out : List Bytes)
      → r.queue ≡ queue
      → Carries r input out
      → Carries (receive r queue).0 input (out ++ (receive r queue).1)
  unfolding receive
  receive-Carries r [] input out e h = rw (append-nil out) h
  receive-Carries r (c ∷ cs') input out e h =
      part-Carries r cs' input out (out ++ c ∷ []) h
        (rw (e, append_assoc out (c ∷ []) cs') (Sublist.refl (out ++ c ∷ cs')))
        (omega (arith, ap length e))

  -- The pump runs only after the start.
  pumping_started :
      (r : Recorder) (input : Bytes) (out : List Bytes)
      → Carries r input out
      → r.pumping ≡ true
      → r.started ≡ true
  pumping_started r input out h on = ground (arith, h.holds.idle)

  pump_if-Carries :
      (b : Bool) (r : Recorder) (ctx_done : Bool) (bytes : Bytes) (err : Option ReadError)
      (input : Bytes) (out : List Bytes)
      → Carries r input out
      → r.pumping ≡ b
      → Carries
          (if b then round r ctx_done bytes err else r)
          (input ++ (if b then (if ctx_done || is_closed r.stop_closed then [] else bytes) else []))
          out
  pump_if-Carries true r ctx_done bytes err input out h on =
      round-Carries r ctx_done bytes err input out h (pumping_started r input out h on)
  pump_if-Carries false r ctx_done bytes err input out h off = rw (append-nil input) h

  step-Carries :
      (r : Recorder) (e : Event) (input : Bytes) (out : List Bytes)
      → Carries r input out
      → Carries (step r e).0 (input ++ consumed r e) (out ++ (step r e).1)
  unfolding step consumed flush
  step-Carries r starts input out h =
      rw (append-nil input, append-nil out) (start-Carries r input out h)
  step-Carries r stops input out h =
      rw (append-nil input, append-nil out) (stop-Carries r input out h)
  step-Carries r flushes input out h =
      rw (append-nil input, append-nil out) (flush_if-Carries r.created r input out h)
  step-Carries r receives input out h =
      rw (append-nil input) (receive-Carries r r.queue input out refl h)
  step-Carries r (pumps ctx_done bytes err) input out h =
      rw (append-nil out) (pump_if-Carries r.pumping r ctx_done bytes err input out h refl)

  pub run-Carries :
      (es : List Event) (r : Recorder) (input : Bytes) (out : List Bytes)
      → Carries r input out
      → Carries (run r es).0 (input ++ consumed_all r es) (out ++ (run r es).1)
  unfolding run consumed_all
  run-Carries [] r input out h = rw (append-nil input, append-nil out) h
  run-Carries (e ∷ es) r input out h =
      rw
        (
          ← append_assoc input (consumed r e) (consumed_all (step r e).0 es),
          ← append_assoc out (step r e).1 (run (step r e).0 es).1,
        )
        (run-Carries es (step r e).0 _ _ (step-Carries r e input out h))
