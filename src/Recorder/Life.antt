-- ===== src/Recorder/Life.antt =====
-- How the pump of a recorder ends.
use teddycloud_spotify_radio.Base.{
  Bool, true, false, List, [], ◌∷◌, ◌++◌, Option, none, some, ◌≡◌, refl, inl, inr, arith, All, ℤ,
  Bool-cases, ℕ, zero, suc, leb, length, take, drop,
}
use teddycloud_spotify_radio.Recorder.{
  Bytes, ReadError, Recorder, new_recorder, start, stop, flush, offer, emit, chunk_size_of, round,
  Event, starts, stops, flushes, receives, pumps, receive, step, run,
}

-- The fields that a pump leaves alone while it cuts off chunks.
pub record SameLife (r r' : Recorder) : Type 0 where
  pub stop_closed : r'.stop_closed ≡ r.stop_closed
  pub stopped : r'.stopped ≡ r.stopped
  pub started : r'.started ≡ r.started
  pub pumping : r'.pumping ≡ r.pumping
  pub done_closed : r'.done_closed ≡ r.done_closed

offer-SameLife : (r : Recorder) (c : Bytes) → SameLife r (offer r c)
unfolding offer
offer-SameLife r c = ground arith

trans-SameLife : {r s t : Recorder} → SameLife r s → SameLife s t → SameLife r t
trans-SameLife h k = ground arith

pub emit-SameLife : (fuel : ℕ) (r : Recorder) → SameLife r (emit fuel r)
unfolding emit
emit-SameLife zero r = ground arith
emit-SameLife (suc fuel) r = elim (Bool-cases (leb (chunk_size_of r) (length r.acc))) [
  | inl more ↦ rw more (
      trans-SameLife
        (trans-SameLife {r = r} {s = record r { acc = drop (chunk_size_of r) r.acc }} (ground arith)
          (offer-SameLife _ (take (chunk_size_of r) r.acc)))
        (emit-SameLife fuel _))
  | inr done ↦ rw done (ground arith)
]

-- Stopped, and yet the pump runs on a stop channel that nobody closes any more.
abbrev IsUnstoppable : Recorder → Type 0
IsUnstoppable r =
    (r.stop_closed ≡ some false) × (r.stopped ≡ true) × (r.started ≡ true) × (r.pumping ≡ true)

-- Neither the context nor the source ends the pump here.
abbrev pub IsCalm : Event → Type 0
IsCalm (pumps ctx_done bytes err) = (ctx_done ≡ false) × (err ≡ none)
IsCalm _ = Unit

round-IsUnstoppable :
    (r : Recorder) (bytes : Bytes) → IsUnstoppable r → IsUnstoppable (round r false bytes none)
unfolding round
round-IsUnstoppable r bytes h =
    ground (arith, emit-SameLife (length (r.acc ++ bytes)) (record r { acc = r.acc ++ bytes }))

receive-IsUnstoppable :
    (r : Recorder) (q : List Bytes) → IsUnstoppable r → IsUnstoppable (receive r q).0
unfolding receive
receive-IsUnstoppable r [] h = h
receive-IsUnstoppable r (c ∷ cs) h = h

step-IsUnstoppable :
    (r : Recorder) (e : Event) → IsCalm e → IsUnstoppable r → IsUnstoppable (step r e).0
unfolding step start stop flush
step-IsUnstoppable r starts c h = ground arith
step-IsUnstoppable r stops c h = ground arith
step-IsUnstoppable r flushes c h = ground arith
step-IsUnstoppable r receives c h = receive-IsUnstoppable r r.queue h
step-IsUnstoppable r (pumps ctx_done bytes err) c h = ground (arith, round-IsUnstoppable r bytes)

run-IsUnstoppable :
    (es : List Event) (r : Recorder) → All IsCalm es → IsUnstoppable r → IsUnstoppable (run r es).0
unfolding run
run-IsUnstoppable [] r c h = h
run-IsUnstoppable (e ∷ es) r (c, cs) h =
    run-IsUnstoppable es (step r e).0 cs (step-IsUnstoppable r e c h)

-- A recorder that is stopped before it is started keeps its pump running, whatever is called later,
-- until its context is done or its source fails.
pub stop-start_unstoppable :
    (chunk_size buffer_len : ℤ) (es : List Event)
    → All IsCalm es
    → (run (start (stop (new_recorder chunk_size buffer_len))) es).0.pumping ≡ true
stop-start_unstoppable chunk_size buffer_len es c =
    (run-IsUnstoppable es (start (stop (new_recorder chunk_size buffer_len))) c
      (unfold new_recorder start stop in (refl, refl, refl, refl))).3

-- Started, then stopped: the stop channel stays closed.
abbrev IsStopped : Recorder → Type 0
IsStopped r = (r.stop_closed ≡ some true) × (r.stopped ≡ true) × (r.started ≡ true)

round-IsStopped :
    (r : Recorder) (ctx_done : Bool) (bytes : Bytes) (err : Option ReadError)
    → IsStopped r
    → IsStopped (round r ctx_done bytes err) × ((round r ctx_done bytes err).pumping ≡ false)
unfolding round
round-IsStopped r ctx_done bytes err h = ground arith

receive-IsStopped : (r : Recorder) (q : List Bytes) → IsStopped r → IsStopped (receive r q).0
unfolding receive
receive-IsStopped r [] h = h
receive-IsStopped r (c ∷ cs) h = h

step-IsStopped : (r : Recorder) (e : Event) → IsStopped r → IsStopped (step r e).0
unfolding step start stop flush
step-IsStopped r starts h = ground arith
step-IsStopped r stops h = ground arith
step-IsStopped r flushes h = ground arith
step-IsStopped r receives h = receive-IsStopped r r.queue h
step-IsStopped r (pumps ctx_done bytes err) h = ground (arith, round-IsStopped r ctx_done bytes err)

run-IsStopped : (es : List Event) (r : Recorder) → IsStopped r → IsStopped (run r es).0
unfolding run
run-IsStopped [] r h = h
run-IsStopped (e ∷ es) r h = run-IsStopped es (step r e).0 (step-IsStopped r e h)

-- A recorder that was started and not yet stopped: after `Stop`, and whatever follows it, the next
-- round of the pump is its last, and it adds nothing to the bytes that it holds.
pub stop_ends :
    (r : Recorder) (es : List Event) (ctx_done : Bool) (bytes : Bytes) (err : Option ReadError)
    → r.started ≡ true
    → r.stopped ≡ false
    → let s = (run (stop r) es).0 in
      ((step s (pumps ctx_done bytes err)).0.pumping ≡ false)
      × ((step s (pumps ctx_done bytes err)).0.acc ≡ s.acc)
stop_ends r es ctx_done bytes err started fresh =
    last_round (run (stop r) es).0 (run-IsStopped es (stop r) (unfold stop in ground arith))
  where
    last_round :
        (s : Recorder)
        → IsStopped s
        → ((step s (pumps ctx_done bytes err)).0.pumping ≡ false)
          × ((step s (pumps ctx_done bytes err)).0.acc ≡ s.acc)
    last_round s h = unfold step round in ground arith
