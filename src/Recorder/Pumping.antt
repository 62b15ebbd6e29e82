-- ===== src/Recorder/Pumping.antt =====
-- A recorder between its start and the end of its pump.
use teddycloud_spotify_radio.Base.{
  Bool, true, false, List, [], ◌∷◌, ◌++◌, Option, some, if◌then◌else◌, length, ◌≡◌, ◌⊎◌, refl,
  arith,
}
use teddycloud_spotify_radio.Recorder.{
  Bytes, ReadError, Recorder, Event, pumps, flushes, receives, starts, stops, stop, flush, step,
  round, receive, exit,
}
use teddycloud_spotify_radio.Recorder.Life.{emit-SameLife}

-- What the pump and the consumers do, in contrast to the owner.
abbrev pub IsShared : Event → Type 0
IsShared (pumps done bytes err) = Unit
IsShared flushes = Unit
IsShared receives = Unit
IsShared e = ⊥

pub record IsRunning (r : Recorder) : Type 0 where
  pub is_started : r.started ≡ true
  pub is_stoppable : r.stopped ≡ true → r.stop_closed ≡ some true
  pub is_pumping : (r.pumping ≡ true) ⊎ (r.done_closed ≡ some true)

pub stop-IsRunning : (r : Recorder) → IsRunning r → IsRunning (stop r)
unfolding stop
stop-IsRunning r h = record {
  is_started = ground (arith, h.is_started);
  is_stoppable = ground (arith, h.is_stoppable);
  is_pumping = ground (arith, h.is_pumping);
}

round-IsRunning :
    (r : Recorder) (done : Bool) (bytes : Bytes) (err : Option ReadError)
    → IsRunning r
    → IsRunning (round r done bytes err)
unfolding round exit
round-IsRunning r done bytes err h = record {
  is_started = ground (
    arith,
    h.is_started,
    emit-SameLife (length (r.acc ++ bytes)) (record r { acc = r.acc ++ bytes }),
  );
  is_stoppable = ground (
    arith,
    h.is_stoppable,
    emit-SameLife (length (r.acc ++ bytes)) (record r { acc = r.acc ++ bytes }),
  );
  is_pumping = ground (
    arith,
    h.is_pumping,
    emit-SameLife (length (r.acc ++ bytes)) (record r { acc = r.acc ++ bytes }),
  );
}

round_stopped :
    (r : Recorder) (done : Bool) (bytes : Bytes) (err : Option ReadError)
    → (round r done bytes err).stopped ≡ r.stopped
unfolding round exit
round_stopped r done bytes err =
    ground (arith, emit-SameLife (length (r.acc ++ bytes)) (record r { acc = r.acc ++ bytes }))

receive-IsRunning : (r : Recorder) (q : List Bytes) → IsRunning r → IsRunning (receive r q).0
unfolding receive
receive-IsRunning r [] h = h
receive-IsRunning r (c ∷ cs) h = record {
  is_started = h.is_started;
  is_stoppable = h.is_stoppable;
  is_pumping = h.is_pumping;
}

receive_stopped : (r : Recorder) (q : List Bytes) → (receive r q).0.stopped ≡ r.stopped
unfolding receive
receive_stopped r [] = refl
receive_stopped r (c ∷ cs) = refl

pub step-IsRunning : (r : Recorder) (e : Event) → IsShared e → IsRunning r → IsRunning (step r e).0
unfolding step flush
step-IsRunning r starts sh h = absurd sh
step-IsRunning r stops sh h = absurd sh
step-IsRunning r flushes sh h = record {
  is_started = ground (arith, h.is_started);
  is_stoppable = ground (arith, h.is_stoppable);
  is_pumping = ground (arith, h.is_pumping);
}
step-IsRunning r receives sh h = receive-IsRunning r r.queue h
step-IsRunning r (pumps done bytes err) sh h =
    elim r.pumping as (λ b. IsRunning (if b then round r done bytes err else r)) [
      | true ↦ round-IsRunning r done bytes err h
      | false ↦ h
    ]

pub step_stopped : (r : Recorder) (e : Event) → IsShared e → (step r e).0.stopped ≡ r.stopped
unfolding step flush
step_stopped r starts sh = absurd sh
step_stopped r stops sh = absurd sh
step_stopped r flushes sh = ground arith
step_stopped r receives sh = receive_stopped r r.queue
step_stopped r (pumps done bytes err) sh = ground (arith, round_stopped r done bytes err)

-- Behind a stop, one more round of the pump is its last.
pub step_stop-done :
    (r : Recorder) (done : Bool) (bytes : Bytes) (err : Option ReadError)
    → IsRunning r
    → (step (stop r) (pumps done bytes err)).0.done_closed ≡ some true
unfolding step stop round exit
step_stop-done r done bytes err h = ground (arith, h.is_stoppable, h.is_pumping)

-- Once it is stopped, a round of the pump is its last, and takes up nothing.
pub step-stopped :
    (r : Recorder) (done : Bool) (bytes : Bytes) (err : Option ReadError)
    → IsRunning r
    → r.stopped ≡ true
    → (step r (pumps done bytes err)).0 ≡ record r { pumping = false; done_closed = some true }
unfolding step round exit
step-stopped r done bytes err h e = ground (arith, h.is_stoppable, h.is_pumping)
