-- ===== src/Recorder/Draining.antt =====
-- A recorder whose pump is over.
use teddycloud_spotify_radio.Base.{
  Bool, true, false, List, [], ◌∷◌, ◌++◌, Option, some, if◌then◌else◌, ◌≡◌, refl, ap, sym, ◌∙◌,
  arith, All, length,
}
use teddycloud_spotify_radio.Recorder.{
  Bytes, ReadError, Recorder, Event, pumps, flushes, receives, starts, stops, stop, flush, step,
  run, round, receive, exit,
}
use teddycloud_spotify_radio.Recorder.Life.{emit-SameLife}
use teddycloud_spotify_radio.Recorder.Pumping.{IsShared}

-- `done` is closed only behind the pump.
pub record IsClosing (r : Recorder) : Type 0 where
  pub over : r.done_closed ≡ some true → r.pumping ≡ false

pub stop-IsClosing : (r : Recorder) → IsClosing r → IsClosing (stop r)
unfolding stop
stop-IsClosing r h = record { over = ground (arith, h.over) }

pub stop_pumping : (r : Recorder) → (stop r).pumping ≡ r.pumping
unfolding stop
stop_pumping r = ground arith

receive-IsClosing : (r : Recorder) (q : List Bytes) → IsClosing r → IsClosing (receive r q).0
unfolding receive
receive-IsClosing r [] h = h
receive-IsClosing r (c ∷ cs) h = record { over = h.over }

round-IsClosing :
    (r : Recorder) (done : Bool) (bytes : Bytes) (err : Option ReadError)
    → IsClosing r
    → IsClosing (round r done bytes err)
unfolding round exit
round-IsClosing r done bytes err h = record {
  over =
      ground (
        arith,
        h.over,
        emit-SameLife (length (r.acc ++ bytes)) (record r { acc = r.acc ++ bytes }),
      );
}

pub step-IsClosing : (r : Recorder) (e : Event) → IsShared e → IsClosing r → IsClosing (step r e).0
unfolding step flush
step-IsClosing r starts sh h = absurd sh
step-IsClosing r stops sh h = absurd sh
step-IsClosing r flushes sh h = record { over = ground (arith, h.over) }
step-IsClosing r receives sh h = receive-IsClosing r r.queue h
step-IsClosing r (pumps done bytes err) sh h =
    elim r.pumping as (λ b. IsClosing (if b then round r done bytes err else r)) [
      | true ↦ round-IsClosing r done bytes err h
      | false ↦ h
    ]

receive_pumping : (r : Recorder) (q : List Bytes) → (receive r q).0.pumping ≡ r.pumping
unfolding receive
receive_pumping r [] = refl
receive_pumping r (c ∷ cs) = refl

-- A pump that is over stays over.
pub step-over :
    (r : Recorder) (e : Event) → IsShared e → r.pumping ≡ false → (step r e).0.pumping ≡ false
unfolding step flush
step-over r starts sh off = absurd sh
step-over r stops sh off = absurd sh
step-over r flushes sh off = ground arith
step-over r receives sh off = receive_pumping r r.queue ∙ off
step-over r (pumps done bytes err) sh off = ground arith

front_of_nil : (out rest : List Bytes) → [] ≡ out ++ rest → out ≡ []
front_of_nil [] rest e = refl
front_of_nil (c ∷ out) rest e = cc

receive-front :
    (r : Recorder) (q out rest : List Bytes)
    → (receive r q).0.queue ≡ out ++ rest
    → r.queue ≡ q
    → (rest' : List Bytes) × (q ≡ ((receive r q).1 ++ out) ++ rest')
unfolding receive
receive-front r [] out rest e same = (rest, sym same ∙ e)
receive-front r (c ∷ cs) out rest e same = (rest, ap (λ q. c ∷ q) e)

flush-front :
    (r : Recorder) (created : Bool) (out rest : List Bytes)
    → (if created then record r { queue = [] } else r).queue ≡ out ++ rest
    → (rest' : List Bytes) × (r.queue ≡ out ++ rest')
flush-front r true out rest e = (r.queue, ap (λ o. o ++ r.queue) (sym (front_of_nil out rest e)))
flush-front r false out rest e = (rest, e)

-- What a step takes from the channel of a pump that is over, and what comes behind it.
step-front :
    (r : Recorder) (e : Event) (out rest : List Bytes)
    → IsShared e
    → r.pumping ≡ false
    → (step r e).0.queue ≡ out ++ rest
    → (rest' : List Bytes) × (r.queue ≡ ((step r e).1 ++ out) ++ rest')
unfolding step flush
step-front r starts out rest sh off e = absurd sh
step-front r stops out rest sh off e = absurd sh
step-front r flushes out rest sh off e = flush-front r r.created out rest e
step-front r receives out rest sh off e = receive-front r r.queue out rest e refl
step-front r (pumps done bytes err) out rest sh off e = (rest, ground arith)

-- Behind the end of its pump, whatever the consumers do: what they still receive was waiting in the
-- channel, and it comes in its order.
pub run-front :
    (es : List Event) (r : Recorder)
    → All IsShared es
    → r.pumping ≡ false
    → (rest : List Bytes) × (r.queue ≡ (run r es).1 ++ rest)
unfolding run
run-front [] r sh off = (r.queue, refl)
run-front (e ∷ es) r (sh, shs) off =
    let (rest, same) = run-front es (step r e).0 shs (step-over r e sh off) in
    step-front r e (run (step r e).0 es).1 rest sh off same
