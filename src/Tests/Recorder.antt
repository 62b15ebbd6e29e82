-- ===== src/Tests/Recorder.antt =====
-- A recorder with chunks of two bytes and room for one.
use teddycloud_spotify_radio.Base.{true, false, List, [], ◌∷◌, none, ◌≡◌, refl, pos}
use teddycloud_spotify_radio.Recorder.{
  Recorder, Event, starts, stops, receives, pumps, new_recorder, start, stop, flush, chunk_size_of,
  buffer_len_of, emit, round, step, run,
}
use teddycloud_spotify_radio.Recorder.Steps.{Carries, consumed_all}
use teddycloud_spotify_radio.Recorder.Delivery.{run_new-Carries}
use teddycloud_spotify_radio.Recorder.Life.{stop-start_unstoppable}

abbrev small : Recorder
small = new_recorder (pos 2) (pos 1)

-- The second chunk finds the channel full.
abbrev busy : List Event
busy =
    starts
    ∷ pumps false (1 ∷ 2 ∷ []) none
    ∷ pumps false (3 ∷ []) none
    ∷ pumps false (4 ∷ []) none
    ∷ receives
    ∷ pumps false (5 ∷ 6 ∷ []) none
    ∷ receives
    ∷ []

busy_runs : (run small busy).1 ≡ (1 ∷ 2 ∷ []) ∷ (5 ∷ 6 ∷ []) ∷ []
unfolding run step round emit new_recorder start
busy_runs = refl

busy_counts : ((run small busy).0.chunks_sent ≡ 2) × ((run small busy).0.dropped ≡ 1)
unfolding run step round emit new_recorder start
busy_counts = (refl, refl)

run_new-Carries_example :
    Carries
      (chunk_size_of small)
      (buffer_len_of small)
      0
      (run small busy).0
      (consumed_all small busy)
      (run small busy).1
run_new-Carries_example = run_new-Carries (pos 2) (pos 1) busy

abbrev before : List Event
before = starts ∷ pumps false (1 ∷ 2 ∷ []) none ∷ pumps false (3 ∷ []) none ∷ []

abbrev after : List Event
after = pumps false (4 ∷ []) none ∷ receives ∷ []

flushed_first : (run (flush (run small before).0) after).1 ≡ (3 ∷ 4 ∷ []) ∷ []
unfolding run step round emit new_recorder start flush
flushed_first = refl

abbrev calm : List Event
calm = stops ∷ pumps false (1 ∷ []) none ∷ stops ∷ []

stop-start_unstoppable_example : (run (start (stop small)) calm).0.pumping ≡ true
stop-start_unstoppable_example =
    stop-start_unstoppable (pos 2) (pos 1) calm (tt, ((refl, refl), (tt, tt)))
