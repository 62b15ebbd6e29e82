-- ===== src/Tests/Sse.antt =====
-- The listener, over a sink that records its commands.
use teddycloud_spotify_radio.Base.{
  true, false, List, [], ◌∷◌, ◌++◌, ◌≡◌, refl, arith, pos, Text, codes,
}
use teddycloud_spotify_radio.Sse.Dispatch.{no_frame, dispatch, read_line, read_lines, wrapped_value}
use teddycloud_spotify_radio.Json.{raw_data, read_string}
use teddycloud_spotify_radio.Sse.Loop.{
  Listener, Round, Timer, Attempt, reply, no_reply, eof, read_loop, run,
}
use teddycloud_spotify_radio.Sse.Loop.Reconnect.{any_canceled, run-returned}
use teddycloud_spotify_radio.Sse.Timing.{IsPrompt, lines_of, read_loop-silent}
use teddycloud_spotify_radio.Tests.Sinks.{recorder}

abbrev event_lines : List Text
event_lines =
    codes "event: knock" ∷ codes "data: { \"type\":\"knock\", \"data\":\"forward\" }" ∷ [] ∷ []

abbrev noisy : List Text
noisy = codes ": comment" ∷ codes "id: 7" ∷ event_lines ++ codes "retry: 100" ∷ []

noisy_runs : read_lines recorder (no_frame, []) noisy ≡ (no_frame, codes "skip_next" ∷ [])
unfolding read_lines read_line dispatch wrapped_value raw_data read_string
noisy_runs = refl

-- A line that comes an hour after the timer ran out.
abbrev late : Text → Round
late l = record {
  ctx_done = false;
  prefers_idle = true;
  waited = 3_600_000_000_000;
  line = l;
  busy = 1;
}

abbrev late_rounds : List Round
late_rounds = late (codes "event: TagValid") ∷ late (codes "data: x") ∷ late [] ∷ []

abbrev fresh : Timer
fresh = record { now = 0; deadline = 120_000_000_000 }

late-IsPrompt : (l : Text) → IsPrompt 120_000_000_000 (late l)
late-IsPrompt l = record { running = refl; prompt = omega arith }

read_loop-silent_example :
    read_loop recorder 120_000_000_000 fresh (no_frame, []) late_rounds false true eof
    ≡ ((read_lines recorder (no_frame, []) (lines_of late_rounds)).1, eof)
read_loop-silent_example =
    read_loop-silent recorder late_rounds 120_000_000_000 fresh (no_frame, []) true eof
      (late-IsPrompt _, (late-IsPrompt _, (late-IsPrompt _, tt))) (omega arith)

abbrev listener : Listener
listener = record {
  url = codes "http://box/";
  initial_backoff = pos 0;
  max_backoff = pos 0;
  idle_timeout = pos 0;
}

abbrev failing : Attempt
failing = record { done_before = false; response = no_reply; done_after = false; sleep_cut = false }

-- A connection that holds and brings a knock.
abbrev healthy : Attempt
healthy = record failing {
  response = reply 200 (record {
    rounds = late (codes "event: TagValid") ∷ late [] ∷ [];
    ctx_done = false;
    prefers_idle = false;
    last = eof;
    interrupted = false;
  });
}

abbrev cut : Attempt
cut = record failing { sleep_cut = true }

run-returned_example :
    (run recorder listener [] (failing ∷ healthy ∷ cut ∷ [])).returned
    ≡ any_canceled (failing ∷ healthy ∷ cut ∷ [])
run-returned_example = run-returned recorder listener [] (failing ∷ healthy ∷ cut ∷ [])
