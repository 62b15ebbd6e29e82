-- ===== src/Tests/Shim.antt =====
-- The orchestrator, the rates and the tone.
use native.Mathlib.Nat.{div-le_of_le-mul}
use teddycloud_spotify_radio.Telemetry.Ratio.{IsRounded}
use teddycloud_spotify_radio.Shim.Recording.{fresh, shut, acts, recording}
use teddycloud_spotify_radio.Shim.Recording.Still.{stays, runs_on}
use teddycloud_spotify_radio.Shim.Recording.Recovers.{GivesUp, watch-GivesUp}
use teddycloud_spotify_radio.Process.{no_error, exit_error}
use teddycloud_spotify_radio.Soloist.Pairing.{tick, exited}
use teddycloud_spotify_radio.Soloist.Pairing.Attempts.{Attempt}
use teddycloud_spotify_radio.Base.{
  ℕ, ◌+◌, ◌*◌, ◌/◌, ◌%◌, ◌-◌, ◌==◌, ◌≤◌, ◌<◌, ◌^◌, if◌then◌else◌, ap, negsuc, true, List, [], ◌∷◌,
  none, some, All, ltb, ◌≡◌, refl, arith, pos, false,
}
use teddycloud_spotify_radio.Recorder.{new_recorder, flushes}
use teddycloud_spotify_radio.Server.{new_server, handle_healthz}
use teddycloud_spotify_radio.Server.Static.{sine_chunk, Tone}
use teddycloud_spotify_radio.Server.Static.{
  StaticEvent, receives, closes, generates, sees_stop, static_run, new_static_source,
}
use teddycloud_spotify_radio.Server.Static.Flow.{IsFlowing, IsTone, static_run-IsFlowing}
use teddycloud_spotify_radio.Server.Static.Channels.{
  samples, first_channel, tone_from, sine_chunk-tone,
}
use teddycloud_spotify_radio.Soloist.Binary.{Machine, unreachable, resolve}
use teddycloud_spotify_radio.Pulse.Daemon.{start_daemon, start_backoff_of, max_backoff_of}
use teddycloud_spotify_radio.Pulse.Run.{
  State, initial, probing, attempts, comes_up, announces, moves, Reach, begins, then_steps,
}
use teddycloud_spotify_radio.Shim.Startup.{start_soloist, reported}
use teddycloud_spotify_radio.Base.{codes}
use teddycloud_spotify_radio.Json.Encode.{quote}
use teddycloud_spotify_radio.Server.{set_unhealthy}
use teddycloud_spotify_radio.Server.Healthz.{respond, reason_in, health_error}
use teddycloud_spotify_radio.Shim.Startup.Reported.{status_of, reported-respond}
use teddycloud_spotify_radio.Shim.Startup.Health.{missing-healthz}
use teddycloud_spotify_radio.Shim.Recording
use teddycloud_spotify_radio.Shim.Recording.Slot.{Follows, Step-Follows}
use teddycloud_spotify_radio.Shim.Recording.Tidy.{IsTidy, Reach-IsTidy}
use teddycloud_spotify_radio.Telemetry.{Floats, new_sampler, Tick, snapshot, run_telemetry}
use teddycloud_spotify_radio.Telemetry.Pairs.{IsCounted, pairs, run_telemetry-pairs}
use teddycloud_spotify_radio.Tests.Binary.{machine, manager, empty_disk}
use teddycloud_spotify_radio.Pulse.MonitorStream.{open_monitor_stream}
use teddycloud_spotify_radio.Pulse.MonitorStream.Handles.{all_open}
use teddycloud_spotify_radio.Tests.Pulse.{library, audio, empty_world, good, good_up}

-- The supervision of the daemon behind its first start.
abbrev up_state : State
up_state = record (initial audio empty_world) {
  place = probing;
  attempt = 1;
  ready = true;
  reports = [] ∷ [];
  world = (start_daemon audio good empty_world).0;
}

up_reached : Reach audio empty_world up_state
unfolding initial
up_reached =
    let r1 : Reach audio empty_world _ =
      then_steps begins (moves refl (attempts refl refl refl refl)) in
    let r2 : Reach audio empty_world _ =
      then_steps r1 (moves refl (comes_up good refl (good_up empty_world) refl)) in
    then_steps r2 (moves refl (announces true refl refl))

-- No binary is there, and none can be fetched.
abbrev offline : Machine
offline = record (machine true) { answers = λ url. unreachable }

missing-healthz_example :
    (handle_healthz (start_soloist offline manager empty_disk (reported new_server [])).0 ≡ 503)
    × (handle_healthz
          (reported (start_soloist offline manager empty_disk (reported new_server [])).0 ([] ∷ []))
        ≡ 200)
missing-healthz_example =
    missing-healthz offline manager empty_disk new_server [] ([] ∷ []) 5_000_000_000 60_000_000_000
      audio empty_world up_state (unfold resolve in refl) (omega arith) (omega arith) (omega arith)
      (unfold start_backoff_of in refl) (unfold max_backoff_of in refl) up_reached refl
      (λ quiet. quiet) refl (λ e. cc)

reported-respond_example :
    (reason_in (respond (reported new_server ([] ∷ codes "soloist_expired" ∷ [])))
      ≡ codes "soloist_expired")
    × ((respond (reported new_server ([] ∷ codes "soloist_expired" ∷ []))).0
        ≡ status_of (codes "soloist_expired"))
reported-respond_example = reported-respond new_server ([] ∷ []) (codes "soloist_expired")

expired_is_told :
    respond (reported new_server (codes "soloist_expired" ∷ []))
    ≡ (503, codes "{\"error\":\"soloist_expired\"}\n")
unfolding respond reported set_unhealthy health_error quote
expired_is_told = refl

abbrev pub recorded : Recording.State
recorded = Recording.set_slot (some 1) (record Recording.initial {
  attempt = 1;
  place = Recording.recording (Recording.fresh (pos 8) all_open);
})

abbrev ready : Recording.State
ready = record Recording.initial { place = Recording.opening }

ready_reached : Recording.Reach (pos 8) ready
ready_reached =
    let r : Recording.Reach (pos 8) _ =
      Recording.then_steps Recording.begins
        (Recording.moves refl (Recording.sees_ready refl refl)) in
    Recording.then_steps r (Recording.moves refl (Recording.goes_on refl refl refl))

ready-recorded : Recording.Step (pos 8) ready recorded
unfolding open_monitor_stream
ready-recorded = Recording.moves refl (Recording.opens library refl refl refl)

recorded_reached : Recording.Reach (pos 8) recorded
recorded_reached = Recording.then_steps ready_reached ready-recorded

Reach-IsTidy_example : IsTidy recorded
Reach-IsTidy_example = Reach-IsTidy (pos 8) recorded recorded_reached

Step-Follows_example : Follows ready recorded
Step-Follows_example = Step-Follows (pos 8) ready recorded ready_reached ready-recorded

-- The watchdog has seen the daemon not ready, and a consumer flushes the channel.
watch-GivesUp_example :
    GivesUp
      (pos 8)
      false
      (1 ∷ 2 ∷ [])
      none
      (fresh (pos 8) all_open)
      recorded
      (record recorded { place = recording (acts flushes (shut (fresh (pos 8) all_open))) })
unfolding Recording.set_slot
watch-GivesUp_example =
    watch-GivesUp (pos 8) recorded _ (fresh (pos 8) all_open) false (1 ∷ 2 ∷ []) none
      recorded_reached refl refl
      (runs_on stays (Recording.live_acts (shut (fresh (pos 8) all_open)) flushes tt refl refl))

-- The pairing process exits with 1, and then with 0 without a session.
abbrev unsaved : List Attempt
unsaved =
    record {
      starts = true;
      events = tick false ∷ exited (exit_error (pos 1)) false ∷ [];
      wait_cut = false;
    }
    ∷ record { starts = true; events = tick false ∷ exited no_error false ∷ []; wait_cut = false }
    ∷ []

-- Whole numbers for float64.
abbrev whole : Floats ℕ
whole = record {
  of_uint64 = λ n. n;
  seconds = λ n. n / 1_000_000_000;
  add = λ a b. a + b;
  div = λ a b. a / b;
  is_positive = λ a. ltb 0 a;
}

whole-IsRounded : IsRounded whole (λ a b. a ≤ b) (λ a. a < 2 ^ 65)
whole-IsRounded = record {
  finite = λ n h. omega arith;
  finite_sum = λ m n hm hn. omega arith;
  nonneg = λ n h. omega arith;
  add_left = λ x y fx fy hx hy. omega arith;
  div_unit = λ a b fa fb hb ha h. (omega arith, div-le_of_le-mul b (omega (arith, h)));
}

abbrev ticks : List Tick
ticks =
    record { now = pos 10_000_000_000; server = new_server; recorder = none }
    ∷ record {
      now = pos 20_000_000_000;
      server = new_server;
      recorder = some (record (new_recorder (pos 0) (pos 8)) { chunks_sent = 10; dropped = 30 });
    }
    ∷ record { now = pos 30_000_000_000; server = new_server; recorder = none }
    ∷ []

ticks-AllIsCounted : All IsCounted ticks
ticks-AllIsCounted =
    unfold snapshot in
    (
      record { chunks_word = omega arith; dropped_word = omega arith },
      (
        record { chunks_word = omega arith; dropped_word = omega arith },
        (record { chunks_word = omega arith; dropped_word = omega arith }, tt),
      ),
    )

run_telemetry-pairs_example : run_telemetry whole new_sampler ticks ≡ pairs whole ticks
run_telemetry-pairs_example = run_telemetry-pairs whole ticks ticks-AllIsCounted

-- A square wave for the sine.
abbrev square : Tone
square hz rate amplitude i =
    if hz * i * 2 / rate % 2 == 0 then pos (amplitude / 2) else negsuc (amplitude / 2 - 1)

sine_chunk-tone_example :
    first_channel (samples (sine_chunk square 440 22_050 1024))
    ≡ tone_from square (440 * 2) 22_050 1024 1024 0
sine_chunk-tone_example =
    sine_chunk-tone square 440 22_050 1024 (λ i. ground arith)
      (λ i. ap (λ n. if n / 22_050 % 2 == 0 then pos 512 else negsuc 511) (omega arith))

-- A chunk is received, the source is closed, and its generator sees that behind one more chunk.
abbrev used : List StaticEvent
used = receives ∷ closes ∷ generates ∷ sees_stop ∷ receives ∷ []

static_run-IsFlowing_example :
    IsFlowing square 22_050 (static_run (new_static_source square 22_050) used).0
    × All (IsTone square 22_050) (static_run (new_static_source square 22_050) used).1
static_run-IsFlowing_example = static_run-IsFlowing square 22_050 used
