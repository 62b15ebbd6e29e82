-- ===== src/Tests/Soloist.antt =====
-- The pairing, the sessions and the commands.
use teddycloud_spotify_radio.Base.{
  true, false, List, [], ◌∷◌, ◌++◌, none, some, ◌≡◌, refl, arith, pos, Text, codes,
}
use teddycloud_spotify_radio.Process.{no_error, exit_error}
use teddycloud_spotify_radio.Backoff.Schedule.{delay, schedule}
use teddycloud_spotify_radio.Soloist.Connector.{Connector}
use teddycloud_spotify_radio.Soloist.Pairing.{pair_retry, pair_done, Turn, drive}
use teddycloud_spotify_radio.Soloist.Pairing.Driving.{stops, answer, last_delay, drive-stops}
use teddycloud_spotify_radio.Soloist.Supervisor.{Supervisor, PortEvent, polled, exited}
use teddycloud_spotify_radio.Soloist.Session.{World, Lap, run_once}
use teddycloud_spotify_radio.Soloist.Session.Endless.{no_port, IsEndless, early_exit-IsEndless}
use teddycloud_spotify_radio.Soloist.Session.Detached.{IsDetached, world_of, run_once-IsDetached}
use teddycloud_spotify_radio.Soloist.Run.{Round, run}
use teddycloud_spotify_radio.Soloist.Run.Restart.{IsOn, IsUp, run-IsUp}
use teddycloud_spotify_radio.Tests.Sinks.{socket}

abbrev again : Turn
again = record { outcome = pair_retry; wait_cut = false }

abbrev paired : Turn
paired = record { outcome = pair_done; wait_cut = false }

drive-stops_example : drive (pos 5) (pos 15) ((again ∷ again ∷ []) ++ paired ∷ []) ≡ record {
  result = some (answer pair_done);
  delays = schedule 5 15 0 2 ++ last_delay (delay 5 15 2) pair_done;
}
drive-stops_example =
    drive-stops 5 15 (omega arith) (omega arith) (omega arith) (again ∷ again ∷ []) paired []
      (omega arith)
      ((record { retried = refl; waited = refl }), ((record { retried = refl; waited = refl }), tt))
      (unfold stops in refl)

abbrev unattached : Connector (List Text)
unattached = record { conn = none }

abbrev supervisor : Supervisor
supervisor = record {
  binary_path = codes "/data/bin/soloist";
  device_name = codes "box";
  api_key = codes "key";
  data_dir = codes "/data";
  cache_dir = codes "/cache";
  has_binary_manager = true;
  has_commands = true;
  initial_backoff = pos 0;
  max_backoff = pos 0;
  volume = pos 80;
}

abbrev world : World (List Text)
world = record {
  reports = [];
  kills = 0;
  deleted = false;
  connector = unattached;
  dial_delays = [];
}

-- A lap whose dial fails.
abbrev undialed : Lap (List Text)
undialed = record {
  ctx_done = false;
  exit_at_head = none;
  prefers_exit = false;
  dialed = none;
  exit_behind_dial = none;
  sleep_cut = false;
  done_behind = false;
  exit_behind = none;
}

abbrev session_lap : Lap (List Text)
session_lap = record undialed { dialed = some []; exit_behind = some (exit_error (pos 10)) }

abbrev port : PortEvent
port = polled (record { ws_port = some (codes "8123\n"); ws_addr = none })

run_once-IsDetached_example : IsDetached (
    world_of
      (run_once socket supervisor world true (no_port ∷ port ∷ []) (undialed ∷ session_lap ∷ [])))
run_once-IsDetached_example =
    run_once-IsDetached socket supervisor refl world true (no_port ∷ port ∷ [])
      (undialed ∷ session_lap ∷ []) (record { detached = refl })

early_exit-IsEndless_example : IsEndless (
    run_once socket supervisor world true
      ((no_port ∷ []) ++ exited no_error ∷ [])
      (undialed ∷ undialed ∷ []))
early_exit-IsEndless_example =
    early_exit-IsEndless socket supervisor world (no_port ∷ []) [] (undialed ∷ undialed ∷ [])
      (refl, tt)
      (
        (record { running = refl; not_dialed = refl; slept = refl }),
        ((record { running = refl; not_dialed = refl; slept = refl }), tt),
      )

-- The process does not start at first; then it expires in its first session.
abbrev failing_round : Round (List Text)
failing_round = record {
  done_before = false;
  starts = false;
  ports = [];
  laps = [];
  done_behind = false;
  sleep_cut = false;
}

abbrev expiring_round : Round (List Text)
expiring_round = record failing_round {
  starts = true;
  ports = no_port ∷ port ∷ [];
  laps = undialed ∷ session_lap ∷ [];
}

failing_round-IsOn : IsOn failing_round
failing_round-IsOn = record {
  before = refl;
  waiting = tt;
  inside = tt;
  behind = refl;
  asleep = refl;
}

expiring_round-IsOn : IsOn expiring_round
expiring_round-IsOn = record {
  before = refl;
  waiting = (λ e. cc, (λ e. cc, tt));
  inside = (
    record { at_head = refl; asleep = refl; behind = refl },
    (record { at_head = refl; asleep = refl; behind = refl }, tt),
  );
  behind = refl;
  asleep = refl;
}

run-IsUp_example : IsUp (run socket supervisor world (failing_round ∷ expiring_round ∷ []))
run-IsUp_example =
    run-IsUp socket supervisor (failing_round ∷ expiring_round ∷ []) world
      (failing_round-IsOn, (expiring_round-IsOn, tt))
