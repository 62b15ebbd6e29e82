-- ===== src/Shim/Wiring.antt =====
-- cmd/shim/main.go: the parts that are built from the configuration.
pub mod Lines
use teddycloud_spotify_radio.Base.{true, some, Text, pos, [], codes}
use teddycloud_spotify_radio.Config.{Config}
use teddycloud_spotify_radio.Sse.Loop.{Listener}
use teddycloud_spotify_radio.Soloist.Binary.{BinaryManager}
use teddycloud_spotify_radio.Soloist.Supervisor.{Supervisor}
use teddycloud_spotify_radio.Soloist.Arguments.{Pairer}

-- The binary manager of `main`.
unfoldable pub binary_manager_of : Config → BinaryManager
binary_manager_of cfg = record { explicit_path = cfg.soloist_bin; data_dir = cfg.soloist_data_dir }

-- The pairer of `pairThenSupervisor`.
unfoldable pub pairer_of : Config → Text → Pairer
pairer_of cfg bin_path = record {
  binary_path = bin_path;
  device_name = cfg.soloist_device_name;
  api_key = cfg.soloist_api_key;
  data_dir = cfg.soloist_data_dir;
  cache_dir = cfg.soloist_cache_dir;
  checker = some cfg.soloist_data_dir;
  has_binary_manager = true;
  poll_interval = pos 0;
}

-- The supervisor of `runSupervisor`.
unfoldable pub supervisor_of : Config → Text → Supervisor
supervisor_of cfg bin_path = record {
  binary_path = bin_path;
  device_name = cfg.soloist_device_name;
  api_key = cfg.soloist_api_key;
  data_dir = cfg.soloist_data_dir;
  cache_dir = cfg.soloist_cache_dir;
  has_binary_manager = true;
  has_commands = true;
  initial_backoff = pos 0;
  max_backoff = pos 0;
  volume = cfg.soloist_volume;
}

-- The listener of `runSseListener`.
unfoldable pub listener_of : Config → Listener
listener_of cfg = record {
  url = cfg.teddycloud_url;
  initial_backoff = pos 0;
  max_backoff = pos 0;
  idle_timeout = pos 0;
}
