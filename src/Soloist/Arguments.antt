-- ===== src/Soloist/Arguments.antt =====
-- internal/soloist/pair.go and supervisor.go: the command lines of the pairing process and of the
-- process in Connect mode.
pub mod Reading
use teddycloud_spotify_radio.Base.{
  ℕ, suc, ◌*◌, Bool, List, [], ◌∷◌, ◌++◌, Option, none, some, Text, codes, decimal, ℤ, pos,
  positive_or,
}
use teddycloud_spotify_radio.Soloist.Supervisor.{Supervisor}

-- The fields of a `Pairer`; the checker is the data directory that it looks into, none for nil.
pub record Pairer : Type 0 where
  pub binary_path : Text
  pub device_name : Text
  pub api_key : Text
  pub data_dir : Text
  pub cache_dir : Text
  pub checker : Option Text
  pub has_binary_manager : Bool
  pub poll_interval : ℤ

-- The directory where `Pair` looks for a session.
checker_of : Option Text → Text → Text
checker_of none data_dir = data_dir
checker_of (some d) data_dir = d

unfoldable pub session_dir : Pairer → Text
unfolding checker_of
session_dir p = checker_of p.checker p.data_dir

abbrev pub pair_poll_interval : Pairer → ℤ
pair_poll_interval p = pos (positive_or p.poll_interval 2_000_000_000)

-- The arguments of the process that `Pair` starts.
unfoldable pub pair_args : Pairer → List Text
pair_args p =
    codes "--device-name"
    ∷ p.device_name
    ∷ codes "--api-key"
    ∷ p.api_key
    ∷ codes "--data-dir"
    ∷ p.data_dir
    ∷ codes "--cache-dir"
    ∷ p.cache_dir
    ∷ codes "--pair"
    ∷ []

-- A positive volume is an option; any other is none.
volume_args : ℤ → List Text
volume_args (pos (suc n)) = codes "--initial-volume" ∷ decimal (suc n) ∷ []
volume_args _ = []

-- `Supervisor.args`.
unfoldable pub args : Supervisor → List Text
unfolding volume_args
args s =
    (codes "--device-name"
      ∷ s.device_name
      ∷ codes "--api-key"
      ∷ s.api_key
      ∷ codes "--data-dir"
      ∷ s.data_dir
      ∷ codes "--cache-dir"
      ∷ s.cache_dir
      ∷ codes "--ws"
      ∷ codes "127.0.0.1:0"
      ∷ [])
    ++ volume_args s.volume
