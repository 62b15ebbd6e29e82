-- ===== src/Tests/Binary.antt =====
-- The Soloist binary: found, downloaded, deleted, broken off.
use teddycloud_spotify_radio.Base.{Bool, true, false, [], ◌∷◌, none, ◌≡◌, refl, codes, inl, pos}
use teddycloud_spotify_radio.Soloist.Disk.{Disk}
use teddycloud_spotify_radio.Soloist.Binary.{
  BinaryManager, Machine, reply, tarball, Entry, dest, resolve, cdn_url,
}
use teddycloud_spotify_radio.Soloist.Binary.Fresh.{resolve-resolve}
use teddycloud_spotify_radio.Soloist.Binary.Broken.{resolve_broken}
use teddycloud_spotify_radio.Process.{no_error, exit_error}
use teddycloud_spotify_radio.Soloist.Pairing.{exited, pair}
use teddycloud_spotify_radio.Soloist.Supervisor.{Supervisor}
use teddycloud_spotify_radio.Soloist.Expired.{files_behind, expired-resolve}

abbrev pub empty_disk : Disk
empty_disk q = none

abbrev pub manager : BinaryManager
manager = record { explicit_path = []; data_dir = codes "/data" }

abbrev pub binary : Bool → Entry
binary complete = record { name = codes "soloist"; bytes = 127 ∷ 69 ∷ []; complete = complete }

-- A machine whose download breaks off or not.
abbrev pub machine : Bool → Machine
machine complete = record {
  arch = codes "arm64";
  look_path = none;
  makes_directory = true;
  opens_file = true;
  answers = λ url. reply 200 (tarball (binary complete ∷ []) false);
  executes = λ d path. true;
}

resolve-resolve_example :
    resolve (machine true) manager (resolve (machine true) manager empty_disk).disk
    ≡ record (resolve (machine true) manager empty_disk) { fetched = [] }
resolve-resolve_example = resolve-resolve (machine true) manager empty_disk (unfold resolve in refl)

-- The pairing process ends with code 10; the supervisor of the same run never had an exit.
abbrev supervisor : Supervisor
supervisor = record {
  binary_path = codes "/data/bin/soloist";
  device_name = codes "box";
  api_key = codes "key";
  data_dir = codes "/data";
  cache_dir = codes "/cache";
  has_binary_manager = true;
  has_commands = true;
  initial_backoff = pos 0;
  max_backoff = pos 0;
  volume = pos 80;
}

expired-resolve_example :
    (resolve (machine true) manager (files_behind true manager empty_disk)).fetched
    ≡ codes "https://soloist-builds.spotifycdn.com/soloist_release_arm64.tar.gz" ∷ []
expired-resolve_example =
    expired-resolve (machine true) manager empty_disk
      (codes "https://soloist-builds.spotifycdn.com/soloist_release_arm64.tar.gz") true
      (exited (exit_error (pos 10)) false ∷ []) supervisor no_error true refl refl
      (unfold cdn_url in refl) refl (inl (unfold pair in (refl, refl)))

resolve_broken_example :
    ((resolve (machine true) manager (resolve (machine false) manager empty_disk).disk).fetched
      ≡ [])
    × ((resolve (machine true) manager (resolve (machine false) manager empty_disk).disk).path
        ≡ dest manager)
    × ((resolve (machine true) manager (resolve (machine false) manager empty_disk).disk).disk
        ≡ (resolve (machine false) manager empty_disk).disk)
resolve_broken_example =
    resolve_broken (machine false) (machine true) manager empty_disk refl refl refl refl
      (unfold resolve in refl)
