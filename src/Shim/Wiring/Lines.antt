-- ===== src/Shim/Wiring/Lines.antt =====
-- What Soloist is told of the configuration, when it is paired and when it is supervised.
use teddycloud_spotify_radio.Base.{
  ℕ, zero, suc, ap, ◌∙◌, Option, ℤ, true, false, none, some, ◌≡◌, refl, subst, arith, ◌==◌,
  if◌then◌else◌, ◌≤◌, Text, codes, pos,
}
use teddycloud_spotify_radio.Config.{Config, loaded, load}
use teddycloud_spotify_radio.Config.Bounds.{IsUsable, Meets, load-Meets}
use teddycloud_spotify_radio.Soloist.Arguments.{pair_args, args, session_dir}
use teddycloud_spotify_radio.Soloist.Arguments.Reading.{
  positive, Told, told, told-pair_args, told-args,
}
use teddycloud_spotify_radio.Shim.Wiring.{binary_manager_of, pairer_of, supervisor_of}

-- What a configuration asks Soloist to be, in either of its modes.
abbrev pub asked : Config → Told
asked c = record {
  pairs = true;
  device = some c.soloist_device_name;
  key = some c.soloist_api_key;
  data_dir = some c.soloist_data_dir;
  cache_dir = some c.soloist_cache_dir;
  socket = none;
  volume = none;
}

abbrev pub connected : Config → Option ℤ → Told
connected c v = record (asked c) { pairs = false; socket = some (codes "127.0.0.1:0"); volume = v }

-- The two command lines, and the places where a session is looked for.
pub record IsAsked (c : Config) (path : Text) : Type 0 where
  pub pairing : told (pair_args (pairer_of c path)) ≡ asked c
  pub volume : ℕ
  pub volume_is : c.soloist_volume ≡ pos volume
  pub in_percent : volume ≤ 100
  pub connecting :
      told (args (supervisor_of c path))
      ≡ connected c (if volume == 0 then none else some (pos volume))
  pub looked_in :
      (session_dir (pairer_of c path) ≡ c.soloist_data_dir)
      × ((binary_manager_of c).data_dir ≡ c.soloist_data_dir)

positive_pos : (n : ℕ) → positive (pos n) ≡ (if n == 0 then none else some (pos n))
positive_pos zero = refl
positive_pos (suc n) = ground arith

usable-IsAsked : (c : Config) (path : Text) → IsUsable c → IsAsked c path
unfolding pairer_of supervisor_of binary_manager_of session_dir
usable-IsAsked c path h =
    let (n, is_n, low, high) = h.volume in
    record {
      pairing = told-pair_args (pairer_of c path);
      volume = n;
      volume_is = is_n;
      in_percent = high;
      connecting =
          told-args (supervisor_of c path) (pos n) is_n (ground arith)
          ∙ ap (connected c) (positive_pos n);
      looked_in = (refl, refl);
    }

-- A configuration that `Load` returns reaches Soloist whole: both command lines, read option by
-- option, have its device name, key and directories; only that of the pairing has the flag for it,
-- only the other one the address of the socket and, unless it is 0, the volume, which is at most 100;
-- and the pairing looks for the session in the same directory as the start.
pub load-IsAsked :
    (env : Text → Text) (c : Config) (path : Text) → load env ≡ loaded c → IsAsked c path
load-IsAsked env c path e = usable-IsAsked c path (subst (Meets env) e (load-Meets env)).0
