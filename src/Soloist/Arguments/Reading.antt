-- ===== src/Soloist/Arguments/Reading.antt =====
-- The command lines read back, option by option.
use teddycloud_spotify_radio.Base.{
  zero, suc, ◌^◌, Bool, true, false, List, [], ◌∷◌, Option, none, some, if◌then◌else◌, ◌≡◌, refl,
  arith, Text, codes, text_eq, ltb_ℤ, atoi, atoi-decimal, ℤ, pos, negsuc,
}
use teddycloud_spotify_radio.Soloist.Supervisor.{Supervisor}
use teddycloud_spotify_radio.Soloist.Arguments.{Pairer, pair_args, args, volume_args}

-- The value of an option: names and values take turns, and a last name without a value is a flag.
abbrev pub value_of : Text → List Text → Option Text
unfolding text_eq
value_of name (n ∷ v ∷ rest) = let on = value_of name rest in if text_eq n name then some v else on
value_of name _ = none

-- Whether the last argument is a flag of this name.
abbrev pub has_flag : Text → List Text → Bool
unfolding text_eq
has_flag name (n ∷ v ∷ rest) = has_flag name rest
has_flag name (n ∷ []) = text_eq n name
has_flag name [] = false

number_in : Option Text → Option ℤ
unfolding atoi
number_in none = none
number_in (some t) = atoi t

-- What a command line tells Soloist.
pub record Told : Type 0 where
  pub pairs : Bool
  pub device : Option Text
  pub key : Option Text
  pub data_dir : Option Text
  pub cache_dir : Option Text
  pub socket : Option Text
  pub volume : Option ℤ

unfoldable pub told : List Text → Told
unfolding number_in
told line = record {
  pairs = has_flag (codes "--pair") line;
  device = value_of (codes "--device-name") line;
  key = value_of (codes "--api-key") line;
  data_dir = value_of (codes "--data-dir") line;
  cache_dir = value_of (codes "--cache-dir") line;
  socket = value_of (codes "--ws") line;
  volume = number_in (value_of (codes "--initial-volume") line);
}

-- What the pairing process is told.
pub told-pair_args :
    (p : Pairer)
    → told (pair_args p) ≡ record {
      pairs = true;
      device = some p.device_name;
      key = some p.api_key;
      data_dir = some p.data_dir;
      cache_dir = some p.cache_dir;
      socket = none;
      volume = none;
    }
unfolding told pair_args text_eq number_in
told-pair_args p = refl

-- A positive volume, or none.
abbrev pub positive : ℤ → Option ℤ
positive (pos (suc n)) = some (pos (suc n))
positive _ = none

-- What the process in Connect mode is told; the volume is one of 64 bits.
pub told-args :
    (s : Supervisor) (v : ℤ)
    → s.volume ≡ v
    → ltb_ℤ v (pos (2 ^ 63)) ≡ true
    → told (args s) ≡ record {
      pairs = false;
      device = some s.device_name;
      key = some s.api_key;
      data_dir = some s.data_dir;
      cache_dir = some s.cache_dir;
      socket = some (codes "127.0.0.1:0");
      volume = positive v;
    }
unfolding told args text_eq number_in volume_args
told-args s (pos (suc n)) e b = rw (e, atoi-decimal (suc n) (ground arith)) refl
told-args s (pos zero) e b = rw e refl
told-args s (negsuc n) e b = rw e refl
