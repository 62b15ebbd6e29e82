-- ===== src/Tests/Config.antt =====
-- Environments: one variable too many or too few, or all of them in order.
use teddycloud_spotify_radio.Base.{
  [], ◌∷◌, ◌≡◌, refl, if◌then◌else◌, Text, codes, text_eq, some, negsuc, pos, false, atoi,
}
use teddycloud_spotify_radio.Shim.Wiring.Lines.{IsAsked, load-IsAsked}
use teddycloud_spotify_radio.Config.{Config}
use teddycloud_spotify_radio.Config.{
  load, loaded, refused, missing_variables, bad_volume, getenv_int, checked, missing_in,
}
use teddycloud_spotify_radio.Config.Bounds.{Meets, load-Meets}

-- The key alone.
abbrev key_only : Text → Text
key_only name = if text_eq name (codes "SOLOIST_API_KEY") then codes "k" else []

abbrev loud : Text → Text
loud name = if text_eq name (codes "SOLOIST_VOLUME") then codes "101" else codes "7"

key_only_misses_url : load key_only ≡ refused (missing_variables (codes "TEDDYCLOUD_URL" ∷ []))
unfolding load getenv_int checked missing_in text_eq
key_only_misses_url = refl

loud_is_refused : load loud ≡ refused (bad_volume (codes "101"))
unfolding load getenv_int checked missing_in text_eq
loud_is_refused = refl

sign_is_read : atoi (codes "-12") ≡ some (negsuc 11)
unfolding atoi
sign_is_read = refl

load-Meets_example : Meets key_only (load key_only)
load-Meets_example = load-Meets key_only

abbrev two_set : Text → Text
unfolding text_eq
two_set key =
    if text_eq key (codes "SOLOIST_API_KEY")
    then codes "key"
    else if text_eq key (codes "TEDDYCLOUD_URL")
    then codes "http://box"
    else if text_eq key (codes "SOLOIST_VOLUME")
    then codes "80"
    else []

abbrev two_set_config : Config
two_set_config = record {
  soloist_api_key = codes "key";
  teddycloud_url = codes "http://box";
  listen_addr = codes ":8080";
  soloist_data_dir = codes "/data";
  soloist_cache_dir = codes "/cache";
  soloist_device_name = codes "teddycloud-spotify-shim";
  soloist_bin = [];
  soloist_volume = pos 80;
  log_level = codes "info";
  static_stream = false;
  static_sample_rate = 22_050;
  recorder_buffer = pos 256;
}

two_set_is_loaded : load two_set ≡ loaded two_set_config
unfolding load getenv_int checked missing_in text_eq atoi
two_set_is_loaded = refl

load-IsAsked_example : IsAsked two_set_config (codes "/data/bin/soloist")
load-IsAsked_example =
    load-IsAsked two_set two_set_config (codes "/data/bin/soloist") two_set_is_loaded
