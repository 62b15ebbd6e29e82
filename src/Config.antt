-- ===== src/Config.antt =====
-- internal/config/config.go: `Load`. The environment is a function (`os.Getenv` gives an empty text
-- for a variable that is not set); `strconv.Atoi` and `strings.ToLower` are written out.
pub mod Bounds
use teddycloud_spotify_radio.Base.{
  atoi, ℕ, zero, suc, ◌+◌, ◌-◌, ◌*◌, ◌^◌, Bool, true, false, ◌&&◌, ◌||◌, List, [], ◌∷◌, ◌++◌, map,
  Option, none, some, ltb, leb, ◌==◌, if◌then◌else◌, ℤ, pos, negsuc, ltb_ℤ, pos_part, String, Text,
  codes, text_eq,
}

pub record Config : Type 0 where
  pub soloist_api_key : Text
  pub teddycloud_url : Text
  pub listen_addr : Text
  pub soloist_data_dir : Text
  pub soloist_cache_dir : Text
  pub soloist_device_name : Text
  pub soloist_bin : Text
  pub soloist_volume : ℤ
  pub log_level : Text
  pub static_stream : Bool
  pub static_sample_rate : ℕ
  pub recorder_buffer : ℤ

-- The errors, with the value that was refused, or the names that are missing.
pub data LoadError : Type 0 where
  bad_volume bad_rate bad_buffer : Text → LoadError
  missing_variables : List Text → LoadError

pub data Loaded : Type 0 where
  loaded : Config → Loaded
  refused : LoadError → Loaded

or_fallback : Text → Text → Text
or_fallback [] fallback = fallback
or_fallback (c ∷ cs) fallback = c ∷ cs

getenv : (Text → Text) → String → String → Text
unfolding or_fallback
getenv env key fallback = or_fallback (env (codes key)) (codes fallback)

int_or : Text → ℕ → Option ℤ
unfolding atoi
int_or [] fallback = some (pos fallback)
int_or (c ∷ cs) fallback = atoi (c ∷ cs)

unfoldable pub getenv_int : (Text → Text) → String → ℕ → Option ℤ
unfolding int_or
getenv_int env key fallback = int_or (env (codes key)) fallback

-- `strings.ToLower` on ASCII; no other letter becomes one of the words below but the Kelvin sign,
-- which none of them has.
lower : ℕ → ℕ
lower c = if leb b'A' c && leb c b'Z' then c + 32 else c

getenv_bool : (Text → Text) → String → Bool
unfolding lower text_eq
getenv_bool env key =
    let v = map lower (env (codes key)) in
    text_eq v (codes "1")
    || text_eq v (codes "true")
    || text_eq v (codes "yes")
    || text_eq v (codes "on")

-- A value that was read and lies between two bounds.
unfoldable pub checked : ℕ → ℕ → Option ℤ → Option ℤ
checked low high none = none
checked low high (some v) = if ltb_ℤ v (pos low) || ltb_ℤ (pos high) v then none else some v

-- A name goes before the others if its value is empty.
abbrev pub missing_if : Text → Text → List Text → List Text
missing_if [] name names = name ∷ names
missing_if (c ∷ cs) name names = names

-- The names of the required variables that are empty, in the order of the checks.
unfoldable pub missing_in : (Text → Text) → List String → List Text
missing_in env [] = []
missing_in env (key ∷ keys) = missing_if (env (codes key)) (codes key) (missing_in env keys)

abbrev pub required : List String
required = "SOLOIST_API_KEY" ∷ "TEDDYCLOUD_URL" ∷ []

config : (Text → Text) → ℤ → ℤ → ℤ → Config
unfolding getenv getenv_bool
config env volume rate buffer = record {
  soloist_api_key = env (codes "SOLOIST_API_KEY");
  teddycloud_url = env (codes "TEDDYCLOUD_URL");
  listen_addr = getenv env "LISTEN_ADDR" ":8080";
  soloist_data_dir = getenv env "SOLOIST_DATA_DIR" "/data";
  soloist_cache_dir = getenv env "SOLOIST_CACHE_DIR" "/cache";
  soloist_device_name = getenv env "SOLOIST_DEVICE_NAME" "teddycloud-spotify-shim";
  soloist_bin = getenv env "SOLOIST_BIN" "";
  soloist_volume = volume;
  log_level = getenv env "LOG_LEVEL" "info";
  static_stream = getenv_bool env "STATIC_STREAM";
  static_sample_rate = pos_part rate;
  recorder_buffer = buffer;
}

finish : (Text → Text) → List Text → ℤ → ℤ → ℤ → Loaded
unfolding config
finish env [] volume rate buffer = loaded (config env volume rate buffer)
finish env (m ∷ ms) volume rate buffer = refused (missing_variables (m ∷ ms))

with_buffer : (Text → Text) → ℤ → ℤ → Option ℤ → Loaded
unfolding finish missing_in
with_buffer env volume rate none = refused (bad_buffer (env (codes "RECORDER_BUFFER")))
with_buffer env volume rate (some buffer) = finish env (missing_in env required) volume rate buffer

with_rate : (Text → Text) → ℤ → Option ℤ → Loaded
unfolding with_buffer checked getenv_int
with_rate env volume none = refused (bad_rate (env (codes "STATIC_SAMPLE_RATE")))
with_rate env volume (some rate) =
    with_buffer env volume rate (checked 1 65536 (getenv_int env "RECORDER_BUFFER" 256))

with_volume : (Text → Text) → Option ℤ → Loaded
unfolding with_rate checked getenv_int
with_volume env none = refused (bad_volume (env (codes "SOLOIST_VOLUME")))
with_volume env (some volume) =
    with_rate env volume (checked 8000 96000 (getenv_int env "STATIC_SAMPLE_RATE" 22050))

unfoldable pub load : (Text → Text) → Loaded
unfolding with_volume checked getenv_int
load env = with_volume env (checked 0 100 (getenv_int env "SOLOIST_VOLUME" 100))
