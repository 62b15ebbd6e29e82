-- ===== src/Config/Bounds.antt =====
-- What a configuration that `Load` returns can be relied on for.
use teddycloud_spotify_radio.Base.{
  ℕ, ◌≤◌, List, [], ◌∷◌, Option, none, some, ◌≡◌, ◌≢◌, refl, sym, All, arith, String, ℤ, pos,
  negsuc, Text, codes,
}
use teddycloud_spotify_radio.Config.{
  Config, Loaded, loaded, refused, missing_variables, bad_volume, bad_rate, bad_buffer, load,
  checked, finish, config, missing_in, missing_if, required, with_buffer, with_rate, with_volume,
  getenv_int,
}

abbrev Between : ℕ → ℕ → ℤ → Type 0
Between low high v = (n : ℕ) × (v ≡ pos n) × (low ≤ n) × (n ≤ high)

-- The configuration is in bounds, and its required fields are there.
pub record IsUsable (c : Config) : Type 0 where
  pub key : c.soloist_api_key ≢ []
  pub url : c.teddycloud_url ≢ []
  pub volume : Between 0 100 c.soloist_volume
  pub rate : (8000 ≤ c.static_sample_rate) × (c.static_sample_rate ≤ 96000)
  pub buffer : Between 1 65536 c.recorder_buffer

checked-Between :
    (low high : ℕ) (o : Option ℤ) (v : ℤ) → checked low high o ≡ some v → Between low high v
unfolding checked
checked-Between low high none v e = cc
checked-Between low high (some (pos n)) v e = ground arith
checked-Between low high (some (negsuc n)) v e = ground arith

-- A variable has no value between the bounds: it is no number, or out of them.
abbrev pub IsOut : (Text → Text) → String → ℕ → ℕ → ℕ → Type 0
IsOut env key fallback low high = checked low high (getenv_int env key fallback) ≡ none

-- What an outcome says of the environment.
abbrev pub Meets : (Text → Text) → Loaded → Type 0
Meets env (loaded c) = IsUsable c × (missing_in env required ≡ [])
Meets env (refused (missing_variables names)) = (names ≡ missing_in env required) × (names ≢ [])
Meets env (refused (bad_volume v)) =
    (v ≡ env (codes "SOLOIST_VOLUME")) × IsOut env "SOLOIST_VOLUME" 100 0 100
Meets env (refused (bad_rate v)) =
    (v ≡ env (codes "STATIC_SAMPLE_RATE")) × IsOut env "STATIC_SAMPLE_RATE" 22050 8000 96000
Meets env (refused (bad_buffer v)) =
    (v ≡ env (codes "RECORDER_BUFFER")) × IsOut env "RECORDER_BUFFER" 256 1 65536

missing_if-nil :
    (v name : Text) (names : List Text) → missing_if v name names ≡ [] → (v ≢ []) × (names ≡ [])
missing_if-nil [] name names e = (λ n. cc, cc)
missing_if-nil (c ∷ cs) name names e = (λ n. cc, e)

missing_in-nil :
    (env : Text → Text) (keys : List String)
    → missing_in env keys ≡ []
    → All (λ key. env (codes key) ≢ []) keys
unfolding missing_in
missing_in-nil env [] e = tt
missing_in-nil env (key ∷ keys) e =
    let (there, rest) = missing_if-nil (env (codes key)) (codes key) (missing_in env keys) e in
    (there, missing_in-nil env keys rest)

finish-Meets :
    (env : Text → Text) (ms : List Text) (volume rate buffer : ℤ)
    → ms ≡ missing_in env required
    → Between 0 100 volume
    → Between 8000 96000 rate
    → Between 1 65536 buffer
    → Meets env (finish env ms volume rate buffer)
unfolding finish config
finish-Meets env [] volume rate buffer e v (n, r, low, high) u =
    let (key, (url, _)) = missing_in-nil env required (sym e) in
    (record { key = key; url = url; volume = v; rate = ground arith; buffer = u }, sym e)
finish-Meets env (m ∷ ms) volume rate buffer e v r u = (e, λ n. cc)

with_buffer-Meets :
    (env : Text → Text) (volume rate : ℤ) (o : Option ℤ)
    → o ≡ checked 1 65536 (getenv_int env "RECORDER_BUFFER" 256)
    → Between 0 100 volume
    → Between 8000 96000 rate
    → Meets env (with_buffer env volume rate o)
unfolding with_buffer
with_buffer-Meets env volume rate none e v r = (refl, sym e)
with_buffer-Meets env volume rate (some buffer) e v r =
    finish-Meets env (missing_in env required) volume rate buffer refl v r
      (checked-Between 1 65536 (getenv_int env "RECORDER_BUFFER" 256) buffer (sym e))

with_rate-Meets :
    (env : Text → Text) (volume : ℤ) (o : Option ℤ)
    → o ≡ checked 8000 96000 (getenv_int env "STATIC_SAMPLE_RATE" 22050)
    → Between 0 100 volume
    → Meets env (with_rate env volume o)
unfolding with_rate
with_rate-Meets env volume none e v = (refl, sym e)
with_rate-Meets env volume (some rate) e v =
    with_buffer-Meets env volume rate _ refl v
      (checked-Between 8000 96000 (getenv_int env "STATIC_SAMPLE_RATE" 22050) rate (sym e))

with_volume-Meets :
    (env : Text → Text) (o : Option ℤ)
    → o ≡ checked 0 100 (getenv_int env "SOLOIST_VOLUME" 100)
    → Meets env (with_volume env o)
unfolding with_volume
with_volume-Meets env none e = (refl, sym e)
with_volume-Meets env (some volume) e =
    with_rate-Meets env volume _ refl
      (checked-Between 0 100 (getenv_int env "SOLOIST_VOLUME" 100) volume (sym e))

-- Whatever the environment: if `Load` returns a configuration, its volume, sample rate and buffer are
-- in their bounds and its key and URL are not empty; if it refuses, the error names a variable that
-- is no number in its bounds, with its value, or the required variables that are missing, at least one.
pub load-Meets : (env : Text → Text) → Meets env (load env)
unfolding load
load-Meets env = with_volume-Meets env _ refl
