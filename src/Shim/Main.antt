-- ===== src/Shim/Main.antt =====
-- cmd/shim/main.go: how `main` ends, and the level of its logger.
use teddycloud_spotify_radio.Base.{
  ℕ, Bool, true, false, if◌then◌else◌, Text, codes, text_eq, ◌≡◌, refl, arith,
}
use teddycloud_spotify_radio.Config.{Config, Loaded, loaded, refused}

data Level : Type 0 where
  level_debug level_info level_warn level_error : Level

-- `setupLogger`: any other text is info.
level_of : Text → Level
unfolding text_eq
level_of level =
    if text_eq level (codes "debug")
    then level_debug
    else if text_eq level (codes "warn")
    then level_warn
    else if text_eq level (codes "error")
    then level_error
    else level_info

-- How `ListenAndServe` ends: without an error, because of a `Shutdown`, or with another error.
data ListenEnd : Type 0 where
  no_error server_closed listen_failed : ListenEnd

-- `Server.Run`: whether it returns an error.
run_fails : ListenEnd → Bool
run_fails listen_failed = true
run_fails _ = false

-- The exit status behind the server.
exit_behind : ListenEnd → ℕ
unfolding run_fails
exit_behind end = if run_fails end then 1 else 0

-- The exit status of `main`, from the configuration and the end of its server.
exit_status : Loaded → ListenEnd → ℕ
unfolding exit_behind
exit_status (refused e) end = 1
exit_status (loaded cfg) end = exit_behind end

-- `main` ends with 0 only with a configuration and behind a server that was shut down.
exit_status_lem :
    (l : Loaded) (end : ListenEnd)
    → exit_status l end ≡ 0
    → (c : Config) × (l ≡ loaded c) × (run_fails end ≡ false)
unfolding exit_status exit_behind
exit_status_lem (refused e) end h = cc
exit_status_lem (loaded c) end h = (c, refl, ground arith)
