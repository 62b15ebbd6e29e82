-- ===== src/Shim/Socket.antt =====
-- cmd/shim/main.go: `pulseServerSocket`, where the recorder connects to the daemon.
use teddycloud_spotify_radio.Base.{
  ℕ, [], ◌∷◌, ◌++◌, ◌≡◌, refl, sym, subst, ap, ◌∙◌, Text, codes, join_paths,
}
use teddycloud_spotify_radio.Pulse.Daemon.{
  PulseAudio, World, Bringup, up, start_daemon, runtime_dir_of, native_socket,
}
use teddycloud_spotify_radio.Pulse.Daemon.Started.{
  Meets, IsStarted, start_daemon-Meets, runtime_dir_of-cons,
}

runtime_or_default : Text → Text
runtime_or_default [] = codes "/tmp/runtime"
runtime_or_default (c ∷ cs) = c ∷ cs

-- From the environment's XDG_RUNTIME_DIR; empty if it is not set.
unfoldable pub pulse_server_socket : Text → Text
unfolding runtime_or_default join_paths
pulse_server_socket runtime =
    codes "unix:" ++ join_paths (runtime_or_default runtime ∷ codes "pulse" ∷ codes "native" ∷ [])

runtime_or_default_same :
    (t : Text) → (c : ℕ) × (cs : Text) × (t ≡ c ∷ cs) → runtime_or_default t ≡ t
unfolding runtime_or_default
runtime_or_default_same t (c, cs, e) = rw (e, runtime_or_default) refl

-- Behind a start of the daemon that succeeded, the recorder connects to the socket that PULSE_SERVER
-- names, which is the socket that the start waited for.
pub pulse_server_socket-started :
    (p : PulseAudio) (b : Bringup) (w : World)
    → (start_daemon p b w).1 ≡ up
    → (pulse_server_socket (start_daemon p b w).0.xdg_runtime_dir
        ≡ (start_daemon p b w).0.pulse_server)
      × ((start_daemon p b w).0.pulse_server ≡ codes "unix:" ++ native_socket p)
unfolding pulse_server_socket native_socket
pulse_server_socket-started p b w is_up =
    let started : IsStarted p b w (start_daemon p b w).0 =
      subst (λ o. Meets p b w ((start_daemon p b w).0, o)) is_up (start_daemon-Meets p b w) in
    let same : pulse_server_socket (start_daemon p b w).0.xdg_runtime_dir
        ≡ codes "unix:" ++ native_socket p =
      ap (λ t. pulse_server_socket t) started.runtime_is
      ∙ ap (λ t. codes "unix:" ++ join_paths (t ∷ codes "pulse" ∷ codes "native" ∷ []))
          (runtime_or_default_same (runtime_dir_of p) (runtime_dir_of-cons p)) in
    (same ∙ sym started.server_is, started.server_is)
