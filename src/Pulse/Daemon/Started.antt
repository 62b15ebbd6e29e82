-- ===== src/Pulse/Daemon/Started.antt =====
-- What a start that succeeds has done, and what one that fails leaves behind.
use teddycloud_spotify_radio.Base.{
  ℕ, suc, ◌<◌, true, false, List, [], ◌∷◌, ◌++◌, Option, none, some, is_some, if◌then◌else◌, ◌≡◌,
  inl, inr, refl, ap, subst, ◌∙◌, arith, Text, codes, append_assoc, Bool-cases,
}
use teddycloud_spotify_radio.Pulse.Sinks.{sink_listed}
use teddycloud_spotify_radio.Pulse.Daemon.{
  PulseAudio, World, DaemonError, no_directory, no_variable, not_launched, Surroundings, Bringup,
  Outcome, pending, up, failed, pactl_out, SocketEvent, launcher_exits, times_out, polls,
  launch_command, list_command, default_command, exit_command, spawn, home_dir_of, runtime_dir_of,
  or_default, native_socket, stale_files, set_variables, setup_env, wait_for_socket, listing_error,
  wait_sink_ready, set_default, behind_socket, behind_env, start_daemon,
}
use teddycloud_spotify_radio.Pulse.Daemon.Looked.{
  replicate, Looked, found, missed, wait_sinks-Looked,
}

abbrev pub IsEnvError : DaemonError → Type 0
IsEnvError (no_directory d) = Unit
IsEnvError (no_variable v) = Unit
IsEnvError e = ⊥

record IsSetUp (p : PulseAudio) (w : World) : Type 0 where
  home_is : w.home ≡ home_dir_of p
  runtime_is : w.xdg_runtime_dir ≡ runtime_dir_of p
  server_is : w.pulse_server ≡ codes "unix:" ++ native_socket p

module _ (p : PulseAudio) (e : Surroundings) where
  set_variables_commands : (w : World) → (set_variables p e w).0.commands ≡ w.commands
  unfolding set_variables
  set_variables_commands w = ground arith

  set_variables_removals : (w : World) → (set_variables p e w).0.removals ≡ w.removals
  unfolding set_variables
  set_variables_removals w = ground arith

  set_variables-IsSetUp :
      (w : World) → (set_variables p e w).1 ≡ none → IsSetUp p (set_variables p e w).0
  unfolding set_variables
  set_variables-IsSetUp w h = ground arith

  set_variables-IsEnvError :
      (w : World) (x : DaemonError) → (set_variables p e w).1 ≡ some x → IsEnvError x
  unfolding set_variables
  set_variables-IsEnvError w x h = ground arith

  setup_env_commands : (w : World) → (setup_env p e w).0.commands ≡ w.commands
  unfolding setup_env
  setup_env_commands w = ground arith

  setup_env_removals : (w : World) → (setup_env p e w).0.removals ≡ w.removals
  unfolding setup_env
  setup_env_removals w = ground arith

  setup_env-IsSetUp : (w : World) → (setup_env p e w).1 ≡ none → IsSetUp p (setup_env p e w).0
  unfolding setup_env
  setup_env-IsSetUp w h = ground arith

  setup_env-IsEnvError : (w : World) (x : DaemonError) → (setup_env p e w).1 ≡ some x → IsEnvError x
  unfolding setup_env
  setup_env-IsEnvError w x h = ground arith

-- The state behind a start that succeeded: the variables are set, the removal of the files of an
-- earlier daemon was tried, and the commands were the launch, up to five listings, the last of which
-- has the sink, and the choice of the default sink, in this order.
pub record IsStarted (p : PulseAudio) (b : Bringup) (w w' : World) : Type 0 where
  pub home_is : w'.home ≡ home_dir_of p
  pub runtime_is : w'.xdg_runtime_dir ≡ runtime_dir_of p
  pub server_is : w'.pulse_server ≡ codes "unix:" ++ native_socket p
  pub clean : w'.removals ≡ w.removals ++ stale_files p
  pub retries : ℕ
  pub few : retries < 5
  pub commands_are :
      w'.commands
      ≡ w.commands
        ++ launch_command ∷ (replicate (suc retries) list_command ++ default_command ∷ [])
  pub listed : (out : Text) × (pactl_out (b.listings retries) ≡ some out) × (sink_listed out ≡ true)

-- What was done before a failure. Behind a launch whose socket did not come nothing is cleaned up;
-- a failure behind the socket asks the daemon to exit.
pub data Leaves (w w' : World) (e : DaemonError) : Type 0 where
  nothing : IsEnvError e → w'.commands ≡ w.commands → Leaves w w' e
  launched : w'.commands ≡ w.commands ++ launch_command ∷ [] → Leaves w w' e
  asked :
      (between : List (List Text))
      → w'.commands ≡ w.commands ++ launch_command ∷ (between ++ exit_command ∷ [])
      → Leaves w w' e

abbrev pub HasTimeout : List SocketEvent → Type 0
HasTimeout [] = ⊥
HasTimeout (times_out ∷ es) = Unit
HasTimeout (launcher_exits e ∷ es) = HasTimeout es
HasTimeout (polls there ∷ es) = HasTimeout es

-- The three outcomes: it waits only while the timer of the socket has not fired.
abbrev pub Meets : PulseAudio → Bringup → World → World × Outcome → Type 0
Meets p b w (w', pending) = HasTimeout b.socket → ⊥
Meets p b w (w', up) = IsStarted p b w w'
Meets p b w (w', failed e) = Leaves w w' e

pub runtime_dir_of-cons : (p : PulseAudio) → (c : ℕ) × (cs : Text) × (runtime_dir_of p ≡ c ∷ cs)
unfolding runtime_dir_of or_default
runtime_dir_of-cons p =
    elim p.xdg_runtime_dir
      as (λ t. (c : ℕ) × (cs : Text) × (or_default t (codes "/tmp/runtime") ≡ c ∷ cs)) [
        | [] ↦ (_, _, refl)
        | c ∷ cs ↦ (c, cs, refl)
      ]

listing_error-none :
    (o : Option Text)
    → listing_error o ≡ none
    → (out : Text) × (o ≡ some out) × (sink_listed out ≡ true)
unfolding listing_error
listing_error-none none e = cc
listing_error-none (some out) e = (out, refl, ground arith)

wait_for_socket-pending : (es : List SocketEvent) → wait_for_socket es ≡ pending → HasTimeout es → ⊥
unfolding wait_for_socket
wait_for_socket-pending [] e h = h
wait_for_socket-pending (times_out ∷ es) e h = cc
wait_for_socket-pending (launcher_exits x ∷ es) e h = wait_for_socket-pending es (ground arith) h
wait_for_socket-pending (polls there ∷ es) e h = wait_for_socket-pending es (ground arith) h

-- Three rounds of commands, one behind the other.
chained : (a b c l m n : List (List Text)) → b ≡ a ++ l → c ≡ b ++ m → c ++ n ≡ a ++ (l ++ (m ++ n))
chained a b c l m n e f = rw (f, e) (append_assoc (a ++ l) m n ∙ append_assoc a l (m ++ n))

module _ (p : PulseAudio) (b : Bringup) (w : World) where
  set_default-Meets :
      (v : World) (r : World × Option DaemonError)
      → IsSetUp p v
      → v.removals ≡ w.removals ++ stale_files p
      → v.commands ≡ w.commands ++ launch_command ∷ []
      → Looked 5 0 b.listings v r
      → Meets p b w (set_default b r)
  unfolding set_default
  set_default-Meets v (v', some e) env clean cs (found k few same ok none_left) = cc
  set_default-Meets v (v', some e) env clean cs (missed x sink same error) =
      asked (replicate 5 list_command) (
        chained w.commands v.commands v'.commands (launch_command ∷ []) (replicate 5 list_command)
          (exit_command ∷ []) cs (ap (λ u. u.commands) same))
  set_default-Meets v (v', none) env clean cs (missed x sink same error) = cc
  set_default-Meets v (v', none) env clean cs (found k few same ok none_left) =
      elim (Bool-cases (is_some (pactl_out b.default_set))) [
        | inl e ↦ rw e (record {
          home_is = ap (λ u. u.home) same ∙ env.home_is;
          runtime_is = ap (λ u. u.xdg_runtime_dir) same ∙ env.runtime_is;
          server_is = ap (λ u. u.pulse_server) same ∙ env.server_is;
          clean = ap (λ u. u.removals) same ∙ clean;
          retries = k;
          few = few;
          commands_are =
              chained w.commands v.commands v'.commands (launch_command ∷ [])
                (replicate (suc k) list_command) (default_command ∷ []) cs
                (ap (λ u. u.commands) same);
          listed =
              listing_error-none (pactl_out (b.listings k))
                (subst (λ j. listing_error (pactl_out (b.listings j)) ≡ none) (omega arith) ok);
        })
        | inr e ↦ rw e (
            asked (replicate (suc k) list_command ++ default_command ∷ []) (
              ap (λ l. l ++ exit_command ∷ [])
                (chained w.commands v.commands v'.commands (launch_command ∷ [])
                  (replicate (suc k) list_command) (default_command ∷ []) cs
                  (ap (λ u. u.commands) same))
              ∙ append_assoc w.commands _ (exit_command ∷ [])))
      ]

  wait_sink_ready-Looked : (v : World) → Looked 5 0 b.listings v (wait_sink_ready b.listings v)
  unfolding wait_sink_ready
  wait_sink_ready-Looked v = wait_sinks-Looked 5 0 b.listings none v tt

  behind_socket-Meets :
      (o : Outcome) (v : World)
      → wait_for_socket b.socket ≡ o
      → IsSetUp p v
      → v.removals ≡ w.removals ++ stale_files p
      → v.commands ≡ w.commands ++ launch_command ∷ []
      → Meets p b w (behind_socket b o v)
  unfolding behind_socket
  behind_socket-Meets pending v e env clean cs = wait_for_socket-pending b.socket e
  behind_socket-Meets (failed x) v e env clean cs = launched cs
  behind_socket-Meets up v e env clean cs =
      set_default-Meets v (wait_sink_ready b.listings v) env clean cs (wait_sink_ready-Looked v)

  abbrev launched_in : World → World
  launched_in v = spawn launch_command (record v { removals = v.removals ++ stale_files p })

  behind_env-Meets :
      (r : World × Option DaemonError)
      → (r.1 ≡ none → IsSetUp p r.0)
      → ((x : DaemonError) → r.1 ≡ some x → IsEnvError x)
      → r.0.removals ≡ w.removals
      → r.0.commands ≡ w.commands
      → Meets p b w (behind_env p b r)
  unfolding behind_env
  behind_env-Meets (v, some x) set bad clean cs = nothing (bad x refl) cs
  behind_env-Meets (v, none) set bad clean cs =
      elim b.launches
        as (λ l. Meets p b w (
          if l
          then behind_socket b (wait_for_socket b.socket) (launched_in v)
          else (launched_in v, failed not_launched))) [
            | true ↦
                behind_socket-Meets (wait_for_socket b.socket) _ refl
                  record {
                    home_is = (set refl).home_is;
                    runtime_is = (set refl).runtime_is;
                    server_is = (set refl).server_is;
                  }
                  (ap (λ l. l ++ stale_files p) clean) (ap (λ l. l ++ launch_command ∷ []) cs)
            | false ↦ launched (ap (λ l. l ++ launch_command ∷ []) cs)
          ]

-- A start is one of three. It succeeded: the variables are set, the files of an earlier daemon were
-- removed if they could be, the launch came first, then at most five listings, the last of which
-- lists the sink, then the choice of the default sink. It failed, in the ways of Leaves: nothing was
-- run, or the launch alone, or the daemon was asked to exit as the last command. It waits, and then
-- the timer of the socket did not fire.
pub start_daemon-Meets :
    (p : PulseAudio) (b : Bringup) (w : World) → Meets p b w (start_daemon p b w)
unfolding start_daemon
start_daemon-Meets p b w =
    behind_env-Meets p b w (setup_env p b.surroundings w) (setup_env-IsSetUp p b.surroundings w)
      (setup_env-IsEnvError p b.surroundings w) (setup_env_removals p b.surroundings w)
      (setup_env_commands p b.surroundings w)
