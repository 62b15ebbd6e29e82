-- ===== src/Shim/Startup/Health.antt =====
-- What /healthz answers behind the start of all parts.
use teddycloud_spotify_radio.Base.{
  ℕ, ◌^◌, ◌≤◌, ◌<◌, true, List, [], ◌∷◌, ◌++◌, is_some, ◌≢◌, ◌≡◌, refl, ap, sym, ◌∙◌, arith, Text,
  pos,
}
use teddycloud_spotify_radio.Server.{Server, set_unhealthy, handle_healthz}
use teddycloud_spotify_radio.Soloist.Disk.{Disk}
use teddycloud_spotify_radio.Soloist.Binary.{BinaryManager, Machine, resolve}
use teddycloud_spotify_radio.Pulse.Daemon.{PulseAudio, World, start_backoff_of, max_backoff_of}
use teddycloud_spotify_radio.Pulse.Run.{State, Reach}
use teddycloud_spotify_radio.Pulse.Run.Monitor.Refining.{IsAnnouncing, Reach-IsHealthy}
use teddycloud_spotify_radio.Shim.Startup.{with_binary, start_soloist, reported}

reported-append :
    (s : Server) (rs qs : List Text) → reported s (rs ++ qs) ≡ reported (reported s rs) qs
unfolding reported
reported-append s [] qs = refl
reported-append s (r ∷ rs) qs = reported-append (set_unhealthy s r) rs qs

reported-healthy : (s : Server) (rs : List Text) → handle_healthz (reported s (rs ++ [] ∷ [])) ≡ 200
reported-healthy s rs =
    rw (reported-append s rs ([] ∷ [])) (unfold reported set_unhealthy handle_healthz in refl)

start_soloist-missing :
    (m : Machine) (b : BinaryManager) (d : Disk) (s : Server)
    → is_some (resolve m b d).error ≡ true
    → handle_healthz (start_soloist m b d s).0 ≡ 503
unfolding start_soloist with_binary set_unhealthy handle_healthz
start_soloist-missing m b d s h = ground arith

no_room : (rs : List Text) (q : Text) (qs : List Text) → rs ++ q ∷ qs ≡ [] → ⊥
no_room [] q qs e = cc
no_room (r ∷ rs) q qs e = cc

-- The last of the later reports is the last of all.
last_of_later :
    (early late before : List Text)
    → late ≢ []
    → early ++ late ≡ before ++ [] ∷ []
    → (b : List Text) × (late ≡ b ++ [] ∷ [])
last_of_later [] late before some_late e = (before, e)
last_of_later (r ∷ rs) [] before some_late e = absurd (some_late refl)
last_of_later (r ∷ rs) (q ∷ qs) [] some_late e = absurd (no_room rs q qs cc)
last_of_later (r ∷ rs) (q ∷ qs) (b ∷ bs) some_late e = last_of_later rs (q ∷ qs) bs some_late cc

-- If no Soloist binary is found, /healthz answers 503 from then on until the next report of the
-- daemon; but whatever the daemon went through, it answers 200 once the daemon is ready and has reported
-- so, although Soloist is still missing. (Some of the daemon's reports came before that, some later.)
pub missing-healthz :
    (m : Machine) (b : BinaryManager) (d : Disk) (server : Server) (early late : List Text)
    (first cap : ℕ) (p : PulseAudio) (w : World) (s : State)
    → is_some (resolve m b d).error ≡ true
    → 0 < first
    → first ≤ cap
    → cap < 2 ^ 63
    → start_backoff_of p ≡ pos first
    → max_backoff_of p ≡ pos cap
    → Reach p w s
    → s.ready ≡ true
    → (IsAnnouncing s.place → ⊥)
    → s.reports ≡ early ++ late
    → late ≢ []
    → (handle_healthz (start_soloist m b d (reported server early)).0 ≡ 503)
      × (handle_healthz (reported (start_soloist m b d (reported server early)).0 late) ≡ 200)
missing-healthz m b d server early late first cap p w s missing h0 le hm is_first is_cap r is_ready
      quiet split some_late =
    let (before, last) =
      Reach-IsHealthy first cap p w s h0 le hm is_first is_cap r is_ready quiet in
    let (rest, end) = last_of_later early late before some_late (sym split ∙ last) in
    let started = (start_soloist m b d (reported server early)).0 in
    (
      start_soloist-missing m b d (reported server early) missing,
      ap (λ rs. handle_healthz (reported started rs)) end ∙ reported-healthy started rest,
    )
