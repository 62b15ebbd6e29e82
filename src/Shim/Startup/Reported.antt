-- ===== src/Shim/Startup/Reported.antt =====
-- What a client of /healthz reads behind the reports of the parts.
use teddycloud_spotify_radio.Base.{ℕ, List, [], ◌∷◌, ◌++◌, ◌≡◌, refl, ◌∙◌, Text}
use teddycloud_spotify_radio.Server.{Server, set_unhealthy, handle_healthz}
use teddycloud_spotify_radio.Server.Healthz.{
  respond, reason_in, respond-reason_in, respond-handle_healthz,
}
use teddycloud_spotify_radio.Shim.Startup.{reported}

-- The last report is the one that stands.
reported-last :
    (s : Server) (rs : List Text) (r : Text) → (reported s (rs ++ r ∷ [])).unhealthy_reason ≡ r
unfolding reported set_unhealthy
reported-last s [] r = refl
reported-last s (q ∷ qs) r = reported-last (set_unhealthy s q) qs r

abbrev pub status_of : Text → ℕ
status_of [] = 200
status_of (c ∷ cs) = 503

status-of_reason : (s : Server) (r : Text) → s.unhealthy_reason ≡ r → handle_healthz s ≡ status_of r
unfolding handle_healthz
status-of_reason s [] e = rw e refl
status-of_reason s (c ∷ cs) e = rw e refl

-- Whatever was reported before, a client that reads /healthz finds the last report: the status is 200
-- if that is empty and 503 otherwise, and the reason in the body is the one that was reported, whatever
-- characters it has.
pub reported-respond :
    (s : Server) (rs : List Text) (r : Text)
    → (reason_in (respond (reported s (rs ++ r ∷ []))) ≡ r)
      × ((respond (reported s (rs ++ r ∷ []))).0 ≡ status_of r)
reported-respond s rs r =
    let after = reported s (rs ++ r ∷ []) in
    (
      respond-reason_in after ∙ reported-last s rs r,
      respond-handle_healthz after ∙ status-of_reason after r (reported-last s rs r),
    )
