-- ===== src/Server/Healthz.antt =====
-- internal/server/healthz.go: what /healthz writes, and the bodies of the errors of /stream.
use teddycloud_spotify_radio.Base.{
  ℕ, [], ◌∷◌, ◌++◌, Option, none, some, ◌≡◌, refl, ap, ◌∙◌, arith, behind, Text, codes, ◌==◌,
  if◌then◌else◌,
}
use teddycloud_spotify_radio.Json.{read_string}
use teddycloud_spotify_radio.Json.Encode.{quote, read_string-quote}
use teddycloud_spotify_radio.Server.{Server, handle_healthz}

-- `json.NewEncoder(w).Encode(healthError{...})`: the object, and a line break.
unfoldable pub health_error : Text → Text
unfolding quote
health_error reason = codes "{\"error\":" ++ (quote reason ++ codes "}\n")

response_for : Text → ℕ × Text
unfolding health_error
response_for [] = (200, codes "ok\n")
response_for (c ∷ cs) = (503, health_error (c ∷ cs))

-- `handleHealthz`: the status and the body.
unfoldable pub respond : Server → ℕ × Text
unfolding response_for
respond s = response_for s.unhealthy_reason

-- The body of an error of /stream.
unfoldable pub stream_error : ℕ → Text
unfolding health_error
stream_error status =
    if status == 400
    then health_error (codes "invalid spotify_uri")
    else health_error (codes "pulseaudio_not_ready")

-- A list without its last two elements.
front : Text → Text
front [] = []
front (a ∷ []) = []
front (a ∷ b ∷ []) = []
front (a ∷ b ∷ c ∷ cs) = a ∷ front (b ∷ c ∷ cs)

front-append : (t : Text) (a b : ℕ) → front (t ++ a ∷ b ∷ []) ≡ t
unfolding front
front-append [] a b = refl
front-append (x ∷ []) a b = refl
front-append (x ∷ y ∷ []) a b = refl
front-append (x ∷ y ∷ z ∷ t) a b = ap (◌∷◌ x) (front-append (y ∷ z ∷ t) a b)

or_nothing : Option Text → Text
or_nothing none = []
or_nothing (some t) = t

-- The reason that a client reads from a response: none from an "ok", or the string in the object.
unfoldable pub reason_in : ℕ × Text → Text
unfolding front or_nothing
reason_in (status, body) =
    if status == 200
    then []
    else or_nothing (read_string (front (behind body (codes "{\"error\":"))))

read_error : (t : Text) → read_string (front (quote t ++ codes "}\n")) ≡ some t
read_error t = ap read_string (front-append (quote t) b'}' b'\n') ∙ read_string-quote t

response_for-reason_in : (t : Text) → reason_in (response_for t) ≡ t
unfolding response_for reason_in health_error or_nothing
response_for-reason_in [] = refl
response_for-reason_in (c ∷ cs) = ap or_nothing (read_error (c ∷ cs))

-- The reason is read as it was, whatever characters it has.
pub respond-reason_in : (s : Server) → reason_in (respond s) ≡ s.unhealthy_reason
unfolding respond
respond-reason_in s = response_for-reason_in s.unhealthy_reason

pub respond-handle_healthz : (s : Server) → (respond s).0 ≡ handle_healthz s
unfolding respond handle_healthz response_for
respond-handle_healthz s = ground arith
