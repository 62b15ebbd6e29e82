-- ===== src/Pulse/Daemon/Looked.antt =====
-- The rounds of `waitSinkReady`.
use teddycloud_spotify_radio.Base.{
  ℕ, zero, suc, ◌+◌, ◌<◌, List, [], ◌∷◌, ◌++◌, Option, none, some, ◌≡◌, ◌⊎◌, inl, inr, refl, sym,
  ap, subst, ◌∙◌, arith, Text, append_assoc, append-nil, Option-cases,
}
use teddycloud_spotify_radio.Pulse.Daemon.{
  World, DaemonError, pactl_failed, sink_not_found, PactlRun, pactl_out, list_command, spawn,
  listing_error, wait_sinks,
}

abbrev pub replicate : ℕ → List Text → List (List Text)
replicate zero c = []
replicate (suc n) c = c ∷ replicate n c

abbrev pub IsSinkError : DaemonError → Type 0
IsSinkError e = (e ≡ pactl_failed) ⊎ (e ≡ sink_not_found)

-- The rounds found the sink, or they were used up.
pub data Looked (left i : ℕ) (runs : ℕ → PactlRun) (w : World) (r : World × Option DaemonError)
    : Type 0 where
  found :
      (k : ℕ)
      → k < left
      → r.0 ≡ record w { commands = w.commands ++ replicate (suc k) list_command }
      → listing_error (pactl_out (runs (i + k))) ≡ none
      → r.1 ≡ none
      → Looked left i runs w r
  missed :
      (e : DaemonError)
      → IsSinkError e
      → r.0 ≡ record w { commands = w.commands ++ replicate left list_command }
      → r.1 ≡ some e
      → Looked left i runs w r

-- An error is there once a round was made.
abbrev pub HasLast : ℕ → Option DaemonError → Type 0
HasLast zero none = ⊥
HasLast zero (some e) = IsSinkError e
HasLast (suc left) last = Unit

listing_error-IsSinkError :
    (o : Option Text) (e : DaemonError) → listing_error o ≡ some e → IsSinkError e
unfolding listing_error
listing_error-IsSinkError none e h = ground arith
listing_error-IsSinkError (some out) e h = ground arith

HasLast-of : (left : ℕ) (e : DaemonError) → IsSinkError e → HasLast left (some e)
HasLast-of zero e h = h
HasLast-of (suc left) e h = tt

grown :
    (w : World) (cs ds es : List (List Text))
    → cs ++ ds ≡ es
    → record w { commands = w.commands ++ es } ≡ record w { commands = (w.commands ++ cs) ++ ds }
grown w cs ds es e =
    ap (λ l. record w { commands = l })
      (ap (λ l. w.commands ++ l) (sym e) ∙ sym (append_assoc w.commands cs ds))

later-Looked :
    (left i : ℕ) (runs : ℕ → PactlRun) (w : World) (r : World × Option DaemonError)
    → Looked left (suc i) runs (spawn list_command w) r
    → Looked (suc left) i runs w r
later-Looked left i runs w r (found k few same ok none_left) =
    found (suc k) (omega arith)
      (same ∙ sym (grown w (list_command ∷ []) (replicate (suc k) list_command) _ refl))
      (subst (λ j. listing_error (pactl_out (runs j)) ≡ none) (omega arith) ok) none_left
later-Looked left i runs w r (missed e h same error) =
    missed e h (same ∙ sym (grown w (list_command ∷ []) (replicate left list_command) _ refl)) error

pub wait_sinks-Looked :
    (left i : ℕ) (runs : ℕ → PactlRun) (last : Option DaemonError) (w : World)
    → HasLast left last
    → Looked left i runs w (wait_sinks left i runs last w)
unfolding wait_sinks
wait_sinks-Looked zero i runs none w h = absurd h
wait_sinks-Looked zero i runs (some e) w h =
    missed e h (ap (λ l. record w { commands = l }) (sym (append-nil w.commands))) refl
wait_sinks-Looked (suc left) i runs last w h =
    elim (Option-cases (listing_error (pactl_out (runs i)))) [
      | inl ok ↦
          rw (ok, wait_sinks)
            (found 0 (omega arith) refl
              (subst (λ j. listing_error (pactl_out (runs j)) ≡ none) (omega arith) ok) refl)
      | inr (e, bad) ↦
          rw (bad, wait_sinks)
            (later-Looked left i runs w _ (
              wait_sinks-Looked left (suc i) runs (some e) (spawn list_command w)
                (HasLast-of left e (listing_error-IsSinkError (pactl_out (runs i)) e bad))))
    ]
