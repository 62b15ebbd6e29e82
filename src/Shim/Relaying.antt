-- ===== src/Shim/Relaying.antt =====
-- The mock server, the listener and the connector together: what an action on the control page sends to
-- Soloist.
use teddycloud_spotify_radio.Base.{
  ℕ, ◌<◌, Bool, true, false, [], Option, none, some, if◌then◌else◌, ◌≡◌, refl, ap, ◌∙◌, length,
  Text, codes, text_eq,
}
use teddycloud_spotify_radio.Json.Member.{IsPlain}
use teddycloud_spotify_radio.Json.Encode.{quote}
use teddycloud_spotify_radio.Sse.Dispatch.{no_frame}
use teddycloud_spotify_radio.Sse.Frames.{listen}
use teddycloud_spotify_radio.Sse.Lines.{size}
use teddycloud_spotify_radio.Mock.{Hub, trigger, events_of, queue_of, serve, received}
use teddycloud_spotify_radio.Mock.Delivery.{replicate}
use teddycloud_spotify_radio.Mock.Listening.{intended, listen-trigger}
use teddycloud_spotify_radio.Soloist.Connector.{
  WebSocket, Connector, connector, play, pause, skip_next, skip_prev, play_json,
}
use teddycloud_spotify_radio.Shim.Playing.{sent, written}

abbrev play_message : Text
play_message = codes "{\"type\":\"command\",\"command\":\"play\",\"uri\":\"\"}"

abbrev pause_message : Text
pause_message = codes "{\"type\":\"command\",\"command\":\"pause\"}"

abbrev next_message : Text
next_message = codes "{\"type\":\"command\",\"command\":\"skip_next\"}"

abbrev prev_message : Text
prev_message = codes "{\"type\":\"command\",\"command\":\"skip_prev\"}"

-- The message that an action is meant to send, if any, by the tests of its name.
choose : Bool → Bool → Bool → Bool → Bool → Bool → Bool → Option Text
choose true _ _ _ _ _ _ = some play_message
choose false true _ _ _ _ _ = some pause_message
choose false false true _ _ _ _ = none
choose false false false true _ _ _ = none
choose false false false false true _ _ = none
choose false false false false false true _ = some next_message
choose false false false false false false true = some prev_message
choose false false false false false false false = none

unfoldable pub message_of : Text → Option Text
unfolding choose text_eq
message_of action =
    choose (text_eq action (codes "figurine-placed")) (text_eq action (codes "figurine-lifted"))
      (text_eq action (codes "ear-big")) (text_eq action (codes "ear-small"))
      (text_eq action (codes "ear-small-double")) (text_eq action (codes "knock-forward"))
      (text_eq action (codes "knock-backward"))

module _ {C W : Type 0} (ws : WebSocket C W) where
  -- The message on the connection, if there are both.
  abbrev pub relayed : Option Text → Connector C → Connector C
  relayed none c = c
  relayed (some message) c = record { conn = sent ws c.conn message }

  -- A command writes its message.
  Relays : (Connector C → Connector C) → Text → Type 0
  Relays f message = (c : Connector C) → f c ≡ relayed (some message) c

  play-Relays : Relays (λ c. (play ws [] c).0) play_message
  unfolding Relays play play_json quote
  play-Relays c = ap (λ (o : Option C). record { conn = o }) (written ws c _)

  pause-Relays : Relays (λ c. (pause ws c).0) pause_message
  unfolding Relays pause quote
  pause-Relays c = ap (λ (o : Option C). record { conn = o }) (written ws c _)

  skip_next-Relays : Relays (λ c. (skip_next ws c).0) next_message
  unfolding Relays skip_next quote
  skip_next-Relays c = ap (λ (o : Option C). record { conn = o }) (written ws c _)

  skip_prev-Relays : Relays (λ c. (skip_prev ws c).0) prev_message
  unfolding Relays skip_prev quote
  skip_prev-Relays c = ap (λ (o : Option C). record { conn = o }) (written ws c _)

  chosen-relayed :
      (placed lifted big small double forward backward : Bool) (c : Connector C)
      → (if placed
          then (play ws [] c).0
          else if lifted
          then (pause ws c).0
          else if big
          then c
          else if small
          then c
          else if double
          then c
          else if forward
          then (skip_next ws c).0
          else if backward
          then (skip_prev ws c).0
          else c)
        ≡ relayed (choose placed lifted big small double forward backward) c
  unfolding choose Relays
  chosen-relayed true _ _ _ _ _ _ c = play-Relays c
  chosen-relayed false true _ _ _ _ _ c = pause-Relays c
  chosen-relayed false false true _ _ _ _ c = refl
  chosen-relayed false false false true _ _ _ c = refl
  chosen-relayed false false false false true _ _ c = refl
  chosen-relayed false false false false false true _ c = skip_next-Relays c
  chosen-relayed false false false false false false true c = skip_prev-Relays c
  chosen-relayed false false false false false false false c = refl

  -- After an action on the control page, what the mock server writes to a subscriber whose channel was
  -- empty makes the listener send one message on the connection with Soloist, if there is one: play
  -- for a figurine that is placed, pause for one that is lifted, the next or the previous track for a
  -- knock; and none for the ears and for any other action. The identity of the tonie must be plain
  -- text that fits a line.
  pub listen-relayed :
      (h : Hub) (id : ℕ) (action : Text) (c : Connector C)
      → queue_of id h.clients ≡ some []
      → IsPlain h.uid
      → size h.uid < 60000
      → listen
          (connector ws)
          c
          (serve (trigger h action) id [] (replicate (length (events_of h.uid action)) received)).1
        ≡ (no_frame, relayed (message_of action) c)
  unfolding intended message_of choose
  listen-relayed h id action c q plain fits =
      listen-trigger (connector ws) h id action c q plain fits
      ∙ ap (λ s. (no_frame, s))
          (chosen-relayed (text_eq action (codes "figurine-placed"))
            (text_eq action (codes "figurine-lifted")) (text_eq action (codes "ear-big"))
            (text_eq action (codes "ear-small")) (text_eq action (codes "ear-small-double"))
            (text_eq action (codes "knock-forward")) (text_eq action (codes "knock-backward")) c)
