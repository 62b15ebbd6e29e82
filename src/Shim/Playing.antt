-- ===== src/Shim/Playing.antt =====
-- internal/server/stream.go with soloist.CommandConnector.Play as its `play`: what a request to /stream
-- does to the server and to the connection with Soloist.
use teddycloud_spotify_radio.Base.{
  ℕ, suc, Bool, true, false, ◌∷◌, ◌++◌, Option, none, some, ◌≡◌, refl, ap, ◌∙◌, arith, Text, codes,
}
use teddycloud_spotify_radio.Server.Uri.{valid_uri}
use teddycloud_spotify_radio.Server.Uri.Sent.{play_json-valid_uri}
use teddycloud_spotify_radio.Server.{Server, connect}
use teddycloud_spotify_radio.Server.Admission.{
  connect-next, connect-refused, connect-unavailable, connect-admitted,
}
use teddycloud_spotify_radio.Soloist.Connector.{WebSocket, Connector, play, play_json, write}

module _ {C W : Type 0} (ws : WebSocket C W) where
  -- The connector behind the answer: only a request that is let in is played, and the error of that
  -- is only logged.
  play_for : Option ℕ → Text → Connector C → Connector C
  unfolding play
  play_for (some status) uri c = c
  play_for none uri c = (play ws uri c).0

  -- `handleStream` up to its first write, on the server and the connector.
  unfoldable pub handle_stream :
      Server → Connector C → Bool → Text → Server × Connector C × Option ℕ
  unfolding play_for connect
  handle_stream s c has_source uri =
      let (s', status) = connect s has_source true uri in (s', play_for status uri c, status)

  -- A message goes out on the connection, if there is one.
  abbrev pub sent : Option C → Text → Option C
  sent none message = none
  sent (some conn) message = some (ws.write_message conn message).0

  -- The play command of a URI, whose characters need no escape.
  abbrev pub command_of : Text → Text
  command_of uri =
      codes "{\"type\":\"command\",\"command\":\"play\",\"uri\":" ++ (b'"' ∷ (uri ++ codes "\"}"))

  -- What a request comes to, from the validity of its URI and whether there is a source.
  abbrev pub Answers :
      Bool → Bool → Server → Connector C → Text → Server × Connector C × Option ℕ → Type 0
  Answers false has_source s c uri r = r ≡ (s, c, some 400)
  Answers true false s c uri r = r ≡ (s, c, some 503)
  Answers true true s c uri (s', c', status) =
      (status ≡ none) × (s'.requests ≡ suc s.requests) × (c'.conn ≡ sent c.conn (command_of uri))

  pub written : (c : Connector C) (raw : Text) → (write ws c raw).0.conn ≡ sent c.conn raw
  unfolding write
  written c raw = ground arith

  handled :
      (valid has_source : Bool) (s : Server) (c : Connector C) (uri : Text)
      → valid_uri uri ≡ valid
      → Answers valid has_source s c uri (handle_stream s c has_source uri)
  unfolding handle_stream play_for play
  handled false has_source s c uri e = rw (connect-refused s has_source true uri e) refl
  handled true false s c uri e = rw (connect-unavailable s true uri e) refl
  handled true true s c uri e = (
    connect-admitted s true uri e,
    (connect-next s uri e).0,
    ap (λ status. (play_for status uri c).conn) (connect-admitted s true uri e)
        ∙ written c (play_json uri)
        ∙ ap (sent c.conn) (play_json-valid_uri uri e),
  )

  -- A request with a bad URI changes nothing and is answered 400; without a source it changes nothing
  -- and is answered 503; any other is let in as the next one, and the one message that goes out, if
  -- Soloist is connected, is the play command with its URI as it came, whatever becomes of the message.
  pub handle_stream-Answers :
      (s : Server) (c : Connector C) (has_source : Bool) (uri : Text)
      → Answers (valid_uri uri) has_source s c uri (handle_stream s c has_source uri)
  handle_stream-Answers s c has_source uri = handled (valid_uri uri) has_source s c uri refl
