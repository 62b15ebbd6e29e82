-- ===== src/Soloist/Connector.antt =====
-- internal/soloist/connector.go: commands are written to the WebSocket connection that is attached.
-- The connection is the package gorilla/websocket: a parameter.
use teddycloud_spotify_radio.Base.{
  ℤ, pos, negsuc, suc, decimal, ◌++◌, Option, none, some, Text, codes,
}
use teddycloud_spotify_radio.Json.Encode.{quote}
use teddycloud_spotify_radio.Sse.Dispatch.{CommandSender}

-- `conn.WriteMessage(websocket.TextMessage, raw)`: the connection after it, and an error.
pub record WebSocket (C W : Type 0) : Type 0 where
  pub write_message : C → Text → C × Option W

pub data CommandError (W : Type 0) : Type 0 where
  not_connected : CommandError W
  write_failed : W → CommandError W

pub record Connector (C : Type 0) : Type 0 where
  pub conn : Option C

-- `json.Marshal` of the command structs: the fields in their order, the strings quoted.
unfoldable pub play_json : Text → Text
unfolding quote
play_json uri =
    codes "{\"type\":\"command\",\"command\":\"play\",\"uri\":" ++ (quote uri ++ codes "}")

simple_json : Text → Text
unfolding quote
simple_json command = codes "{\"type\":\"command\",\"command\":" ++ (quote command ++ codes "}")

unfoldable pub volume_json : ℤ → Text
unfolding decimal
volume_json (pos n) =
    codes "{\"type\":\"command\",\"command\":\"set_volume\",\"volume\":" ++ (decimal n ++ codes "}")
volume_json (negsuc n) =
    codes "{\"type\":\"command\",\"command\":\"set_volume\",\"volume\":-"
    ++ (decimal (suc n) ++ codes "}")

module _ {C W : Type 0} (ws : WebSocket C W) where
  unfoldable pub attach : Connector C → C → Connector C
  attach c conn = record c { conn = some conn }

  unfoldable pub detach : Connector C → Connector C
  detach c = record c { conn = none }

  wrap_error : Option W → Option (CommandError W)
  wrap_error none = none
  wrap_error (some e) = some (write_failed e)

  write_in : Option C → Connector C → Text → Connector C × Option (CommandError W)
  unfolding wrap_error
  write_in none c raw = (c, some not_connected)
  write_in (some conn) c raw =
      let (conn', e) = ws.write_message conn raw in (record c { conn = some conn' }, wrap_error e)

  unfoldable pub write : Connector C → Text → Connector C × Option (CommandError W)
  unfolding write_in
  write c raw = write_in c.conn c raw

  unfoldable pub play : Text → Connector C → Connector C × Option (CommandError W)
  unfolding write play_json
  play uri c = write c (play_json uri)

  unfoldable pub send_simple : Text → Connector C → Connector C × Option (CommandError W)
  unfolding write simple_json
  send_simple command c = write c (simple_json command)

  unfoldable pub pause : Connector C → Connector C × Option (CommandError W)
  unfolding send_simple
  pause = send_simple (codes "pause")

  unfoldable pub skip_next : Connector C → Connector C × Option (CommandError W)
  unfolding send_simple
  skip_next = send_simple (codes "skip_next")

  unfoldable pub skip_prev : Connector C → Connector C × Option (CommandError W)
  unfolding send_simple
  skip_prev = send_simple (codes "skip_prev")

  unfoldable pub set_volume : ℤ → Connector C → Connector C × Option (CommandError W)
  unfolding write volume_json
  set_volume volume c = write c (volume_json volume)

  -- A connector is the sink that the listener takes.
  abbrev pub connector : CommandSender (Connector C) (CommandError W)
  connector = record { play = play; pause = pause; skip_next = skip_next; skip_prev = skip_prev }
