-- ===== src/Soloist/Commands.antt =====
-- The listener's commands on a connector.
use teddycloud_spotify_radio.Base.{none, ◌≡◌, refl, List, Text}
use teddycloud_spotify_radio.Sse.Dispatch.{Frame, read_lines}
use teddycloud_spotify_radio.Sse.Dispatch.Keeps.{Keeps, read_lines-keeps}
use teddycloud_spotify_radio.Soloist.Connector.{
  WebSocket, Connector, connector, play, pause, skip_next, skip_prev, write,
}

module _ {C W : Type 0} (ws : WebSocket C W) where
  detached-Keeps : (c : Connector C) → c.conn ≡ none → Keeps (connector ws) (λ c'. c' ≡ c)
  unfolding play pause skip_next skip_prev write
  detached-Keeps c e = record {
    by_play = λ c' h. rw h (rw (e, write));
    by_pause = λ c' h. rw h (rw e);
    by_next = λ c' h. rw h (rw e);
    by_prev = λ c' h. rw h (rw e);
  }

  -- While no connection is attached, every line of the event stream leaves the connector as it is.
  pub read_lines-detached :
      (ls : List Text) (f : Frame) (c : Connector C)
      → c.conn ≡ none
      → (read_lines (connector ws) (f, c) ls).1 ≡ c
  read_lines-detached ls f c e =
      read_lines-keeps (connector ws) (λ c'. c' ≡ c) (detached-Keeps c e) ls (f, c) refl
