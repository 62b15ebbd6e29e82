-- ===== src/Tests/Sinks.antt =====
-- A sink that records the commands it gets, and a connection that records what is written to it.
use teddycloud_spotify_radio.Base.{Bool, List, ◌∷◌, ◌++◌, none, Text, codes, []}
use teddycloud_spotify_radio.Sse.Dispatch.{CommandSender}
use teddycloud_spotify_radio.Soloist.Connector.{WebSocket}

abbrev pub recorder : CommandSender (List Text) Bool
recorder = record {
  play = λ uri s. (s ++ codes "play" ∷ [], none);
  pause = λ s. (s ++ codes "pause" ∷ [], none);
  skip_next = λ s. (s ++ codes "skip_next" ∷ [], none);
  skip_prev = λ s. (s ++ codes "skip_prev" ∷ [], none);
}

abbrev pub socket : WebSocket (List Text) Bool
socket = record { write_message = λ c raw. (c ++ raw ∷ [], none) }
