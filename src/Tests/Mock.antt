-- ===== src/Tests/Mock.antt =====
-- The mock server and the listener together, on a tonie's identity.
use teddycloud_spotify_radio.Base.{List, [], ◌∷◌, ◌≡◌, refl, arith, length, Text, codes, text_eq}
use mathlib.Core.Quot
use teddycloud_spotify_radio.Mock.{done}
use teddycloud_spotify_radio.Mock.Unordered.{
  SameHub, view_of, Call, posts, serves, subscribes, unsubscribes, calls, calls-view_of,
}
use teddycloud_spotify_radio.Sse.Dispatch.{no_frame}
use teddycloud_spotify_radio.Sse.Frames.{listen}
use teddycloud_spotify_radio.Mock.{
  Hub, new_hub, subscribe, queue_of, received, serve, trigger, events_of,
}
use teddycloud_spotify_radio.Mock.Delivery.{replicate}
use teddycloud_spotify_radio.Mock.Listening.{intended}
use teddycloud_spotify_radio.Tests.Sinks.{recorder, socket}
use teddycloud_spotify_radio.Soloist.Connector.{Connector, connector}
use teddycloud_spotify_radio.Shim.Relaying.{relayed, message_of, listen-relayed}
use teddycloud_spotify_radio.Base.{some}

abbrev uid : Text
uid = codes "E00403"

abbrev hub : Hub
hub = subscribe (subscribe (new_hub uid) 1) 2

-- Soloist is connected.
abbrev attached : Connector (List Text)
attached = record { conn = some [] }

listen-relayed_example :
    listen
      (connector socket)
      attached
      (serve
        (trigger hub (codes "figurine-placed"))
        1
        []
        (replicate (length (events_of hub.uid (codes "figurine-placed"))) received)).1
    ≡ (no_frame, relayed socket (message_of (codes "figurine-placed")) attached)
listen-relayed_example =
    listen-relayed socket hub 1 (codes "figurine-placed") attached
      (unfold subscribe new_hub queue_of in refl)
      (unfold subscribe new_hub in (refl, (refl, (refl, (refl, (refl, (refl, tt)))))))
      (unfold subscribe new_hub in omega arith)

knock_is_relayed :
    relayed socket (message_of (codes "knock-forward")) attached
    ≡ record { conn = some (codes "{\"type\":\"command\",\"command\":\"skip_next\"}" ∷ []) }
unfolding message_of text_eq
knock_is_relayed = refl

placed_plays : intended recorder (codes "figurine-placed") [] ≡ codes "play" ∷ []
unfolding intended text_eq
placed_plays = refl

-- The two subscribers in the other order.
abbrev other_hub : Hub
other_hub = subscribe (subscribe (new_hub uid) 2) 1

hub-SameHub : SameHub hub other_hub
unfolding subscribe new_hub queue_of
hub-SameHub = (refl, λ id. ground arith)

abbrev script : List Call
script =
    posts (codes "knock-forward")
    ∷ serves 2 (received ∷ done ∷ [])
    ∷ unsubscribes 2
    ∷ subscribes 3
    ∷ posts (codes "figurine-lifted")
    ∷ []

calls-view_of_example :
    ((calls hub script).1 ≡ (calls other_hub script).1)
    × (view_of (calls hub script).0 ≡ view_of (calls other_hub script).0)
calls-view_of_example = calls-view_of script hub other_hub (Quot.sound hub-SameHub)
