-- ===== src/Mock.antt =====
-- cmd/mock-teddycloud/main.go: the server that stands in for Teddycloud in local tests. A channel of
-- its hub holds at most 16 events, and a full one misses an event.
pub mod Delivery
pub mod Listening
pub mod Unordered
pub mod Page
use teddycloud_spotify_radio.Base.{
  ℕ, String, Bool, true, false, List, [], ◌∷◌, ◌++◌, map, Option, none, some, ltb, ◌==◌,
  if◌then◌else◌, length, Text, codes, text_eq,
}

pub record Event : Type 0 where
  pub name : Text
  pub value : Text

-- A subscriber's channel: its identity, and the events that wait in it.
pub record Client : Type 0 where
  pub id : ℕ
  pub queue : List Event

pub record Hub : Type 0 where
  pub clients : List Client
  pub uid : Text

unfoldable pub new_hub : Text → Hub
new_hub uid = record { clients = []; uid = uid }

is_member : ℕ → List Client → Bool
is_member id [] = false
is_member id (c ∷ cs) = if c.id == id then true else is_member id cs

-- The channel is made empty just before it is entered.
unfoldable pub subscribe : Hub → ℕ → Hub
unfolding is_member
subscribe h id =
    if is_member id h.clients
    then h
    else record h { clients = record { id = id; queue = [] } ∷ h.clients }

remove : ℕ → List Client → List Client
remove id [] = []
remove id (c ∷ cs) = let rest = remove id cs in if c.id == id then rest else c ∷ rest

unfoldable pub unsubscribe : Hub → ℕ → Hub
unfolding remove
unsubscribe h id = record h { clients = remove id h.clients }

-- `make(chan event, 16)`.
abbrev pub channel_len : ℕ
channel_len = 16

-- A send that does not wait: `select` with a `default`.
unfoldable pub offer : Event → List Event → List Event
offer e queue = if ltb (length queue) channel_len then queue ++ e ∷ [] else queue

offer_to : Event → Client → Client
unfolding offer
offer_to e c = record c { queue = offer e c.queue }

unfoldable pub broadcast : Hub → Event → Hub
unfolding offer_to
broadcast h e = record h { clients = map (offer_to e) h.clients }

unfoldable pub broadcast_all : Hub → List Event → Hub
broadcast_all h [] = h
broadcast_all h (e ∷ es) = broadcast_all (broadcast h e) es

abbrev pub event : String → Text → Event
event name value = record { name = codes name; value = value }

-- The end of "figurine-placed".
abbrev pub started : List Event
started =
    event "playback" (codes "starting")
    ∷ event "playback" (codes "started")
    ∷ event "ContentAudioId" (codes "436906887")
    ∷ event "ContentTitle" (codes "Unknown")
    ∷ []

abbrev pub placed : Text → List Event
placed uid = event "TagValid" uid ∷ started

abbrev pub lifted : List Event
lifted = event "playback" (codes "stopped") ∷ []

abbrev pub big_ear : List Event
big_ear =
    event "VolumeLevel" (codes "12")
    ∷ event "VolumedB" (codes "-3")
    ∷ event "pressed" (codes "ear-big")
    ∷ []

abbrev pub small_ear : List Event
small_ear =
    event "VolumeLevel" (codes "10")
    ∷ event "VolumedB" (codes "-9")
    ∷ event "pressed" (codes "ear-small")
    ∷ []

abbrev pub small_ear_twice : List Event
small_ear_twice =
    event "VolumeLevel" (codes "9")
    ∷ event "VolumedB" (codes "-12")
    ∷ event "pressed" (codes "ear-small-double")
    ∷ []

abbrev pub knock_forward : List Event
knock_forward = event "knock" (codes "forward") ∷ []

abbrev pub knock_backward : List Event
knock_backward = event "knock" (codes "backward") ∷ []

-- The events of an action, in the order of the calls of `broadcast`; none if it is unknown.
unfoldable pub events_of : Text → Text → List Event
unfolding text_eq
events_of uid action =
    if text_eq action (codes "figurine-placed")
    then placed uid
    else if text_eq action (codes "figurine-lifted")
    then lifted
    else if text_eq action (codes "ear-big")
    then big_ear
    else if text_eq action (codes "ear-small")
    then small_ear
    else if text_eq action (codes "ear-small-double")
    then small_ear_twice
    else if text_eq action (codes "knock-forward")
    then knock_forward
    else if text_eq action (codes "knock-backward")
    then knock_backward
    else []

unfoldable pub trigger : Hub → Text → Hub
unfolding events_of broadcast_all
trigger h action = broadcast_all h (events_of h.uid action)

-- The handler of /api/event: the new hub and the status.
unfoldable pub handle_event : Hub → Text → Hub × ℕ
unfolding trigger
handle_event h [] = (h, 400)
handle_event h (c ∷ cs) = (trigger h (c ∷ cs), 204)

unfoldable pub sse_frame : Text → Text → Text
sse_frame name value =
    codes "event: "
    ++ (name
        ++ (codes "\ndata: { \"type\":\""
            ++ (name ++ (codes "\", \"data\":\"" ++ (value ++ codes "\" }\n\n")))))

-- What wakes the loop of `handleSSE`.
pub data Wake : Type 0 where
  done keep_alive received : Wake

-- The channel of a client.
unfoldable pub queue_of : ℕ → List Client → Option (List Event)
queue_of id [] = none
queue_of id (c ∷ cs) = if c.id == id then some c.queue else queue_of id cs

set_queue : ℕ → List Event → List Client → List Client
set_queue id queue [] = []
set_queue id queue (c ∷ cs) =
    if c.id == id then record c { queue = queue } ∷ cs else c ∷ set_queue id queue cs

take_event : Hub → ℕ → Option (List Event) → Hub × Text
unfolding set_queue sse_frame
take_event h id (some (e ∷ es)) =
    (record h { clients = set_queue id es h.clients }, sse_frame e.name e.value)
take_event h id _ = (h, [])

-- The loop of `handleSSE` over what wakes it: the hub and what was written to the connection. The
-- case `received` is taken only when an event waits.
unfoldable pub serve : Hub → ℕ → Text → List Wake → Hub × Text
unfolding take_event queue_of
serve h id out [] = (h, out)
serve h id out (done ∷ ws) = (h, out)
serve h id out (keep_alive ∷ ws) = serve h id (out ++ sse_frame (codes "keep-alive") []) ws
serve h id out (received ∷ ws) =
    let (h', written) = take_event h id (queue_of id h.clients) in serve h' id (out ++ written) ws
