-- ===== src/Mock/Delivery.antt =====
-- What reaches a subscriber of the mock server, and what the listener of the shim does with it.
use mathlib.Core.Option
use teddycloud_spotify_radio.Base.{
  ℕ, zero, suc, ◌+◌, ◌≤◌, ◌<◌, List, [], ◌∷◌, ◌++◌, map, some, ◌≡◌, refl, sym, ap, ◌∙◌, append-nil,
  append_assoc, arith, ◌==◌, length, length-append, Bool-cases, inl, inr, Text,
}
use teddycloud_spotify_radio.Mock.{
  Event, Client, Hub, channel_len, offer, offer_to, broadcast, broadcast_all, sse_frame, Wake,
  received, queue_of, set_queue, take_event, serve,
}

queue_of-map :
    (id : ℕ) (e : Event) (cs : List Client)
    → queue_of id (map (offer_to e) cs) ≡ Option.map (offer e) (queue_of id cs)
unfolding queue_of offer_to
queue_of-map id e [] = refl
queue_of-map id e (c ∷ cs) = ground (arith, queue_of-map id e cs)

-- A broadcast offers the event to the channel of each client by itself: what is in the channel
-- behind it depends on what was in that channel alone.
pub queue_of-broadcast :
    (h : Hub) (id : ℕ) (e : Event)
    → queue_of id (broadcast h e).clients ≡ Option.map (offer e) (queue_of id h.clients)
unfolding broadcast
queue_of-broadcast h id e = queue_of-map id e h.clients

queue_of-set_queue :
    (id : ℕ) (q q' : List Event) (cs : List Client)
    → queue_of id cs ≡ some q
    → queue_of id (set_queue id q' cs) ≡ some q'
unfolding queue_of set_queue
queue_of-set_queue id q q' [] h = cc
queue_of-set_queue id q q' (c ∷ cs) h = elim (Bool-cases (c.id == id)) [
  | inl t ↦ rw (t, set_queue) (rw (t, queue_of))
  | inr f ↦
      rw (f, set_queue) (rw (f, queue_of) (queue_of-set_queue id q q' cs (rw (f, queue_of) at h)))
]

abbrev pub replicate : ℕ → Wake → List Wake
replicate zero w = []
replicate (suc n) w = w ∷ replicate n w

abbrev pub frames : List Event → Text
frames [] = []
frames (e ∷ es) = sse_frame e.name e.value ++ frames es

pub serve-received :
    (q : List Event) (h : Hub) (id : ℕ) (out : Text)
    → queue_of id h.clients ≡ some q
    → (serve h id out (replicate (length q) received)).1 ≡ out ++ frames q
unfolding serve
serve-received [] h id out e = sym (append-nil out)
serve-received (x ∷ q) h id out e =
    rw (e, serve, take_event)
      (serve-received q (record h { clients = set_queue id q h.clients }) id
          (out ++ sse_frame x.name x.value) (queue_of-set_queue id (x ∷ q) q h.clients e)
        ∙ append_assoc out (sse_frame x.name x.value) (frames q))

offer_room : (e : Event) (q : List Event) → length q < channel_len → offer e q ≡ q ++ e ∷ []
unfolding offer
offer_room e q h = ground arith

pub queue_of-broadcast_all :
    (es : List Event) (h : Hub) (id : ℕ) (q : List Event)
    → queue_of id h.clients ≡ some q
    → length q + length es ≤ channel_len
    → queue_of id (broadcast_all h es).clients ≡ some (q ++ es)
unfolding broadcast_all
queue_of-broadcast_all [] h id q e fits = rw append-nil e
queue_of-broadcast_all (x ∷ es) h id q e fits =
    queue_of-broadcast_all es (broadcast h x) id (q ++ x ∷ [])
      (queue_of-broadcast h id x ∙ rw e (ap some (offer_room x q (omega arith))))
      (omega (arith, length-append q (x ∷ [])))
    ∙ ap some (append_assoc q (x ∷ []) es)
