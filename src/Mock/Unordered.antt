-- ===== src/Mock/Unordered.antt =====
-- The hub keeps its subscribers in a Go map, whose order is not fixed: what does not depend on it.
use mathlib.Core.Quot
use mathlib.Core.Quot.{Quot, Quot-set}
use mathlib.Core.Option
use teddycloud_spotify_radio.Base.{
  ℕ, List, [], ◌∷◌, ◌++◌, Option, none, some, is_some, ◌≡◌, refl, sym, ap, subst, ◌∙◌, arith, Text,
  codes, ◌==◌, if◌then◌else◌, inl, inr, ◌↔◌, ◌⊎◌,
}
use teddycloud_spotify_radio.Mock.Delivery.{queue_of-broadcast}
use teddycloud_spotify_radio.Mock.{
  Event, Client, Hub, is_member, subscribe, remove, unsubscribe, offer, broadcast, broadcast_all,
  events_of, trigger, handle_event, Wake, done, keep_alive, received, queue_of, set_queue,
  take_event, serve, sse_frame,
}

-- The same identity, and under each channel the same events or none.
abbrev pub SameHub : Hub → Hub → Type 0
SameHub h k = (h.uid ≡ k.uid) × ((id : ℕ) → queue_of id h.clients ≡ queue_of id k.clients)

-- A hub without the order of its subscribers.
abbrev pub View : Type 0
View = Quot SameHub

abbrev pub view_of : Hub → View
view_of = Quot.mk

queue_of-remove :
    (q id : ℕ) (cs : List Client)
    → queue_of q (remove id cs) ≡ (if q == id then none else queue_of q cs)
unfolding queue_of remove
queue_of-remove q id [] = ground arith
queue_of-remove q id (c ∷ cs) = ground (arith, queue_of-remove q id cs)

replaced : List Event → Option (List Event) → Option (List Event)
replaced new none = none
replaced new (some q) = some new

queue_of-set_queue :
    (q id : ℕ) (new : List Event) (cs : List Client)
    → queue_of q (set_queue id new cs)
      ≡ (if q == id then replaced new (queue_of q cs) else queue_of q cs)
unfolding queue_of set_queue replaced
queue_of-set_queue q id new [] = ground arith
queue_of-set_queue q id new (c ∷ cs) = ground (arith, queue_of-set_queue q id new cs)

is_member-queue_of : (id : ℕ) (cs : List Client) → is_member id cs ≡ is_some (queue_of id cs)
unfolding queue_of is_member
is_member-queue_of id [] = refl
is_member-queue_of id (c ∷ cs) = ground (arith, is_member-queue_of id cs)

-- A call of the hub: a subscriber comes or goes, an action is posted, or the loop of a subscriber
-- runs.
pub data Call : Type 0 where
  subscribes unsubscribes : ℕ → Call
  posts : Text → Call
  serves : ℕ → List Wake → Call

-- The hub behind a call, and the status or the text that is sent for it.
unfoldable pub call : Hub → Call → Hub × (ℕ ⊎ Text)
unfolding subscribe unsubscribe handle_event serve
call h (subscribes id) = (subscribe h id, inr [])
call h (unsubscribes id) = (unsubscribe h id, inr [])
call h (posts action) = let (h', status) = handle_event h action in (h', inl status)
call h (serves id ws) = let (h', written) = serve h id [] ws in (h', inr written)

unfoldable pub calls : Hub → List Call → Hub × List (ℕ ⊎ Text)
unfolding call
calls h [] = (h, [])
calls h (c ∷ cs) = let (h', sent) = call h c in let (h'', rest) = calls h' cs in (h'', sent ∷ rest)

subscribe-SameHub : (h k : Hub) (id : ℕ) → SameHub h k → SameHub (subscribe h id) (subscribe k id)
unfolding subscribe
subscribe-SameHub h k id (uid, same) =
    let member : is_member id h.clients ≡ is_member id k.clients =
      is_member-queue_of id h.clients
      ∙ ap is_some (same id)
      ∙ sym (is_member-queue_of id k.clients) in
    (ground (arith, member), λ q. (let s = same q in unfold queue_of in ground (arith, member, s)))

unsubscribe-SameHub :
    (h k : Hub) (id : ℕ) → SameHub h k → SameHub (unsubscribe h id) (unsubscribe k id)
unfolding unsubscribe
unsubscribe-SameHub h k id (uid, same) = (
  uid,
  λ q.
      queue_of-remove q id h.clients
      ∙ ap (λ o. if q == id then none else o) (same q)
      ∙ sym (queue_of-remove q id k.clients),
)

broadcast-SameHub : (h k : Hub) (e : Event) → SameHub h k → SameHub (broadcast h e) (broadcast k e)
unfolding broadcast
broadcast-SameHub h k e (uid, same) = (
  uid,
  λ q.
      queue_of-broadcast h q e
      ∙ ap (Option.map (offer e)) (same q)
      ∙ sym (queue_of-broadcast k q e),
)

broadcast_all-SameHub :
    (es : List Event) (h k : Hub) → SameHub h k → SameHub (broadcast_all h es) (broadcast_all k es)
unfolding broadcast_all
broadcast_all-SameHub [] h k s = s
broadcast_all-SameHub (e ∷ es) h k s =
    broadcast_all-SameHub es (broadcast h e) (broadcast k e) (broadcast-SameHub h k e s)

-- The two hubs stay the same, and the same was sent.
abbrev pub Agree : {A : Type 0} → Hub × A → Hub × A → Type 0
Agree p q = SameHub p.0 q.0 × (p.1 ≡ q.1)

trigger-SameHub :
    (h k : Hub) (action : Text) → SameHub h k → SameHub (trigger h action) (trigger k action)
unfolding trigger
trigger-SameHub h k action s =
    subst (λ uid. SameHub (broadcast_all h (events_of uid action)) (trigger k action)) (sym s.0)
      (broadcast_all-SameHub (events_of k.uid action) h k s)

handle_event-Agree :
    (h k : Hub) (action : Text)
    → SameHub h k
    → Agree (handle_event h action) (handle_event k action)
unfolding handle_event
handle_event-Agree h k [] s = (s, refl)
handle_event-Agree h k (c ∷ cs) s = (trigger-SameHub h k (c ∷ cs) s, refl)

take_event-Agree :
    (h k : Hub) (id : ℕ) (o : Option (List Event))
    → SameHub h k
    → Agree (take_event h id o) (take_event k id o)
unfolding take_event
take_event-Agree h k id none s = (s, refl)
take_event-Agree h k id (some []) s = (s, refl)
take_event-Agree h k id (some (e ∷ es)) (uid, same) = (
  (
    uid,
    λ q.
        queue_of-set_queue q id es h.clients
        ∙ ap (λ o. if q == id then replaced es o else o) (same q)
        ∙ sym (queue_of-set_queue q id es k.clients),
  ),
  refl,
)

serve-Agree :
    (ws : List Wake) (h k : Hub) (id : ℕ) (out : Text)
    → SameHub h k
    → Agree (serve h id out ws) (serve k id out ws)
unfolding serve
serve-Agree [] h k id out s = (s, refl)
serve-Agree (done ∷ ws) h k id out s = (s, refl)
serve-Agree (keep_alive ∷ ws) h k id out s =
    serve-Agree ws h k id (out ++ sse_frame (codes "keep-alive") []) s
serve-Agree (received ∷ ws) h k id out s =
    let taken : Agree (take_event h id (queue_of id h.clients))
        (take_event k id (queue_of id k.clients)) =
      subst (λ o. Agree (take_event h id (queue_of id h.clients)) (take_event k id o)) (s.1 id)
        (take_event-Agree h k id (queue_of id h.clients) s) in
    let (h', written) = take_event h id (queue_of id h.clients) in
    subst
      (λ w.
        Agree (serve h' id (out ++ written) ws)
          (serve (take_event k id (queue_of id k.clients)).0 id (out ++ w) ws))
      taken.1 (serve-Agree ws h' _ id (out ++ written) taken.0)

call-Agree : (h k : Hub) (c : Call) → SameHub h k → Agree (call h c) (call k c)
unfolding call
call-Agree h k (subscribes id) s = (subscribe-SameHub h k id s, refl)
call-Agree h k (unsubscribes id) s = (unsubscribe-SameHub h k id s, refl)
call-Agree h k (posts action) s = let a = handle_event-Agree h k action s in (a.0, ap inl a.1)
call-Agree h k (serves id ws) s = let a = serve-Agree ws h k id [] s in (a.0, ap inr a.1)

pub calls-Agree : (cs : List Call) (h k : Hub) → SameHub h k → Agree (calls h cs) (calls k cs)
unfolding calls
calls-Agree [] h k s = (s, refl)
calls-Agree (c ∷ cs) h k s =
    let a = call-Agree h k c s in
    let b = calls-Agree cs (call h c).0 (call k c).0 a.0 in
    (b.0, ap (λ x. x ∷ (calls (call h c).0 cs).1) a.1 ∙ ap (λ xs. (call k c).1 ∷ xs) b.1)

-- The calls on a hub without an order.
abbrev pub calls_on : List Call → View → View × List (ℕ ⊎ Text)
calls_on cs =
    Quot.lift (hlevel Quot-set) (λ h. let (h', sent) = calls h cs in (view_of h', sent))
      λ h k s. (λ i. (Quot.sound (calls-Agree cs h k s).0 i, (calls-Agree cs h k s).1 i))

-- In whatever order the hub keeps its subscribers, the calls send the same, and leave the same hub but
-- for that order.
pub calls-view_of :
    (cs : List Call) (h k : Hub)
    → view_of h ≡ view_of k
    → ((calls h cs).1 ≡ (calls k cs).1) × (view_of (calls h cs).0 ≡ view_of (calls k cs).0)
calls-view_of cs h k e = (ap (λ v. (calls_on cs v).1) e, ap (λ v. (calls_on cs v).0) e)

-- What waits in a channel, and the identity, are there without the order.
queue_in : ℕ → View → Option (List Event)
queue_in id = Quot.lift (hlevel) (λ h. queue_of id h.clients) λ h k s. s.1 id

uid_in : View → Text
uid_in = Quot.lift (hlevel) (λ h. h.uid) λ h k s. s.0

-- The view forgets the order of the subscribers and nothing else.
pub view_of-exact : (h k : Hub) → (view_of h ≡ view_of k) ↔ SameHub h k
unfolding queue_in uid_in
view_of-exact h k = (λ e. (ap uid_in e, λ id. ap (queue_in id) e), λ s. Quot.sound s)
