-- ===== src/Server/Swap.antt =====
-- The hot swap of `handleStream`: a new request cancels the one before.
use teddycloud_spotify_radio.Base.{
  ℕ, ◌+◌, ◌^◌, ◌≤◌, ◌<◌, Bool, true, false, List, [], ◌∷◌, Option, none, some, ◌≡◌, ◌⊎◌, inl, inr,
  refl, sym, ap, ◌∙◌, arith, ◌==◌, if◌then◌else◌, length, All, Text, Bool-cases, Option-cases,
}
use teddycloud_spotify_radio.Server.Uri.{valid_uri}
use teddycloud_spotify_radio.Server.{
  Stream, Server, Event, connects, disconnects, ends, begins, delivers, reports, word, new_server,
  enter, connect, find, begin, deliver, leave, remove, step, run, set_unhealthy, begin_if, leave_if,
  connect_if, play_if,
}
use teddycloud_spotify_radio.Server.Streams.{
  IsNumbered, IsStored, IsNewest, IsNumbered-more, cancel-IsNumbered, cancel-IsStored,
  cancel_stored-canceled, cancel_stored-IsNumbered, IsStored-of_canceled, set_active-IsNumbered,
  set_active-IsStored, remove-IsNumbered, remove-IsStored, find-IsNumbered, IsStored-of_newest,
  IsStored-kept, same_word,
}

-- What holds between two steps.
record IsSwapped (s : Server) : Type 0 where
  counted : s.stream_id ≡ word s.requests
  numbered : All (IsNumbered s.requests) s.streams
  stored : All (IsStored s.stream_cancel) s.streams
  newest : IsNewest s.stream_cancel s.requests

-- Every stream but that of the request that came last is cancelled.
pub record IsExclusive (s : Server) : Type 0 where
  pub exclusive : All (λ (t : Stream). (t.canceled ≡ true) ⊎ (t.request + 1 ≡ s.requests)) s.streams

enter-IsSwapped : (s : Server) → s.requests + 1 < 2 ^ 64 → IsSwapped s → IsSwapped (enter s)
unfolding enter
enter-IsSwapped s b h = record {
  counted = omega (arith, h.counted);
  numbered = (
    (omega arith, omega (arith, h.counted)),
    IsNumbered-more s.requests _
        (cancel_stored-IsNumbered s.requests s.stream_cancel s.streams h.numbered),
  );
  stored = (
    inr refl,
    IsStored-of_canceled _ _ (cancel_stored-canceled s.stream_cancel s.streams h.stored),
  );
  newest = inr (omega arith, ap some (omega arith));
}

leave-IsStored :
    (s : Server) (t : Stream)
    → s.requests < 2 ^ 64
    → IsSwapped s
    → IsNumbered s.requests t
    → All
        (IsStored (if s.stream_id == t.my_id then none else s.stream_cancel))
        (remove t.request s.streams)
leave-IsStored s t b h n = elim (Bool-cases (s.stream_id == t.my_id)) [
  | inl same ↦ rw same (
      IsStored-of_newest s.stream_cancel s.requests t.request _
        (same_word t.request s.requests n.0 b (sym h.counted ∙ (ground arith ∙ n.1))) h.newest
        (remove-IsStored s.stream_cancel t.request s.streams h.stored))
  | inr other ↦ rw other (
      IsStored-kept s.stream_cancel t.request _
        (remove-IsStored s.stream_cancel t.request s.streams h.stored))
]

leave_if-IsSwapped :
    (s : Server) (t : Stream)
    → s.requests < 2 ^ 64
    → IsSwapped s
    → IsNumbered s.requests t
    → IsSwapped (leave_if s (some t))
unfolding leave_if
leave_if-IsSwapped s t b h n = record {
  counted = h.counted;
  numbered = remove-IsNumbered s.requests t.request s.streams h.numbered;
  stored = leave-IsStored s t b h n;
  newest = (let newest = h.newest in ground arith);
}

leave-IsSwapped : (s : Server) (r : ℕ) → s.requests < 2 ^ 64 → IsSwapped s → IsSwapped (leave s r)
unfolding leave
leave-IsSwapped s r b h = elim (Option-cases (find r s.streams)) [
  | inl missing ↦ rw (missing, leave_if) h
  | inr (t, found) ↦
      rw found
        (leave_if-IsSwapped s t b h (find-IsNumbered s.requests r s.streams t h.numbered found))
]

begin_if-IsSwapped :
    (s : Server) (o : Option Stream) (rate : ℕ) → IsSwapped s → IsSwapped (begin_if s o rate)
unfolding begin_if
begin_if-IsSwapped s none rate h = h
begin_if-IsSwapped s (some t) rate h = elim (Bool-cases t.active) [
  | inl on ↦ rw on h
  | inr off ↦ rw off (record {
    counted = h.counted;
    numbered = set_active-IsNumbered s.requests t.request s.streams h.numbered;
    stored = set_active-IsStored s.stream_cancel t.request s.streams h.stored;
    newest = h.newest;
  })
]

played-IsSwapped :
    (s : Server) (uris : List Text) → IsSwapped s → IsSwapped (record s { played = uris })
played-IsSwapped s uris h = record {
  counted = h.counted;
  numbered = h.numbered;
  stored = h.stored;
  newest = h.newest;
}

connect-IsSwapped :
    (valid has_source has_play : Bool) (uri : Text) (s : Server)
    → s.requests + 1 < 2 ^ 64
    → IsSwapped s
    → IsSwapped (connect_if valid has_source has_play uri s).0
unfolding connect_if play_if
connect-IsSwapped false has_source has_play uri s b h = h
connect-IsSwapped true false has_play uri s b h = h
connect-IsSwapped true true false uri s b h = enter-IsSwapped s b h
connect-IsSwapped true true true uri s b h = played-IsSwapped (enter s) _ (enter-IsSwapped s b h)

connect_requests :
    (valid has_source has_play : Bool) (uri : Text) (s : Server)
    → (connect_if valid has_source has_play uri s).0.requests ≤ s.requests + 1
unfolding connect_if play_if enter
connect_requests false has_source has_play uri s = omega arith
connect_requests true false has_play uri s = omega arith
connect_requests true true false uri s = omega arith
connect_requests true true true uri s = omega arith

step-IsSwapped :
    (s : Server) (e : Event) → s.requests + 1 < 2 ^ 64 → IsSwapped s → IsSwapped (step s e)
unfolding step connect begin set_unhealthy deliver
step-IsSwapped s (connects has_source has_play uri) b h =
    connect-IsSwapped (valid_uri uri) has_source has_play uri s b h
step-IsSwapped s (disconnects r) b h = record {
  counted = h.counted;
  numbered = cancel-IsNumbered s.requests r s.streams h.numbered;
  stored = cancel-IsStored s.stream_cancel r s.streams h.stored;
  newest = h.newest;
}
step-IsSwapped s (begins r rate) b h = begin_if-IsSwapped s (find r s.streams) rate h
step-IsSwapped s (delivers r n) b h = record {
  counted = h.counted;
  numbered = h.numbered;
  stored = h.stored;
  newest = h.newest;
}
step-IsSwapped s (ends r) b h = leave-IsSwapped s r (omega arith) h
step-IsSwapped s (reports reason) b h = record {
  counted = h.counted;
  numbered = h.numbered;
  stored = h.stored;
  newest = h.newest;
}

begin_requests :
    (s : Server) (o : Option Stream) (rate : ℕ) → (begin_if s o rate).requests ≤ s.requests
unfolding begin_if
begin_requests s none rate = omega arith
begin_requests s (some t) rate = ground arith

leave_requests : (s : Server) (o : Option Stream) → (leave_if s o).requests ≤ s.requests
unfolding leave_if
leave_requests s none = omega arith
leave_requests s (some t) = omega arith

step_requests : (s : Server) (e : Event) → (step s e).requests ≤ s.requests + 1
unfolding step connect begin leave set_unhealthy deliver
step_requests s (connects has_source has_play uri) =
    connect_requests (valid_uri uri) has_source has_play uri s
step_requests s (disconnects r) = omega arith
step_requests s (begins r rate) = omega (arith, begin_requests s (find r s.streams) rate)
step_requests s (delivers r n) = omega arith
step_requests s (ends r) = omega (arith, leave_requests s (find r s.streams))
step_requests s (reports reason) = omega arith

run-IsSwapped :
    (es : List Event) (s : Server)
    → s.requests + length es < 2 ^ 64
    → IsSwapped s
    → IsSwapped (run s es)
unfolding run
run-IsSwapped [] s b h = h
run-IsSwapped (e ∷ es) s b h =
    run-IsSwapped es (step s e) (omega (arith, step_requests s e))
      (step-IsSwapped s e (omega arith) h)

IsExclusive-of :
    (o : Option ℕ) (n : ℕ) (ts : List Stream)
    → IsNewest o n
    → All (IsStored o) ts
    → All (λ (t : Stream). (t.canceled ≡ true) ⊎ (t.request + 1 ≡ n)) ts
IsExclusive-of o n [] h hs = tt
IsExclusive-of o n (t ∷ ts) h (s, hs) = (ground arith, IsExclusive-of o n ts h hs)

-- In whatever order the steps of the requests to a new server come (fewer than 2 ^ 64 steps), the
-- context of every request in its handler is done, but for that of the request let in last.
pub run-IsExclusive : (es : List Event) → length es < 2 ^ 64 → IsExclusive (run new_server es)
run-IsExclusive es b =
    let h =
      run-IsSwapped es new_server (omega (arith, b))
        (record { counted = refl; numbered = tt; stored = tt; newest = inl refl }) in
    record { exclusive = IsExclusive-of _ _ _ h.newest h.stored }
