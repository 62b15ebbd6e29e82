-- ===== src/Mock/Listening.antt =====
-- The mock server and the listener together: what an action on the control page makes the shim do.
use teddycloud_spotify_radio.Base.{
  ℕ, String, ◌+◌, ◌≤◌, ◌<◌, Bool, true, false, not, ◌&&◌, List, [], ◌∷◌, ◌++◌, some, ◌≡◌, refl, ap,
  ◌∙◌, append_assoc, arith, ltb, leb, if◌then◌else◌, length, All, Text, codes, text_eq, text_eq_iff,
  trim_space,
}
use teddycloud_spotify_radio.Json.{raw_data, read_string}
use teddycloud_spotify_radio.Json.Member.{is_plain, IsPlain}
use teddycloud_spotify_radio.Sse.Lines.{size, scan_lines}
use teddycloud_spotify_radio.Sse.Dispatch.{
  CommandSender, no_frame, wrapped_value, dispatch, read_lines,
}
use teddycloud_spotify_radio.Sse.Frames.{
  IsSendable, wrap, event_line, data_line, listen, read_frame, scan_frame,
}
use teddycloud_spotify_radio.Mock.{
  Event, Hub, channel_len, started, placed, lifted, big_ear, small_ear, small_ear_twice,
  knock_forward, knock_backward, broadcast_all, events_of, trigger, sse_frame, received, queue_of,
  serve,
}
use teddycloud_spotify_radio.Mock.Delivery.{
  replicate, frames, serve-received, queue_of-broadcast_all,
}

every_plain : Text → Bool
every_plain [] = true
every_plain (c ∷ cs) = is_plain c && every_plain cs

IsPlain-of_every : (t : Text) → every_plain t ≡ true → IsPlain t
unfolding every_plain
IsPlain-of_every [] h = tt
IsPlain-of_every (c ∷ cs) h = (ground arith, IsPlain-of_every cs (ground arith))

is_sendable : Event → Bool
unfolding every_plain
is_sendable e =
    every_plain e.name
    && every_plain e.value
    && text_eq (trim_space (b' ' ∷ e.name)) e.name
    && not (text_eq e.name [])
    && ltb (size e.name + size e.name + size e.value) 65000

Sendable_of : (e : Event) → is_sendable e ≡ true → IsSendable e.name e.value
unfolding is_sendable
Sendable_of e h = record {
  plain_name = IsPlain-of_every e.name (ground arith);
  plain_value = IsPlain-of_every e.value (ground arith);
  trimmed = (text_eq_iff _ _).0 (ground arith);
  named = λ n. ground (arith, text_eq_iff e.name []);
  fits = ground arith;
}

abbrev AllSendable : List Event → Type 0
AllSendable = All (λ e. IsSendable e.name e.value)

every_sendable : List Event → Bool
unfolding is_sendable
every_sendable [] = true
every_sendable (e ∷ es) = is_sendable e && every_sendable es

all_of_every : (es : List Event) → every_sendable es ≡ true → AllSendable es
unfolding every_sendable
all_of_every [] h = tt
all_of_every (e ∷ es) h = (Sendable_of e (ground arith), all_of_every es (ground arith))

sse_frame-lines :
    (n v rest : Text)
    → sse_frame n v ++ rest ≡ event_line n ++ (b'\n' ∷ (data_line n v ++ (b'\n' ∷ b'\n' ∷ rest)))
unfolding sse_frame
sse_frame-lines n v rest = simp append_assoc

module _ {S E : Type 0} (commands : CommandSender S E) where
  -- A frame that the mock server writes is read back as its event: the listener dispatches the
  -- event under its name, and goes on with what follows the frame.
  pub listen-sse_frame :
      (n v rest : Text) (s : S)
      → IsSendable n v
      → listen commands s (sse_frame n v ++ rest)
        ≡ listen commands (dispatch commands n (wrap n v) s) rest
  listen-sse_frame n v rest s h =
      rw (sse_frame-lines n v rest, scan_frame n v rest h)
        (read_frame commands n v s (scan_lines rest).lines h)

  dispatch_all : List Event → S → S
  dispatch_all [] s = s
  dispatch_all (e ∷ es) s = dispatch_all es (dispatch commands e.name (wrap e.name e.value) s)

  listen-frames :
      (es : List Event) (s : S)
      → AllSendable es
      → listen commands s (frames es) ≡ (no_frame, dispatch_all es s)
  unfolding dispatch_all
  listen-frames [] s h = unfold scan_lines read_lines in refl
  listen-frames (e ∷ es) s (h, t) =
      listen-sse_frame e.name e.value (frames es) s h
      ∙ listen-frames es (dispatch commands e.name (wrap e.name e.value) s) t

  -- What an action is meant to do: a figurine that is placed starts the music, one that is lifted
  -- pauses it, a knock changes the track, and all else (the ears among it) does nothing.
  unfoldable pub intended : Text → S → S
  intended action s =
      if text_eq action (codes "figurine-placed")
      then (commands.play [] s).0
      else if text_eq action (codes "figurine-lifted")
      then (commands.pause s).0
      else if text_eq action (codes "ear-big")
      then s
      else if text_eq action (codes "ear-small")
      then s
      else if text_eq action (codes "ear-small-double")
      then s
      else if text_eq action (codes "knock-forward")
      then (commands.skip_next s).0
      else if text_eq action (codes "knock-backward")
      then (commands.skip_prev s).0
      else s

  record Means (s : S) (es : List Event) (s' : S) : Type 0 where
    sendable : AllSendable es
    room : length es ≤ channel_len
    meaning : dispatch_all es s ≡ s'

  Means-if :
      (b : Bool) {s t t' : S} {es es' : List Event}
      → Means s es t
      → Means s es' t'
      → Means s (if b then es else es') (if b then t else t')
  Means-if true h h' = h
  Means-if false h h' = h'

  Means-of :
      (s s' : S) (es : List Event)
      → every_sendable es ≡ true
      → leb (length es) channel_len ≡ true
      → dispatch_all es s ≡ s'
      → Means s es s'
  Means-of s s' es h r m = record { sendable = all_of_every es h; room = ground arith; meaning = m }

  Means-placed :
      (uid : Text) (s : S)
      → IsPlain uid
      → size uid < 60000
      → Means s (placed uid) (commands.play [] s).0
  unfolding every_sendable dispatch_all dispatch wrapped_value raw_data read_string trim_space
      text_eq
  Means-placed uid s plain fits = record {
    sendable = (
      record {
        plain_name = IsPlain-of_every (codes "TagValid") refl;
        plain_value = plain;
        trimmed = refl;
        named = λ e. cc;
        fits = omega arith;
      },
      all_of_every started refl,
    );
    room = omega arith;
    meaning = refl;
  }

  events_of-Means :
      (uid action : Text) (s : S)
      → IsPlain uid
      → size uid < 60000
      → Means s (events_of uid action) (intended action s)
  unfolding events_of intended every_sendable dispatch_all dispatch wrapped_value raw_data
      read_string trim_space text_eq
  events_of-Means uid action s plain fits =
      Means-if (is "figurine-placed") (Means-placed uid s plain fits) (
        Means-if (is "figurine-lifted") (Means-of s (commands.pause s).0 lifted refl refl refl) (
          Means-if (is "ear-big") (Means-of s s big_ear refl refl refl) (
            Means-if (is "ear-small") (Means-of s s small_ear refl refl refl) (
              Means-if (is "ear-small-double") (Means-of s s small_ear_twice refl refl refl) (
                Means-if (is "knock-forward")
                  (Means-of s (commands.skip_next s).0 knock_forward refl refl refl)
                  (Means-if (is "knock-backward")
                    (Means-of s (commands.skip_prev s).0 knock_backward refl refl refl)
                    (Means-of s s [] refl refl refl)))))))
    where
      is : String → Bool
      is name = text_eq action (codes name)

  -- After an action on the control page, what the mock server writes to a subscriber whose channel
  -- was empty, once all its events are written, makes the listener do what the action is meant to
  -- do, and leaves no half-read frame. The tonie's identity must be plain text that fits a line.
  pub listen-trigger :
      (h : Hub) (id : ℕ) (action : Text) (s : S)
      → queue_of id h.clients ≡ some []
      → IsPlain h.uid
      → size h.uid < 60000
      → listen commands s
          (serve (trigger h action) id [] (replicate (length (events_of h.uid action)) received)).1
        ≡ (no_frame, intended action s)
  unfolding trigger
  listen-trigger h id action s q plain fits =
      let means = events_of-Means h.uid action s plain fits in
      let es = events_of h.uid action in
      ap (listen commands s) (
        serve-received es (broadcast_all h es) id []
          (queue_of-broadcast_all es h id [] q (omega (arith, means.room))))
      ∙ listen-frames es s means.sendable
      ∙ ap (λ t. (no_frame, t)) means.meaning
