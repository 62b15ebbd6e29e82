-- ===== src/Sse/Loop.antt =====
-- `readLoop`, `subscribeOnce` and `Run`: one connection, and the reconnecting. What the network, the
-- clock and the caller's context do is an argument: a round for each time around the loop.
pub mod Reconnect
use teddycloud_spotify_radio.Base.{
  ℕ, ◌+◌, ◌*◌, Bool, true, false, List, [], ◌∷◌, ◌++◌, Option, none, some, leb, ◌==◌, if◌then◌else◌,
  Text, codes, trim_right, ℤ, pos, positive_or, pos_part,
}
use teddycloud_spotify_radio.Backoff.{next_backoff}
use teddycloud_spotify_radio.Sse.Dispatch.{CommandSender, Frame, no_frame, read_line}

abbrev second : ℕ
second = 1_000_000_000

-- The fields of a `Listener` that its methods read; a zero stands for the default.
pub record Listener : Type 0 where
  pub url : Text
  pub initial_backoff : ℤ
  pub max_backoff : ℤ
  pub idle_timeout : ℤ

unfoldable pub backoff_of : Listener → ℤ
backoff_of l = pos (positive_or l.initial_backoff second)

unfoldable pub max_backoff_of : Listener → ℤ
max_backoff_of l = pos (positive_or l.max_backoff (30 * second))

unfoldable pub idle_timeout_of : Listener → ℤ
idle_timeout_of l = pos (positive_or l.idle_timeout (120 * second))

-- strings.TrimRight(l.URL, "/") + "/api/sse"
unfoldable pub sse_url : Listener → Text
unfolding trim_right
sse_url l = trim_right (λ c. c == b'/') l.url ++ codes "/api/sse"

-- What ends a connection.
pub data StreamError : Type 0 where
  canceled idle eof broken bad_request no_response bad_status : StreamError

-- Once around the loop of `readLoop`: whether the context is done at the `select`, which case the
-- `select` takes if both are ready, how long `Scan` waits for the line, and how long the rest of
-- the body takes.
pub record Round : Type 0 where
  pub ctx_done : Bool
  pub prefers_idle : Bool
  pub waited : ℕ
  pub line : Text
  pub busy : ℕ

-- The `select` at the head of the loop, with its `default`.
unfoldable pub poll : Bool → Bool → Bool → Option StreamError
poll false false prefers_idle = none
poll true false prefers_idle = some canceled
poll false true prefers_idle = some idle
poll true true true = some idle
poll true true false = some canceled

-- The clock, and the time at which the idle timer fires.
pub record Timer : Type 0 where
  pub now : ℕ
  pub deadline : ℕ

unfoldable pub fired : Timer → Bool
fired t = leb t.deadline t.now

-- `Scan` returns with a line, the timer is reset, and the line is worked on.
unfoldable pub tick : ℕ → Timer → Round → Timer
tick timeout t r = record { now = t.now + r.waited + r.busy; deadline = t.now + r.waited + timeout }

module _ {S E : Type 0} (commands : CommandSender S E) where
  -- The loop, over its rounds; behind the last one the context and the `select` as before, and the
  -- reason for which `Scan` returns false.
  unfoldable pub read_loop :
      ℕ → Timer → Frame × S → List Round → Bool → Bool → StreamError → S × StreamError
  read_loop timeout t (f, s) [] ctx_done prefers_idle last =
      elim (poll ctx_done (fired t) prefers_idle) [ none ↦ (s, last) | some e ↦ (s, e) ]
  read_loop timeout t (f, s) (r ∷ rs) ctx_done prefers_idle last =
      let on =
        read_loop timeout (tick timeout t r) (read_line commands (f, s) r.line) rs ctx_done
          prefers_idle last in
      elim (poll r.ctx_done (fired t) r.prefers_idle) [ none ↦ on | some e ↦ (s, e) ]

-- The body of a reply: its rounds, how reading it ends, and whether `consume` returned by the case of
-- the context while the loop was reading.
pub record Body : Type 0 where
  pub rounds : List Round
  pub ctx_done : Bool
  pub prefers_idle : Bool
  pub last : StreamError
  pub interrupted : Bool

pub data Response : Type 0 where
  request_failed no_reply : Response
  reply : ℕ → Body → Response

-- One attempt: whether the context is done before it and after it, what the server answers, and
-- whether the context ends the sleep behind it.
pub record Attempt : Type 0 where
  pub done_before : Bool
  pub response : Response
  pub done_after : Bool
  pub sleep_cut : Bool

pub record Ran (S : Type 0) : Type 0 where
  pub state : S
  pub slept : List ℤ
  pub returned : Bool

module _ {S E : Type 0} (commands : CommandSender S E) (l : Listener) where
  -- The timer is new at the start of `readLoop`, which counts the time from there.
  consume : S → Body → S × StreamError
  unfolding read_loop
  consume s b =
      let timeout = pos_part (idle_timeout_of l) in
      let (s', e) =
        read_loop commands timeout (record { now = 0; deadline = timeout }) (no_frame, s) b.rounds
          b.ctx_done b.prefers_idle b.last in
      (s', if b.interrupted then canceled else e)

  unfoldable pub subscribe_once : S → Response → S × StreamError
  unfolding consume
  subscribe_once s request_failed = (s, bad_request)
  subscribe_once s no_reply = (s, no_response)
  subscribe_once s (reply status b) = if status == 200 then consume s b else (s, bad_status)

  -- The loop of `Run` over its attempts: the state of the sink, the delays that were slept, and
  -- whether it returned.
  run_from : ℤ → S → List ℤ → List Attempt → Ran S
  run_from backoff s slept [] = record { state = s; slept = slept; returned = false }
  run_from backoff s slept (a ∷ rest) =
      let s' = (subscribe_once s a.response).0 in
      let slept' = slept ++ backoff ∷ [] in
      let on = run_from (next_backoff backoff (max_backoff_of l)) s' slept' rest in
      if a.done_before
      then record { state = s; slept = slept; returned = true }
      else if a.done_after
      then record { state = s'; slept = slept; returned = true }
      else if a.sleep_cut
      then record { state = s'; slept = slept'; returned = true }
      else on

  unfoldable pub run : S → List Attempt → Ran S
  unfolding run_from
  run s attempts = run_from (backoff_of l) s [] attempts
