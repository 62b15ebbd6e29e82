-- ===== src/Pulse/MonitorStream/Handles.antt =====
-- What is open behind an attempt to record, and behind a close.
use teddycloud_spotify_radio.Base.{
  Bool, true, false, List, Option, none, some, is_some, ◌≡◌, inl, inr, refl, ap, sym, subst,
  if◌then◌else◌, Text, Option-cases,
}
use teddycloud_spotify_radio.Pulse.Sinks.{find_sink_by_name}
use teddycloud_spotify_radio.Pulse.MonitorStream.{
  Library, MonitorError, context_done, connect_failed, list_failed, sink_missing, record_failed,
  MonitorStream, nothing_open, with_record, with_sink, with_sinks, open_monitor_stream, close,
}

abbrev pub all_open : MonitorStream
all_open = record { client = true; writer = true; rec = true; closed_once = false }

abbrev connected : MonitorStream
connected = record nothing_open { client = true }

-- Everything is open and the sink was listed, or there is an error and nothing is open.
pub data Opened (sinks : Option (List Text)) (r : MonitorStream × Option MonitorError)
    : Type 0 where
  opened :
      (listed : List Text)
      → sinks ≡ some listed
      → is_some (find_sink_by_name (λ id. id) listed) ≡ true
      → r ≡ (all_open, none)
      → Opened sinks r
  refused : (e : MonitorError) → r ≡ (nothing_open, some e) → Opened sinks r

with_record-Opened :
    (l : Library) (listed : List Text)
    → is_some (find_sink_by_name (λ id. id) listed) ≡ true
    → Opened (some listed) (with_record l connected)
unfolding with_record
with_record-Opened l listed found =
    elim l.records
      as (λ b.
        Opened (some listed) (if b then (all_open, none) else (nothing_open, some record_failed))) [
          | true ↦ opened listed refl found refl
          | false ↦ refused record_failed refl
        ]

with_sinks-Opened :
    (l : Library) (sinks : Option (List Text)) → Opened sinks (with_sinks l sinks connected)
unfolding with_sinks with_sink
with_sinks-Opened l none = refused list_failed refl
with_sinks-Opened l (some listed) = elim (Option-cases (find_sink_by_name (λ id. id) listed)) [
  | inl e ↦ rw e (refused sink_missing refl)
  | inr (sink, e) ↦
      subst (λ o. Opened (some listed) (with_sink l o connected)) (sym e)
        (with_record-Opened l listed (ap (λ o. is_some o) e))
]

-- An attempt to record ends with the connection, the pipe and the recording open, and then the virtual
-- sink is listed; or with an error and nothing left open. Behind a close, and a second one, nothing is
-- open either.
pub open_monitor_stream-Opened :
    (ctx_done : Bool) (l : Library)
    → Opened l.list_sinks (open_monitor_stream ctx_done l)
      × (close (open_monitor_stream ctx_done l).0 ≡ record nothing_open { closed_once = true })
      × (close (close (open_monitor_stream ctx_done l).0)
          ≡ record nothing_open { closed_once = true })
unfolding open_monitor_stream close
open_monitor_stream-Opened ctx_done l = (
  opens,
  closes (open_monitor_stream ctx_done l) opens,
  ap close (closes (open_monitor_stream ctx_done l) opens),
)
  where
    closes :
        (r : MonitorStream × Option MonitorError)
        → Opened l.list_sinks r
        → close r.0 ≡ record nothing_open { closed_once = true }
    closes r (opened listed is found e) = ap (λ r. close r.0) e
    closes r (refused x e) = ap (λ r. close r.0) e

    opens : Opened l.list_sinks (open_monitor_stream ctx_done l)
    opens =
        elim ctx_done
          as (λ d. Opened l.list_sinks (
            if d
            then (nothing_open, some context_done)
            else if l.connects
            then with_sinks l l.list_sinks connected
            else (nothing_open, some connect_failed))) [
              | true ↦ refused context_done refl
              | false ↦
                  elim l.connects
                    as (λ c. Opened l.list_sinks (
                      if c
                      then with_sinks l l.list_sinks connected
                      else (nothing_open, some connect_failed))) [
                        | true ↦ with_sinks-Opened l l.list_sinks
                        | false ↦ refused connect_failed refl
                      ]
            ]

pub open_monitor_stream-all_open :
    (ctx_done : Bool) (l : Library)
    → (open_monitor_stream ctx_done l).1 ≡ none
    → (open_monitor_stream ctx_done l).0 ≡ all_open
open_monitor_stream-all_open ctx_done l e = elim (open_monitor_stream-Opened ctx_done l).0 [
  | opened listed is found all ↦ ap (λ r. r.0) all
  | refused x nothing ↦ cc
]
