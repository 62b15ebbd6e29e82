-- ===== src/Server/Admission.antt =====
-- The numbers of the requests that are let in.
use teddycloud_spotify_radio.Base.{
  ℕ, suc, ◌<◌, Bool, true, false, List, [], ◌∷◌, Option, none, some, ◌≡◌, refl, arith, All, Text,
  Bool-cases, inl, inr,
}
use teddycloud_spotify_radio.Server.Uri.{valid_uri}
use teddycloud_spotify_radio.Server.{
  Stream, Server, Event, connects, disconnects, ends, begins, delivers, reports, cancel,
  cancel_stored, set_active, remove, enter, connect, find, begin, deliver, leave, step,
  set_unhealthy, begin_if, leave_if, connect_if, play_if,
}

-- A step of a request that is let in, or a report.
abbrev pub IsInside : Event → Type 0
IsInside (connects has_source has_play uri) = ⊥
IsInside e = Unit

abbrev pub AllBelow : ℕ → List Stream → Type 0
AllBelow n ts = All (λ (t : Stream). t.request < n) ts

-- Every open stream has a number that was given out.
pub record IsCounted (s : Server) : Type 0 where
  pub below : AllBelow s.requests s.streams

cancel-AllBelow : (n r : ℕ) (ts : List Stream) → AllBelow n ts → AllBelow n (cancel r ts)
unfolding cancel
cancel-AllBelow n r [] h = tt
cancel-AllBelow n r (t ∷ ts) (h, hs) = (ground arith, cancel-AllBelow n r ts hs)

cancel_stored-AllBelow :
    (n : ℕ) (o : Option ℕ) (ts : List Stream) → AllBelow n ts → AllBelow n (cancel_stored o ts)
unfolding cancel_stored
cancel_stored-AllBelow n none ts h = h
cancel_stored-AllBelow n (some r) ts h = cancel-AllBelow n r ts h

set_active-AllBelow : (n r : ℕ) (ts : List Stream) → AllBelow n ts → AllBelow n (set_active r ts)
set_active-AllBelow n r [] h = tt
set_active-AllBelow n r (t ∷ ts) (h, hs) = (ground arith, set_active-AllBelow n r ts hs)

remove-AllBelow : (n r : ℕ) (ts : List Stream) → AllBelow n ts → AllBelow n (remove r ts)
unfolding remove
remove-AllBelow n r [] h = tt
remove-AllBelow n r (t ∷ ts) (h, hs) = ground (arith, remove-AllBelow n r ts hs)

AllBelow-suc : (n : ℕ) (ts : List Stream) → AllBelow n ts → AllBelow (suc n) ts
AllBelow-suc n [] h = tt
AllBelow-suc n (t ∷ ts) (h, hs) = (omega arith, AllBelow-suc n ts hs)

-- A step inside lets nobody in; it keeps or removes streams.
pub record IsKept (s t : Server) : Type 0 where
  pub same : t.requests ≡ s.requests
  pub counted : IsCounted s → IsCounted t

begin-IsKept : (s : Server) (o : Option Stream) (rate : ℕ) → IsKept s (begin_if s o rate)
unfolding begin_if
begin-IsKept s none rate = record { same = refl; counted = λ h. h }
begin-IsKept s (some t) rate = elim (Bool-cases t.active) [
  | inl on ↦ rw on (record { same = refl; counted = λ h. h })
  | inr off ↦ rw off (record {
    same = refl;
    counted = λ h. record { below = set_active-AllBelow s.requests t.request s.streams h.below };
  })
]

leave-IsKept : (s : Server) (o : Option Stream) → IsKept s (leave_if s o)
unfolding leave_if
leave-IsKept s none = record { same = refl; counted = λ h. h }
leave-IsKept s (some t) = record {
  same = refl;
  counted = λ h. record { below = remove-AllBelow s.requests t.request s.streams h.below };
}

pub step-IsKept : (s : Server) (e : Event) → IsInside e → IsKept s (step s e)
unfolding step begin leave set_unhealthy deliver
step-IsKept s (connects has_source has_play uri) inside = absurd inside
step-IsKept s (disconnects r) inside = record {
  same = refl;
  counted = λ h. record { below = cancel-AllBelow s.requests r s.streams h.below };
}
step-IsKept s (begins r rate) inside = begin-IsKept s (find r s.streams) rate
step-IsKept s (delivers r n) inside = record {
  same = refl;
  counted = λ h. record { below = h.below };
}
step-IsKept s (ends r) inside = leave-IsKept s (find r s.streams)
step-IsKept s (reports reason) inside = record {
  same = refl;
  counted = λ h. record { below = h.below };
}

-- A request with a valid URI and a source is let in under the next number.
pub connect-next :
    (s : Server) (uri : Text)
    → valid_uri uri ≡ true
    → ((connect s true true uri).0.requests ≡ suc s.requests)
      × (IsCounted s → IsCounted (connect s true true uri).0)
unfolding connect connect_if play_if enter
connect-next s uri valid = rw valid (
  refl,
  λ h. record {
    below = (
      omega arith,
      AllBelow-suc s.requests _
          (cancel_stored-AllBelow s.requests s.stream_cancel s.streams h.below),
    );
  },
)

-- What is answered at once changes nothing.
pub connect-refused :
    (s : Server) (has_source has_play : Bool) (uri : Text)
    → valid_uri uri ≡ false
    → connect s has_source has_play uri ≡ (s, some 400)
unfolding connect connect_if
connect-refused s has_source has_play uri bad = rw bad refl

pub connect-unavailable :
    (s : Server) (has_play : Bool) (uri : Text)
    → valid_uri uri ≡ true
    → connect s false has_play uri ≡ (s, some 503)
unfolding connect connect_if
connect-unavailable s has_play uri valid = rw valid refl

pub connect-admitted :
    (s : Server) (has_play : Bool) (uri : Text)
    → valid_uri uri ≡ true
    → (connect s true has_play uri).1 ≡ none
unfolding connect connect_if
connect-admitted s has_play uri valid = rw valid refl
