-- ===== src/Shim/Streaming/Given.antt =====
-- The sources that `srcFunc` gave out.
use teddycloud_spotify_radio.Base.{
  ℕ, suc, ◌≤◌, ◌<◌, Bool, true, false, List, [], ◌∷◌, ◌++◌, Option, none, some, All, ◌≡◌, inl, inr,
  refl, sym, ◌∙◌, arith, ℤ, ◌==◌, Bool-cases,
}
use teddycloud_spotify_radio.Shim.Startup.{Source, tone, live, src_func}
use teddycloud_spotify_radio.Shim.Recording
use teddycloud_spotify_radio.Shim.Recording.Tidy.{slot_at, IsTidy, Reach-IsTidy}
use teddycloud_spotify_radio.Shim.Streaming.{source_of}

-- What is left of the list without one element.
pub All-without {ℓ κ} :
    {A : Type ℓ} (P : A → Type κ) (before after : List A) (x : A)
    → All P (before ++ x ∷ after)
    → All P (before ++ after)
All-without P [] after x h = h.1
All-without P (b ∷ bs) after x h = (h.0, All-without P bs after x h.1)

-- `runRecorder` only ever counts its attempts up.
Move-attempt :
    (buffer_len : ℤ) (s t : Recording.State) → Recording.Move buffer_len s t → s.attempt ≤ t.attempt
unfolding Recording.set_slot
Move-attempt buffer_len s t (Recording.sees_ready e same) = ground arith
Move-attempt buffer_len s t (Recording.leaves at cancelled same) = ground arith
Move-attempt buffer_len s t (Recording.goes_on e going same) = ground arith
Move-attempt buffer_len s t (Recording.open_fails lib e failed same) = ground arith
Move-attempt buffer_len s t (Recording.opens lib e ok same) = ground arith
Move-attempt buffer_len s t (Recording.leaves_recording l e cancelled same) = ground arith
Move-attempt buffer_len s t (Recording.loses l e lost same) = ground arith
Move-attempt buffer_len s t (Recording.wakes e same) = ground arith

pub Step-attempt :
    (buffer_len : ℤ) (s t : Recording.State) → Recording.Step buffer_len s t → s.attempt ≤ t.attempt
Step-attempt buffer_len s t (Recording.moves on move) = Move-attempt buffer_len s t move
Step-attempt buffer_len s t (Recording.cancels same) = ground arith
Step-attempt buffer_len s t (Recording.live_acts l e sh at same) = ground arith
Step-attempt buffer_len s t (Recording.watch l at going same) = ground arith
Step-attempt buffer_len s t (Recording.past_acts before after l e sh at same) = ground arith
Step-attempt buffer_len s t (Recording.past_watch before after l at same) = ground arith

-- In the slot is never a recorder but one of an attempt up to now.
slot_at-newest :
    (p : Recording.Place) (n a : ℕ) → slot_at p n ≡ some a → (a ≡ n) × (Recording.Tidy.live p ≡ 1)
slot_at-newest (Recording.recording l) n a e = (ground arith, refl)
slot_at-newest Recording.awaiting n a e = cc
slot_at-newest Recording.head n a e = cc
slot_at-newest Recording.opening n a e = cc
slot_at-newest Recording.sleeping n a e = cc

slot-attempt :
    (s : Recording.State) (a : ℕ) → IsTidy s → s.slot ≡ some a → (0 < a) × (a ≤ s.attempt)
slot-attempt s a h e =
    let (newest, on) = slot_at-newest s.place s.attempt a (sym h.slot_is ∙ e) in
    (omega (arith, h.attempt_is), omega arith)

module _ (static_stream : Bool) (rate : ℕ) where
  -- A source that `srcFunc` gave out: the tone, or the recorder of an attempt up to the newest.
  abbrev pub IsGiven : ℕ → Source → Type 0
  IsGiven newest (tone r) = (static_stream ≡ true) × (r ≡ rate)
  IsGiven newest (live a) = (static_stream ≡ false) × (0 < a) × (a ≤ newest)

  -- The requests that were let in, the newest first, with their sources.
  abbrev pub AreGiven : ℕ → ℕ → List (ℕ × Source) → Type 0
  AreGiven newest requests [] = requests ≡ 0
  AreGiven newest requests ((r, src) ∷ rest) =
      (requests ≡ suc r) × IsGiven newest src × AreGiven newest r rest

  IsGiven-later : (m n : ℕ) (src : Source) → m ≤ n → IsGiven m src → IsGiven n src
  IsGiven-later m n (tone r) h k = k
  IsGiven-later m n (live a) h (k, p, q) = (k, p, omega arith)

  pub All-later :
      (m n : ℕ) (srcs : List Source) → m ≤ n → All (IsGiven m) srcs → All (IsGiven n) srcs
  All-later m n [] h hs = tt
  All-later m n (src ∷ srcs) h (k, ks) = (IsGiven-later m n src h k, All-later m n srcs h ks)

  pub AreGiven-later :
      (m n requests : ℕ) (srcs : List (ℕ × Source))
      → m ≤ n
      → AreGiven m requests srcs
      → AreGiven n requests srcs
  AreGiven-later m n requests [] h k = k
  AreGiven-later m n requests ((r, src) ∷ rest) h (e, k, ks) =
      (e, IsGiven-later m n src h k, AreGiven-later m n r rest h ks)

  given :
      (newest : ℕ) (on : Bool) (slot : Option ℕ) (src : Source)
      → static_stream ≡ on
      → ((a : ℕ) → slot ≡ some a → (0 < a) × (a ≤ newest))
      → src_func on rate slot ≡ some src
      → IsGiven newest src
  unfolding src_func
  given newest true slot (tone r) is_on bounds e = (is_on, ground arith)
  given newest true slot (live a) is_on bounds e = cc
  given newest false none src is_on bounds e = cc
  given newest false (some b) (tone r) is_on bounds e = cc
  given newest false (some b) (live a) is_on bounds e =
      let (low, high) = bounds a (ground arith) in (is_on, low, high)

  pub src_func-IsGiven :
      (s : Recording.State) (src : Source)
      → IsTidy s
      → src_func static_stream rate s.slot ≡ some src
      → IsGiven s.attempt src
  unfolding src_func
  src_func-IsGiven s src h e =
      given s.attempt static_stream s.slot src refl (λ a at. slot-attempt s a h at) e

  pub AreGiven-source_of :
      (newest requests r : ℕ) (srcs : List (ℕ × Source))
      → r < requests
      → AreGiven newest requests srcs
      → (src : Source) × (source_of r srcs ≡ some src) × IsGiven newest src
  unfolding source_of
  AreGiven-source_of newest requests r [] h k = absurd (omega arith)
  AreGiven-source_of newest requests r ((n, src) ∷ rest) h (e, k, ks) = elim (Bool-cases (n == r)) [
    | inl here ↦ rw here (src, refl, k)
    | inr later ↦ rw later (AreGiven-source_of newest n r rest (ground arith) ks)
  ]
