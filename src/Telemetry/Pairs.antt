-- ===== src/Telemetry/Pairs.antt =====
-- Each summary is about two consecutive ticks.
use teddycloud_spotify_radio.Base.{
  ℕ, ◌-◌, ◌^◌, ◌<◌, Bool, true, false, ◌||◌, List, [], ◌∷◌, All, inl, inr, if◌then◌else◌, ltb, ◌≡◌,
  refl, ap, arith, Bool-cases,
}
use teddycloud_spotify_radio.Telemetry.{
  Floats, Snapshot, Summary, Sampler, new_sampler, minus64, interval, zero_rates, drop_ratio_of,
  rates, sample, Tick, snapshot, run_telemetry,
}

abbrev pub at : Tick → Snapshot
at t = snapshot t.server t.recorder

-- The counters are words.
pub record IsCounted (t : Tick) : Type 0 where
  pub chunks_word : (at t).chunks < 2 ^ 64
  pub dropped_word : (at t).dropped < 2 ^ 64

minus64_back : (a b : ℕ) → a < 2 ^ 64 → b < 2 ^ 64 → ltb a b ≡ false → minus64 a b ≡ a - b
minus64_back a b ha hb h = ground arith

or-false : {a b : Bool} → (a || b) ≡ false → (a ≡ false) × (b ≡ false)
or-false {a = false} {b = false} e = (refl, refl)
or-false {a = true} {b = b} e = absurd (ground arith)
or-false {a = false} {b = true} e = absurd (ground arith)

module _ {F : Type 0} (fl : Floats F) where
  -- The chunks, the drops and their share between two ticks, as differences of whole numbers.
  grown : Tick → Tick → Summary F
  grown t u =
      let seconds = fl.seconds (interval u.now t.now) in
      let chunks = (at u).chunks - (at t).chunks in
      let dropped = (at u).dropped - (at t).dropped in
      record {
        chunks_per_sec = fl.div (fl.of_uint64 chunks) seconds;
        dropped_per_sec = fl.div (fl.of_uint64 dropped) seconds;
        drop_ratio = drop_ratio_of fl dropped chunks;
        delivered_kibps =
            fl.div
              (fl.div (fl.of_uint64 (minus64 (at u).delivered (at t).delivered))
                (fl.of_uint64 1024))
              seconds;
        streams = (at u).streams;
      }

  -- No rates between two ticks of which the second counts less: the recorder was lost or is a new one.
  pub between : Tick → Tick → Summary F
  unfolding grown
  between t u =
      if ltb (at u).chunks (at t).chunks || ltb (at u).dropped (at t).dropped
      then zero_rates fl (at u).streams
      else grown t u

  pub behind : Tick → List Tick → List (Summary F)
  behind t [] = []
  behind t (u ∷ us) = between t u ∷ behind u us

  pub pairs : List Tick → List (Summary F)
  pairs [] = []
  pairs (t ∷ ts) = zero_rates fl (at t).streams ∷ behind t ts

  abbrev sampled : Tick → Sampler
  sampled t = record { prev = at t; prev_t = t.now; set = true }

  grown_back :
      (t u : Tick)
      → IsCounted t
      → IsCounted u
      → (ltb (at u).chunks (at t).chunks ≡ false) × (ltb (at u).dropped (at t).dropped ≡ false)
      → rates fl (at t) (at u) (interval u.now t.now) ≡ grown t u
  unfolding rates grown
  grown_back t u ht hu (hc, hd) =
      rw
        (
          minus64_back (at u).chunks (at t).chunks hu.chunks_word ht.chunks_word hc,
          minus64_back (at u).dropped (at t).dropped hu.dropped_word ht.dropped_word hd,
        )
        refl

  sample-sampled :
      (t u : Tick)
      → IsCounted t
      → IsCounted u
      → sample fl (sampled t) u.now (at u) ≡ (between t u, sampled u)
  unfolding sample between grown rates
  sample-sampled t u ht hu =
      elim (Bool-cases (ltb (at u).chunks (at t).chunks || ltb (at u).dropped (at t).dropped)) [
        | inl e ↦ rw e refl
        | inr e ↦ rw e (ap (λ (m : Summary F). (m, sampled u)) (grown_back t u ht hu (or-false e)))
      ]

  run_telemetry-behind :
      (ts : List Tick) (t : Tick)
      → IsCounted t
      → All IsCounted ts
      → run_telemetry fl (sampled t) ts ≡ behind t ts
  unfolding run_telemetry behind
  run_telemetry-behind [] t ht hs = refl
  run_telemetry-behind (u ∷ us) t ht (hu, hs) =
      rw (sample-sampled t u ht hu) (ap (λ l. between t u ∷ l) (run_telemetry-behind us u hu hs))

-- What is logged is, for the first tick, zero rates; for each later one, the growth of the chunks and
-- of the drops since the tick before it as whole numbers, and zero rates where either went back, as
-- with a lost recorder; whatever the operations of float64 give. (The counters of the recorders are
-- words.)
pub run_telemetry-pairs :
    {F : Type 0} (fl : Floats F) (ts : List Tick)
    → All IsCounted ts
    → run_telemetry fl new_sampler ts ≡ pairs fl ts
unfolding run_telemetry pairs sample
run_telemetry-pairs fl [] hs = refl
run_telemetry-pairs fl (t ∷ ts) (ht, hs) =
    ap (λ l. zero_rates fl (at t).streams ∷ l) (run_telemetry-behind fl ts t ht hs)
