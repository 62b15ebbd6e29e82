-- ===== src/Telemetry/Ratio.antt =====
-- The share of the audio that was dropped.
use teddycloud_spotify_radio.Base.{
  ℕ, ◌<◌, ◌^◌, arith, true, not, ◌||◌, List, [], ◌∷◌, All, inl, inr, ltb, ◌≡◌, Bool-cases, ℤ,
}
use teddycloud_spotify_radio.Telemetry.{
  Floats, minus64, Snapshot, Summary, Sampler, zero_rates, drop_ratio_of, rates, sample, Tick,
  snapshot, run_telemetry,
}

-- What IEEE 754 says of the order and the rounding: a conversion from uint64 is finite and not negative,
-- and a sum of two of them is finite; a sum of two finite numbers that are not negative is not below
-- the first; a quotient of finite numbers, of which the first is not negative and not above the second,
-- and the second is positive, is between 0 and 1.
pub record IsRounded {F : Type 0} (fl : Floats F) (below : F → F → Type 0) (IsFinite : F → Type 0)
    : Type 0 where
  pub finite : (n : ℕ) → n < 2 ^ 64 → IsFinite (fl.of_uint64 n)
  pub finite_sum :
      (m n : ℕ) → m < 2 ^ 64 → n < 2 ^ 64 → IsFinite (fl.add (fl.of_uint64 m) (fl.of_uint64 n))
  pub nonneg : (n : ℕ) → n < 2 ^ 64 → below (fl.of_uint64 0) (fl.of_uint64 n)
  pub add_left :
      (x y : F)
      → IsFinite x
      → IsFinite y
      → below (fl.of_uint64 0) x
      → below (fl.of_uint64 0) y
      → below x (fl.add x y)
  pub div_unit :
      (a b : F)
      → IsFinite a
      → IsFinite b
      → fl.is_positive b ≡ true
      → below (fl.of_uint64 0) a
      → below a b
      → (below (fl.of_uint64 0) (fl.div a b)) × (below (fl.div a b) (fl.of_uint64 1))

module _ {F : Type 0} (fl : Floats F) (below : F → F → Type 0) where
  pub IsShare : Summary F → Type 0
  IsShare m = (below (fl.of_uint64 0) (m.drop_ratio)) × (below (m.drop_ratio) (fl.of_uint64 1))

  module _ (IsFinite : F → Type 0) (h : IsRounded fl below IsFinite) where
    zero-IsShare :
        (below (fl.of_uint64 0) (fl.of_uint64 0)) × (below (fl.of_uint64 0) (fl.of_uint64 1))
    zero-IsShare = (h.nonneg 0 (omega arith), h.nonneg 1 (omega arith))

    drop_ratio_of-IsShare :
        (d c : ℕ)
        → d < 2 ^ 64
        → c < 2 ^ 64
        → (below (fl.of_uint64 0) (drop_ratio_of fl d c))
          × (below (drop_ratio_of fl d c) (fl.of_uint64 1))
    unfolding drop_ratio_of
    drop_ratio_of-IsShare d c hd hc =
        elim (Bool-cases (fl.is_positive (fl.add (fl.of_uint64 d) (fl.of_uint64 c)))) [
          | inl e ↦ rw e (
              h.div_unit _ _ (h.finite d hd) (h.finite_sum d c hd hc) e (h.nonneg d hd)
                (h.add_left _ _ (h.finite d hd) (h.finite c hc) (h.nonneg d hd) (h.nonneg c hc)))
          | inr e ↦ rw e zero-IsShare
        ]

    sample-IsShare : (s : Sampler) (now : ℤ) (cur : Snapshot) → IsShare (sample fl s now cur).0
    unfolding sample zero_rates rates IsShare
    sample-IsShare s now cur =
        elim (Bool-cases
          (not s.set || ltb cur.chunks s.prev.chunks || ltb cur.dropped s.prev.dropped)) [
            | inl e ↦ rw e zero-IsShare
            | inr e ↦ rw e (
                drop_ratio_of-IsShare (minus64 cur.dropped s.prev.dropped)
                  (minus64 cur.chunks s.prev.chunks) (omega arith) (omega arith))
          ]

-- However the counters of the server and of the recorders in the slot move, wraps and a change of the
-- recorder included, every drop ratio that is logged is between 0 and 1, by the rounding of float64.
run_telemetry-AllIsShare :
    {F : Type 0} (fl : Floats F) (below : F → F → Type 0) (IsFinite : F → Type 0) (ts : List Tick)
    (s : Sampler)
    → IsRounded fl below IsFinite
    → All (IsShare fl below) (run_telemetry fl s ts)
unfolding run_telemetry
run_telemetry-AllIsShare fl below IsFinite [] s h = tt
run_telemetry-AllIsShare fl below IsFinite (t ∷ ts) s h = (
  sample-IsShare fl below IsFinite h s t.now (snapshot t.server t.recorder),
  run_telemetry-AllIsShare fl below IsFinite ts _ h,
)
