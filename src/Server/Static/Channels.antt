-- ===== src/Server/Static/Channels.antt =====
-- What is heard of the tone in each channel.
use teddycloud_spotify_radio.Base.{
  ℕ, zero, suc, ◌+◌, ◌-◌, ◌*◌, ◌/◌, ◌%◌, ◌^◌, ◌<◌, ◌≤◌, List, [], ◌∷◌, if◌then◌else◌, ltb, ◌≡◌,
  refl, ap, ◌∙◌, arith, ℤ, pos, negsuc, pos_part, neg_part,
}
use teddycloud_spotify_radio.Recorder.{Bytes}
use teddycloud_spotify_radio.Server.Static.{Tone, bits16, sine_from, sine_chunk}

-- The samples of a stereo stream of s16le, read back, and those of its first channel.
abbrev signed16 : ℕ → ℤ
signed16 w = if ltb w (2 ^ 15) then pos w else negsuc (2 ^ 16 - 1 - w)

pub samples : Bytes → List ℤ
samples [] = []
samples (low ∷ []) = []
samples (low ∷ high ∷ bytes) = signed16 (low + high * 256) ∷ samples bytes

pub first_channel : List ℤ → List ℤ
first_channel [] = []
first_channel (l ∷ []) = l ∷ []
first_channel (l ∷ r ∷ rest) = l ∷ first_channel rest

-- The samples `i`, `i + 1`, … of a tone.
pub tone_from : Tone → ℕ → ℕ → ℕ → ℕ → ℕ → List ℤ
tone_from tone hz rate amplitude zero i = []
tone_from tone hz rate amplitude (suc left) i =
    tone hz rate amplitude i ∷ tone_from tone hz rate amplitude left (i + 1)

abbrev pub IsInt16 : ℤ → Type 0
IsInt16 v = (pos_part v < 2 ^ 15) × (neg_part v ≤ 2 ^ 15)

signed16-bits16 : (v : ℤ) → IsInt16 v → signed16 (bits16 v % 256 + bits16 v / 256 * 256) ≡ v
signed16-bits16 (pos n) h = ground arith
signed16-bits16 (negsuc n) h = ground arith

module _ (tone : Tone) (hz rate amplitude : ℕ)
    (int16 : (i : ℕ) → IsInt16 (tone hz rate amplitude i))
    (doubled : (i : ℕ) → tone hz rate amplitude (i * 2) ≡ tone (hz * 2) rate amplitude i) where
  sine_from-tone :
      (n left i k : ℕ)
      → left ≡ n * 2
      → k ≡ i * 2
      → first_channel (samples (sine_from tone hz rate amplitude left k))
        ≡ tone_from tone (hz * 2) rate amplitude n i
  unfolding first_channel samples sine_from tone_from
  sine_from-tone zero zero i k e at = refl
  sine_from-tone zero (suc left) i k e at = absurd (omega (arith, e))
  sine_from-tone (suc n) zero i k e at = absurd (omega (arith, e))
  sine_from-tone (suc n) (suc zero) i k e at = absurd (omega (arith, e))
  sine_from-tone (suc n) (suc (suc left)) i k e at =
      ap (λ v. v ∷ first_channel (samples (sine_from tone hz rate amplitude left (k + 1 + 1))))
        (signed16-bits16 _ (int16 k) ∙ ap (λ j. tone hz rate amplitude j) at ∙ doubled i)
      ∙ ap (λ l. tone (hz * 2) rate amplitude i ∷ l)
          (sine_from-tone n left (i + 1) (k + 1 + 1) (omega (arith, e)) (omega (arith, at)))

-- The counter of `sineChunk` runs over the samples of both channels, but its sine takes it for a count
-- of frames: each channel has a tone of twice the frequency that is asked for. (The samples are int16,
-- and doubling the counter is doubling the frequency, as both products of float64 are.)
pub sine_chunk-tone :
    (tone : Tone) (hz rate amplitude : ℕ)
    → ((i : ℕ) → IsInt16 (tone hz rate amplitude i))
    → ((i : ℕ) → tone hz rate amplitude (i * 2) ≡ tone (hz * 2) rate amplitude i)
    → first_channel (samples (sine_chunk tone hz rate amplitude))
      ≡ tone_from tone (hz * 2) rate amplitude 1024 0
unfolding sine_chunk
sine_chunk-tone tone hz rate amplitude int16 doubled =
    sine_from-tone tone hz rate amplitude int16 doubled 1024 2048 0 0 (omega arith) (omega arith)
