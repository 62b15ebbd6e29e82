-- ===== src/Server/Wav.antt =====
-- internal/server/stream.go: `writeWAVHeader`.
use teddycloud_spotify_radio.Base.{
  ℕ, ◌+◌, ◌*◌, ◌/◌, ◌%◌, ◌^◌, ◌<◌, List, [], ◌∷◌, ◌++◌, ◌≡◌, refl, arith, length, take, drop, codes,
}

-- binary.LittleEndian.PutUint16 and PutUint32.
abbrev put16 : ℕ → List ℕ
put16 n = n % 256 ∷ n / 256 % 256 ∷ []

abbrev put32 : ℕ → List ℕ
put32 n = n % 256 ∷ n / 256 % 256 ∷ n / 65536 % 256 ∷ n / 16777216 % 256 ∷ []

unfoldable pub write_wav_header : ℕ → List ℕ
write_wav_header rate =
    codes "RIFF"
    ++ (put32 0xFFFFFFFF
        ++ (codes "WAVE"
            ++ (codes "fmt "
                ++ (put32 16
                    ++ (put16 1
                        ++ (put16 2
                            ++ (put32 rate
                                ++ (put32 (rate * 2 * 2 % 2 ^ 32)
                                    ++ (put16 4
                                        ++ (put16 16 ++ (codes "data" ++ put32 0xFFFFFFFF)))))))))))

-- A number read from its bytes, the lowest first.
abbrev pub little_endian : List ℕ → ℕ
little_endian [] = 0
little_endian (c ∷ cs) = c + 256 * little_endian cs

abbrev pub slice : ℕ → ℕ → List ℕ → List ℕ
slice from n bytes = take n (drop from bytes)

-- The fields of a header, read back at their places.
pub record Fields (header : List ℕ) (rate channels bits : ℕ) : Type 0 where
  pub size : length header ≡ 44
  pub format : little_endian (slice 20 2 header) ≡ 1
  pub channels_are : little_endian (slice 22 2 header) ≡ channels
  pub rate_is : little_endian (slice 24 4 header) ≡ rate
  pub byte_rate : little_endian (slice 28 4 header) ≡ rate * (channels * (bits / 8)) % 2 ^ 32
  pub block_align : little_endian (slice 32 2 header) ≡ channels * (bits / 8)
  pub bits_are : little_endian (slice 34 2 header) ≡ bits

little_endian-put32 : (n : ℕ) → n < 2 ^ 32 → little_endian (put32 n) ≡ n
little_endian-put32 n h = omega arith

-- Read back at their places, the fields of the header are 44 bytes of PCM in two channels of 16 bits
-- at the given rate, and the byte rate and the block size belong to them. (The rate is a uint32.)
pub write_wav_header-Fields : (rate : ℕ) → rate < 2 ^ 32 → Fields (write_wav_header rate) rate 2 16
unfolding write_wav_header
write_wav_header-Fields rate h = record {
  size = refl;
  format = refl;
  channels_are = refl;
  rate_is = little_endian-put32 rate h;
  byte_rate = omega arith;
  block_align = refl;
  bits_are = refl;
}
