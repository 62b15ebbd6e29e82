-- ===== src/Tests/Server.antt =====
-- Two streams one after the other, a header, and chunks of two sizes.
use mathlib.Core.List.{flatten}
use teddycloud_spotify_radio.Base.{
  ℕ, true, false, List, [], ◌∷◌, ◌≡◌, refl, arith, Text, codes, Option, some, none, ◌==◌,
  if◌then◌else◌,
}
use teddycloud_spotify_radio.Server.{
  Event, connects, begins, delivers, ends, new_server, run, step, connect, enter, cancel, begin,
  deliver, find, leave,
}
use teddycloud_spotify_radio.Server.Uri.{valid_uri}
use teddycloud_spotify_radio.Server.Wav.{write_wav_header, Fields, write_wav_header-Fields}
use teddycloud_spotify_radio.Server.Swap.{IsExclusive, run-IsExclusive}
use teddycloud_spotify_radio.Server.Batch.{stream_chunks, write_chunk}
use teddycloud_spotify_radio.Server.Batch.Failing.{stream_failing, write_failing}
use teddycloud_spotify_radio.Server.Batch.Failing.Sent.{IsSent, stream_failing-IsSent}
use teddycloud_spotify_radio.Server.Batch.Full.{Batched, stream_chunks-Batched}

abbrev album : Text
album = codes "spotify:album:ABC123"

album_is_valid : valid_uri album ≡ true
unfolding valid_uri
album_is_valid = refl

empty_is_not : valid_uri (codes "spotify:track:") ≡ false
unfolding valid_uri
empty_is_not = refl

-- The old stream ends behind the start of the new one.
abbrev swaps : List Event
swaps =
    connects true true album
    ∷ begins 0 22050
    ∷ delivers 0 4096
    ∷ connects true true (codes "spotify:track:x")
    ∷ ends 0
    ∷ begins 1 22050
    ∷ connects true true (codes "http://evil.com")
    ∷ []

swaps_leave_one :
    (run new_server swaps).streams
    ≡ record { request = 1; my_id = 2; canceled = false; active = true } ∷ []
unfolding run step connect enter begin deliver find write_wav_header valid_uri cancel leave
swaps_leave_one = refl

run-IsExclusive_example : IsExclusive (run new_server swaps)
run-IsExclusive_example = run-IsExclusive swaps (omega arith)

write_wav_header-Fields_example : Fields (write_wav_header 22050) 22050 2 16
write_wav_header-Fields_example = write_wav_header-Fields 22050 (omega arith)

abbrev chunks : List (List ℕ)
chunks = (1 ∷ 2 ∷ []) ∷ (3 ∷ 4 ∷ []) ∷ (5 ∷ 6 ∷ 7 ∷ 8 ∷ 9 ∷ []) ∷ []

chunks_are_batched :
    (stream_chunks 3 44 chunks).writes ≡ (1 ∷ 2 ∷ 3 ∷ []) ∷ (4 ∷ 5 ∷ 6 ∷ []) ∷ (7 ∷ 8 ∷ 9 ∷ []) ∷ []
unfolding stream_chunks write_chunk
chunks_are_batched = refl

stream_chunks-Batched_example : Batched 3 44 (flatten chunks) (stream_chunks 3 44 chunks)
stream_chunks-Batched_example = stream_chunks-Batched 3 44 chunks (omega arith)

-- The second write takes a byte and fails.
abbrev broken_link : ℕ → Option ℕ
broken_link n = if n == 1 then some 1 else none

broken_is_cut : (stream_failing broken_link 3 chunks).writes ≡ (1 ∷ 2 ∷ 3 ∷ []) ∷ (4 ∷ []) ∷ []
unfolding stream_failing write_failing
broken_is_cut = refl

stream_failing-IsSent_example :
    IsSent (flatten chunks) (stream_failing broken_link 3 chunks)
    × ((stream_failing broken_link 3 chunks).failed ≡ false
        → flatten (stream_failing broken_link 3 chunks).writes ≡ flatten chunks)
stream_failing-IsSent_example = stream_failing-IsSent broken_link 3 chunks
