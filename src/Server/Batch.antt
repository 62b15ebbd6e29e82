-- ===== src/Server/Batch.antt =====
-- internal/server/stream.go: `streamChunks`, over a connection that takes every write. `bufio.Writer`
-- holds up to `size` bytes back: a write that does not fit fills the buffer and empties it, and what
-- is still too large for an empty buffer goes out as it is.
pub mod Full
pub mod Failing
use teddycloud_spotify_radio.Base.{
  ℕ, zero, suc, ◌+◌, ◌-◌, ◌*◌, ◌%◌, ◌^◌, ◌≤◌, ◌<◌, Bool, true, false, List, [], ◌∷◌, ◌++◌, ◌≡◌, ◌≢◌,
  ◌⊎◌, refl, sym, ap, subst, ◌∙◌, arith, ltb, leb, if◌then◌else◌, length, length-append, append-nil,
  append_assoc, take, drop, take-append-drop, length-take, All, All-append, Bool-cases, inl, inr,
}

abbrev pub Bytes : Type 0
Bytes = List ℕ

-- The buffer, what was written to the connection, and the counter of delivered bytes.
pub record Writer : Type 0 where
  pub buffer : Bytes
  pub writes : List Bytes
  pub delivered : ℕ

-- `Flush`: an empty buffer is not written.
unfoldable pub flush_in : Bytes → Writer → Writer
flush_in [] w = w
flush_in (c ∷ cs) w = record w { buffer = []; writes = w.writes ++ (c ∷ cs) ∷ [] }

-- The rest of `Write` with an empty buffer.
write_empty : ℕ → Bytes → Writer → Writer
write_empty size p w =
    if ltb size (length p)
    then record w { buffer = []; writes = w.writes ++ p ∷ [] }
    else record w { buffer = p }

pub is_empty : Bytes → Bool
is_empty [] = true
is_empty (c ∷ cs) = false

-- `bw.Write(chunk)`; as the connection takes every write, all bytes are counted.
unfoldable pub write_chunk : ℕ → Writer → Bytes → Writer
unfolding write_empty is_empty
write_chunk size w p =
    let room = size - length w.buffer in
    let counted = record w { delivered = (w.delivered + length p) % 2 ^ 64 } in
    if leb (length p) room
    then record counted { buffer = w.buffer ++ p }
    else if is_empty w.buffer
    then write_empty size p counted
    else write_empty size (drop room p)
        (record counted { writes = w.writes ++ (w.buffer ++ take room p) ∷ [] })

write_chunks : ℕ → Writer → List Bytes → Writer
write_chunks size w [] = w
write_chunks size w (c ∷ cs) = write_chunks size (write_chunk size w c) cs

-- The loop up to the end of the channel or of the context, whichever it was, and the last flush.
unfoldable pub stream_chunks : ℕ → ℕ → List Bytes → Writer
unfolding write_chunks flush_in
stream_chunks size delivered chunks =
    let w = write_chunks size (record { buffer = []; writes = []; delivered = delivered }) chunks in
    flush_in w.buffer w
