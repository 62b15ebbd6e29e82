-- ===== src/Server/Batch/Failing.antt =====
-- internal/server/stream.go: `streamChunks` over a connection whose writes may fail. `bufio.Writer`
-- keeps the first error, and from then on takes nothing; the loop of `streamChunks` goes on.
pub mod Sent
use mathlib.Core.List.{flatten}
use teddycloud_spotify_radio.Base.{
  ℕ, zero, suc, ◌+◌, ◌-◌, ◌%◌, ◌^◌, ◌≤◌, ◌<◌, min, Bool, true, false, List, [], ◌∷◌, ◌++◌, Option,
  none, some, ◌≡◌, ◌⊎◌, inl, inr, refl, sym, ap, subst, ◌∙◌, arith, ltb, leb, if◌then◌else◌, length,
  length-append, append-nil, append_assoc, take, drop, take-append-drop, length-take, length-drop,
  Bool-cases, Option-cases, if-either,
}
use teddycloud_spotify_radio.Server.Batch.{Bytes, is_empty}

-- The buffer, what went out, whether a write failed, and the bytes that were counted as delivered.
pub record Sending : Type 0 where
  pub buffer : Bytes
  pub writes : List Bytes
  pub failed : Bool
  pub counted : ℕ

-- The connection, by the number of the write: it takes all, or some bytes and then fails.
module _ (link : ℕ → Option ℕ) (size : ℕ) where
  sent_as : Bytes → Sending → Option ℕ → Sending × ℕ
  sent_as p w none = (record w { writes = w.writes ++ p ∷ [] }, length p)
  sent_as p w (some n) = (
    record w { writes = w.writes ++ take (min n (length p)) p ∷ []; failed = true },
    min n (length p),
  )

  -- One write to the connection, and the bytes that it took.
  send : Bytes → Sending → Sending × ℕ
  unfolding sent_as
  send p w = sent_as p w (link (length w.writes))

  -- `Flush` with something in the buffer, and no error before.
  empty_out : Sending → Sending
  unfolding send
  empty_out w = let (w', n) = send w.buffer w in record w' { buffer = drop n w.buffer }

  flush_failing : Sending → Sending
  unfolding empty_out
  flush_failing w = if w.failed then w else if is_empty w.buffer then w else empty_out w

  -- The rest of `Write` with an empty buffer.
  write_rest : Bytes → Sending → Sending
  unfolding send
  write_rest p w =
      if ltb size (length p)
      then (let (w', n) = send p w in record w' { counted = w'.counted + n })
      else record w { buffer = p; counted = w.counted + length p }

  -- `bw.Write(chunk)` into a buffer that is full behind it.
  fill : Bytes → Sending → Sending
  unfolding empty_out write_rest
  fill p w =
      let room = size - length w.buffer in
      let w' =
        empty_out (record w { buffer = w.buffer ++ take room p; counted = w.counted + room }) in
      if w'.failed then w' else write_rest (drop room p) w'

  unfoldable pub write_failing : Sending → Bytes → Sending
  unfolding fill write_rest is_empty
  write_failing w p =
      if w.failed
      then w
      else if leb (length p) (size - length w.buffer)
      then record w { buffer = w.buffer ++ p; counted = w.counted + length p }
      else if is_empty w.buffer
      then write_rest p w
      else fill p w

  write_all : Sending → List Bytes → Sending
  unfolding write_failing
  write_all w [] = w
  write_all w (c ∷ cs) = write_all (write_failing w c) cs

  unfoldable pub stream_failing : List Bytes → Sending
  unfolding write_all flush_failing
  stream_failing chunks =
      flush_failing
        (write_all (record { buffer = []; writes = []; failed = false; counted = 0 }) chunks)
