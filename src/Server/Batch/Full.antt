-- ===== src/Server/Batch/Full.antt =====
-- The batches of `streamChunks`.
use mathlib.Core.List.{flatten}
use teddycloud_spotify_radio.Base.{
  ℕ, ◌+◌, ◌-◌, ◌%◌, ◌^◌, ◌≤◌, ◌<◌, true, List, [], ◌∷◌, ◌++◌, ◌≡◌, refl, sym, ap, subst, ◌∙◌, arith,
  ltb, leb, length, length-append, append-nil, append_assoc, take, drop, take-append-drop,
  length-take, All, All-append, Bool-cases, inl, inr,
}
use teddycloud_spotify_radio.Server.Batch.{
  Bytes, Writer, flush_in, write_empty, is_empty, write_chunk, write_chunks, stream_chunks,
}

-- Between two writes: nothing is lost or reordered, and every write so far was a full batch.
record IsBatched (size : ℕ) (input : Bytes) (writes : List Bytes) (buffer : Bytes) : Type 0 where
  whole : flatten writes ++ buffer ≡ input
  full : All (λ b. size ≤ length b) writes
  room : length buffer ≤ size

abbrev IsBatchedIn : ℕ → Bytes → Writer → Type 0
IsBatchedIn size input w = IsBatched size input w.writes w.buffer

flatten_one : (bs : List Bytes) (b : Bytes) → flatten (bs ++ b ∷ []) ≡ flatten bs ++ b
unfolding flatten
flatten_one [] b = append-nil b
flatten_one (x ∷ bs) b = rw (flatten_one bs b) (sym (append_assoc x (flatten bs) b))

count : (start n m d : ℕ) → d ≡ (start + n) % 2 ^ 64 → (d + m) % 2 ^ 64 ≡ (start + (n + m)) % 2 ^ 64
count start n m d e = omega arith

module _ (size : ℕ) (input : Bytes) (writes : List Bytes) where
  held-IsBatched :
      (b p : Bytes)
      → IsBatched size input writes b
      → length b + length p ≤ size
      → IsBatched size (input ++ p) writes (b ++ p)
  held-IsBatched b p h fits = record {
    whole = sym (append_assoc (flatten writes) b p) ∙ ap (λ x. x ++ p) h.whole;
    full = h.full;
    room = omega (arith, length-append b p);
  }

  written-IsBatched :
      (b p : Bytes)
      → IsBatched size input writes b
      → size ≤ length (b ++ p)
      → IsBatched size (input ++ p) (writes ++ (b ++ p) ∷ []) []
  written-IsBatched b p h long = record {
    whole =
        append-nil _
        ∙ flatten_one writes (b ++ p)
        ∙ sym (append_assoc (flatten writes) b p)
        ∙ ap (λ x. x ++ p) h.whole;
    full = All-append _ writes ((b ++ p) ∷ []) h.full (long, tt);
    room = omega arith;
  }

write_empty-IsBatched :
    (size : ℕ) (input p : Bytes) (w : Writer)
    → IsBatched size input w.writes []
    → IsBatchedIn size (input ++ p) (write_empty size p w)
unfolding write_empty
write_empty-IsBatched size input p w h = elim (Bool-cases (ltb size (length p))) [
  | inl long ↦ rw long (written-IsBatched size input w.writes [] p h (ground arith))
  | inr short ↦ rw short (held-IsBatched size input w.writes [] p h (ground arith))
]

nil_of_empty : (b : Bytes) → is_empty b ≡ true → b ≡ []
unfolding is_empty
nil_of_empty [] e = refl
nil_of_empty (c ∷ cs) e = cc

write_chunk-IsBatched :
    (size : ℕ) (input p : Bytes) (w : Writer)
    → IsBatchedIn size input w
    → IsBatchedIn size (input ++ p) (write_chunk size w p)
unfolding write_chunk
write_chunk-IsBatched size input p w h =
    elim (Bool-cases (leb (length p) (size - length w.buffer))) [
      | inl fits ↦
          rw fits (held-IsBatched size input w.writes w.buffer p h (let r = h.room in ground arith))
      | inr full ↦ elim (Bool-cases (is_empty w.buffer)) [
        | inl none_held ↦
            rw (full, none_held)
              (write_empty-IsBatched size input p
                (record w { delivered = (w.delivered + length p) % 2 ^ 64 })
                (subst (IsBatched size input w.writes) (nil_of_empty w.buffer none_held) h))
        | inr some_held ↦
            rw (full, some_held)
              (subst
                (λ i. IsBatchedIn size i (
                  write_empty size (drop (size - length w.buffer) p) (record w {
                    writes = w.writes ++ (w.buffer ++ take (size - length w.buffer) p) ∷ [];
                    delivered = (w.delivered + length p) % 2 ^ 64;
                  })))
                (append_assoc input (take (size - length w.buffer) p)
                    (drop (size - length w.buffer) p)
                  ∙ ap (λ x. input ++ x) (take-append-drop (size - length w.buffer) p))
                (write_empty-IsBatched size (input ++ take (size - length w.buffer) p)
                  (drop (size - length w.buffer) p)
                  (record w {
                    writes = w.writes ++ (w.buffer ++ take (size - length w.buffer) p) ∷ [];
                    delivered = (w.delivered + length p) % 2 ^ 64;
                  })
                  (written-IsBatched size input w.writes w.buffer (take (size - length w.buffer) p)
                    h
                    (let r = h.room in
                      ground (
                        arith,
                        length-append w.buffer (take (size - length w.buffer) p),
                        length-take (size - length w.buffer) p,
                      )))))
      ]
    ]

write_empty_delivered :
    (size : ℕ) (p : Bytes) (w : Writer) → (write_empty size p w).delivered ≡ w.delivered
unfolding write_empty
write_empty_delivered size p w = ground arith

write_chunk_delivered :
    (size : ℕ) (w : Writer) (p : Bytes)
    → (write_chunk size w p).delivered ≡ (w.delivered + length p) % 2 ^ 64
unfolding write_chunk write_empty
write_chunk_delivered size w p = ground arith

write_chunks-IsBatched :
    (size : ℕ) (chunks : List Bytes) (input : Bytes) (w : Writer)
    → IsBatchedIn size input w
    → IsBatchedIn size (input ++ flatten chunks) (write_chunks size w chunks)
unfolding write_chunks flatten
write_chunks-IsBatched size [] input w h = rw append-nil h
write_chunks-IsBatched size (c ∷ cs) input w h =
    subst (λ i. IsBatchedIn size i (write_chunks size (write_chunk size w c) cs))
      (append_assoc input c (flatten cs))
      (write_chunks-IsBatched size cs (input ++ c) (write_chunk size w c)
        (write_chunk-IsBatched size input c w h))

write_chunks_delivered :
    (size : ℕ) (chunks : List Bytes) (w : Writer) (start n : ℕ)
    → w.delivered ≡ (start + n) % 2 ^ 64
    → (write_chunks size w chunks).delivered ≡ (start + (n + length (flatten chunks))) % 2 ^ 64
unfolding write_chunks flatten
write_chunks_delivered size [] w start n e = e ∙ ap (λ m. m % 2 ^ 64) (omega arith)
write_chunks_delivered size (c ∷ cs) w start n e =
    write_chunks_delivered size cs (write_chunk size w c) start (n + length c)
      (write_chunk_delivered size w c ∙ count start n (length c) w.delivered e)
    ∙ ap (λ m. m % 2 ^ 64) (omega (arith, length-append c (flatten cs)))

-- What goes out on the connection: all bytes in their order, in batches of `size` bytes at least but
-- for the last one, and all of them counted.
pub record Batched (size start : ℕ) (input : Bytes) (w : Writer) : Type 0 where
  pub batches : List Bytes
  pub last : List Bytes
  pub written : w.writes ≡ batches ++ last
  pub whole : flatten w.writes ≡ input
  pub full : All (λ b. size ≤ length b) batches
  pub one : length last ≤ 1
  pub emptied : w.buffer ≡ []
  pub counted : w.delivered ≡ (start + length input) % 2 ^ 64

flush_in-Batched :
    (size start : ℕ) (input b : Bytes) (w : Writer)
    → b ≡ w.buffer
    → IsBatchedIn size input w
    → w.delivered ≡ (start + length input) % 2 ^ 64
    → Batched size start input (flush_in b w)
unfolding flush_in
flush_in-Batched size start input [] w e h c = record {
  batches = w.writes;
  last = [];
  written = sym (append-nil w.writes);
  whole = sym (append-nil (flatten w.writes)) ∙ ap (λ x. flatten w.writes ++ x) e ∙ h.whole;
  full = h.full;
  one = omega arith;
  emptied = sym e;
  counted = c;
}
flush_in-Batched size start input (x ∷ b) w e h c = record {
  batches = w.writes;
  last = (x ∷ b) ∷ [];
  written = refl;
  whole = flatten_one w.writes (x ∷ b) ∙ ap (λ a. flatten w.writes ++ a) e ∙ h.whole;
  full = h.full;
  one = omega arith;
  emptied = refl;
  counted = c;
}

-- Whatever the sizes of the chunks are, `streamChunks` writes their bytes in their order, every write
-- but the last has at least `size` bytes, and the counter has grown by their number (mod 2 ^ 64).
pub stream_chunks-Batched :
    (size delivered : ℕ) (chunks : List Bytes)
    → delivered < 2 ^ 64
    → Batched size delivered (flatten chunks) (stream_chunks size delivered chunks)
unfolding stream_chunks flatten
stream_chunks-Batched size delivered chunks b =
    flush_in-Batched size delivered (flatten chunks) _
      (write_chunks size (record { buffer = []; writes = []; delivered = delivered }) chunks) refl
      (write_chunks-IsBatched size chunks []
        (record { buffer = []; writes = []; delivered = delivered })
        (record { whole = refl; full = tt; room = omega arith }))
      (write_chunks_delivered size chunks
          (record { buffer = []; writes = []; delivered = delivered }) delivered 0
          (omega (arith, b))
        ∙ ap (λ m. m % 2 ^ 64) (omega arith))
