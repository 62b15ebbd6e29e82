-- ===== src/Recorder/Chunks.antt =====
-- The chunks that the pump cuts off, one after the other.
use mathlib.Core.List.{Sublist, flatten, sublist-append_left}
use mathlib.Core.List.Sublist
use teddycloud_spotify_radio.Base.{
  ℕ, zero, suc, ◌+◌, ◌≤◌, ◌<◌, true, false, List, [], ◌∷◌, ◌++◌, ◌≡◌, sym, ap, ◌∙◌, ◌⊎◌, inl, inr,
  arith, ltb, leb, length, take, drop, length-append, length-take, length-drop, take-append-drop,
  append_assoc, append-nil, All, All-append, Bool-cases, ℤ, pos, negsuc, positive_or,
}
use teddycloud_spotify_radio.Recorder.{
  Bytes, Recorder, chunk_size_of, buffer_len_of, u64, offer, emit,
}

-- `out` was received so far of the bytes `input`; `base` chunks were counted before.
pub record Holds (cs cap base : ℕ) (r : Recorder) (input : Bytes) (out : List Bytes) : Type 0 where
  pub chunks : List Bytes
  pub whole : input ≡ flatten chunks ++ r.acc
  pub sized : All (λ c. length c ≡ cs) chunks
  pub order : Sublist (out ++ r.queue) chunks
  pub counted : u64 (r.chunks_sent + r.dropped) ≡ u64 (base + length chunks)
  pub bounded : length r.queue ≤ cap
  pub chunk_size_is : chunk_size_of r ≡ cs
  pub buffer_len_is : buffer_len_of r ≡ cap
  pub idle : (r.started ≡ true) ⊎ ((r.acc ≡ []) × (r.pumping ≡ false))

flatten-concat :
    (xs : List Bytes) (c rest : Bytes) → flatten (xs ++ c ∷ []) ++ rest ≡ flatten xs ++ (c ++ rest)
unfolding flatten
flatten-concat [] c rest = simp append-nil
flatten-concat (x ∷ xs) c rest = simp (append_assoc, flatten-concat xs c rest)

offer-started : (r : Recorder) (c : Bytes) → (offer r c).started ≡ r.started
unfolding offer
offer-started r c = ground arith

offer-acc :
    (r : Recorder) (c : Bytes)
    → ((offer r c).acc ≡ r.acc) × (chunk_size_of (offer r c) ≡ chunk_size_of r)
unfolding offer
offer-acc r c = ground arith

pub chunk_size_pos : (r : Recorder) → 0 < chunk_size_of r
chunk_size_pos r = positive r.chunk_size
  where
    positive : (z : ℤ) → 0 < positive_or z 4096
    positive (pos zero) = omega arith
    positive (pos (suc n)) = omega arith
    positive (negsuc n) = omega arith

-- The loop of `emit` ends by its test: as many rounds as there are bytes are enough.
pub emit-short :
    (fuel : ℕ) (r : Recorder) → length r.acc ≤ fuel → length (emit fuel r).acc < chunk_size_of r
unfolding emit
emit-short zero r h = omega (arith, chunk_size_pos r)
emit-short (suc fuel) r h = ground (
  arith,
  chunk_size_pos r,
  length-drop (chunk_size_of r) r.acc,
  offer-acc (record r { acc = drop (chunk_size_of r) r.acc }) (take (chunk_size_of r) r.acc),
  emit-short fuel
      (offer (record r { acc = drop (chunk_size_of r) r.acc }) (take (chunk_size_of r) r.acc)),
)

module _ (cs cap base : ℕ) where
  offer-Holds :
      (r : Recorder) (chunk rest input : Bytes) (out : List Bytes)
      → Holds cs cap base r input out
      → r.acc ≡ chunk ++ rest
      → length chunk ≡ cs
      → r.started ≡ true
      → Holds cs cap base (offer (record r { acc = rest }) chunk) input out
  unfolding offer
  offer-Holds r chunk rest input out h split sized running =
      elim (Bool-cases (ltb (length r.queue) (buffer_len_of r))) [
        | inl room ↦ rw room (record {
          chunks = chunks;
          whole = whole;
          sized = all_sized;
          order =
              rw (← append_assoc out r.queue (chunk ∷ []))
                (Sublist.append h.order (Sublist.refl (chunk ∷ [])));
          counted = omega (arith, h.counted, longer);
          bounded = ground (arith, h.buffer_len_is, length-append r.queue (chunk ∷ []));
          chunk_size_is = h.chunk_size_is;
          buffer_len_is = h.buffer_len_is;
          idle = inl running;
        })
        | inr full ↦ rw full (record {
          chunks = chunks;
          whole = whole;
          sized = all_sized;
          order = Sublist.trans h.order (sublist-append_left h.chunks (chunk ∷ []));
          counted = omega (arith, h.counted, longer);
          bounded = h.bounded;
          chunk_size_is = h.chunk_size_is;
          buffer_len_is = h.buffer_len_is;
          idle = inl running;
        })
      ]
    where
      chunks : List Bytes
      chunks = h.chunks ++ chunk ∷ []

      whole : input ≡ flatten chunks ++ rest
      whole =
          h.whole ∙ ap (λ a. flatten h.chunks ++ a) split ∙ sym (flatten-concat h.chunks chunk rest)

      all_sized : All (λ c. length c ≡ cs) chunks
      all_sized = All-append _ h.chunks (chunk ∷ []) h.sized (sized, tt)

      longer : length chunks ≡ length h.chunks + 1
      longer = length-append h.chunks (chunk ∷ [])

  pub emit-Holds :
      (fuel : ℕ) (r : Recorder) (input : Bytes) (out : List Bytes)
      → Holds cs cap base r input out
      → r.started ≡ true
      → Holds cs cap base (emit fuel r) input out
  unfolding emit
  emit-Holds zero r input out h running = h
  emit-Holds (suc fuel) r input out h running =
      elim (Bool-cases (leb (chunk_size_of r) (length r.acc))) [
        | inl more ↦ rw more (
            emit-Holds fuel _ input out
              (offer-Holds r (take (chunk_size_of r) r.acc) (drop (chunk_size_of r) r.acc) input out
                h (sym (take-append-drop (chunk_size_of r) r.acc))
                (ground (arith, length-take (chunk_size_of r) r.acc, h.chunk_size_is)) running)
              (offer-started (record r { acc = drop (chunk_size_of r) r.acc })
                  (take (chunk_size_of r) r.acc)
                ∙ running))
        | inr done ↦ rw done h
      ]
