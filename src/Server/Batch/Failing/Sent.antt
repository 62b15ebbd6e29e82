-- ===== src/Server/Batch/Failing/Sent.antt =====
-- What went out when a write failed.
use mathlib.Core.List.{flatten}
use teddycloud_spotify_radio.Base.{
  ℕ, ◌+◌, ◌-◌, ◌≤◌, min, true, false, List, [], ◌∷◌, ◌++◌, Option, ◌≡◌, inl, inr, refl, sym, ap,
  subst, ◌∙◌, arith, ltb, leb, if◌then◌else◌, length, length-append, append-nil, append_assoc, take,
  drop, take-append-drop, length-take, Bool-cases, Option-cases, if-either,
}
use teddycloud_spotify_radio.Server.Batch.{Bytes, is_empty}
use teddycloud_spotify_radio.Server.Batch.Failing.{
  Sending, sent_as, send, empty_out, flush_failing, write_rest, fill, write_failing, write_all,
  stream_failing,
}

-- What went out is the beginning of what came in; what is missing is in the buffer, unless a write
-- failed; and at least what went out was counted, at most what came in.
pub record IsSent (input : Bytes) (w : Sending) : Type 0 where
  pub missing : Bytes
  pub beginning : flatten w.writes ++ missing ≡ input
  pub held : w.failed ≡ false → (missing ≡ w.buffer) × (w.counted ≡ length input)
  pub at_least : length (flatten w.writes) ≤ w.counted
  pub at_most : w.counted ≤ length input

flatten_one : (bs : List Bytes) (b : Bytes) → flatten (bs ++ b ∷ []) ≡ flatten bs ++ b
unfolding flatten
flatten_one [] b = append-nil b
flatten_one (x ∷ bs) b = rw (flatten_one bs b) (sym (append_assoc x (flatten bs) b))

-- More input behind a failure.
more-IsSent :
    (input p : Bytes) (w : Sending) → w.failed ≡ true → IsSent input w → IsSent (input ++ p) w
more-IsSent input p w bad h = record {
  missing = h.missing ++ p;
  beginning = sym (append_assoc (flatten w.writes) h.missing p) ∙ ap (λ x. x ++ p) h.beginning;
  held = λ ok. cc;
  at_least = h.at_least;
  at_most = omega (arith, h.at_most, length-append input p);
}

-- Input that fits into the buffer.
held-IsSent :
    (input p : Bytes) (w : Sending)
    → w.failed ≡ false
    → IsSent input w
    → IsSent (input ++ p) (record w { buffer = w.buffer ++ p; counted = w.counted + length p })
held-IsSent input p w ok h = record {
  missing = w.buffer ++ p;
  beginning =
      ap (λ m. flatten w.writes ++ (m ++ p)) (sym (h.held ok).0)
      ∙ sym (append_assoc (flatten w.writes) h.missing p)
      ∙ ap (λ x. x ++ p) h.beginning;
  held = λ good. (refl, omega (arith, (h.held ok).1, length-append input p));
  at_least = omega (arith, h.at_least);
  at_most = omega (arith, h.at_most, length-append input p);
}

drop_all : (b : Bytes) → drop (length b) b ≡ []
drop_all [] = refl
drop_all (x ∷ b) = drop_all b

-- A write that went out as a whole, and one that failed behind `k` bytes.
whole-IsSent :
    (input p buffer : Bytes) (counted : ℕ) (w : Sending)
    → buffer ≡ []
    → counted ≡ length input
    → flatten w.writes ++ p ≡ input
    → IsSent input (record w { buffer = buffer; writes = w.writes ++ p ∷ []; counted = counted })
whole-IsSent input p buffer counted w none_left all e = record {
  missing = buffer;
  beginning =
      ap (λ b. flatten (w.writes ++ p ∷ []) ++ b) none_left
      ∙ append-nil _
      ∙ flatten_one w.writes p
      ∙ e;
  held = λ good. (refl, all);
  at_least = omega (arith, all, ap (λ x. length x) (flatten_one w.writes p ∙ e));
  at_most = omega (arith, all);
}

cut-IsSent :
    (input p buffer : Bytes) (k counted : ℕ) (w : Sending)
    → flatten w.writes ++ p ≡ input
    → length (flatten w.writes) + length (take k p) ≤ counted
    → counted ≤ length input
    → IsSent input (record w {
      buffer = buffer;
      writes = w.writes ++ take k p ∷ [];
      failed = true;
      counted = counted;
    })
cut-IsSent input p buffer k counted w e low high = record {
  missing = drop k p;
  beginning =
      ap (λ x. x ++ drop k p) (flatten_one w.writes (take k p))
      ∙ append_assoc (flatten w.writes) (take k p) (drop k p)
      ∙ ap (λ x. flatten w.writes ++ x) (take-append-drop k p)
      ∙ e;
  held = λ good. cc;
  at_least = omega (
    arith,
    low,
    ap (λ x. length x) (flatten_one w.writes (take k p)),
    length-append (flatten w.writes) (take k p),
  );
  at_most = high;
}

nil_of_empty : (b : Bytes) → is_empty b ≡ true → b ≡ []
unfolding is_empty
nil_of_empty [] e = refl
nil_of_empty (c ∷ cs) e = cc

module _ (link : ℕ → Option ℕ) (size : ℕ) where
  whole_of :
      {input : Bytes} (w : Sending)
      → w.failed ≡ false
      → IsSent input w
      → flatten w.writes ++ w.buffer ≡ input
  whole_of w ok h = ap (λ m. flatten w.writes ++ m) (sym (h.held ok).0) ∙ h.beginning

  low_of :
      {input : Bytes} (n : ℕ) (w : Sending)
      → w.failed ≡ false
      → IsSent input w
      → length (flatten w.writes) + length (take (min n (length w.buffer)) w.buffer) ≤ w.counted
  low_of n w ok h = omega (
    arith,
    (h.held ok).1,
    length-take (min n (length w.buffer)) w.buffer,
    ap (λ x. length x) (whole_of w ok h),
    length-append (flatten w.writes) w.buffer,
  )

  empty_out-IsSent :
      (input : Bytes) (w : Sending)
      → w.failed ≡ false
      → IsSent input w
      → IsSent input (empty_out link size w)
        × ((empty_out link size w).failed ≡ false → (empty_out link size w).buffer ≡ [])
  unfolding empty_out send sent_as
  empty_out-IsSent input w ok h = elim (Option-cases (link (length w.writes))) [
    | inl e ↦ rw e (
      whole-IsSent input w.buffer _ w.counted w (drop_all w.buffer) (h.held ok).1 (whole_of w ok h),
      λ good. drop_all w.buffer,
    )
    | inr (n, e) ↦ rw e (
      cut-IsSent input w.buffer _ _ w.counted w (whole_of w ok h) (low_of n w ok h) h.at_most,
      λ good. cc,
    )
  ]

  extended :
      {input : Bytes} (w : Sending) (p : Bytes)
      → w.failed ≡ false
      → w.buffer ≡ []
      → IsSent input w
      → flatten w.writes ++ p ≡ input ++ p
  extended w p ok nil h =
      ap (λ x. x ++ p)
        (sym (append-nil (flatten w.writes))
          ∙ ap (λ b. flatten w.writes ++ b) (sym nil)
          ∙ whole_of w ok h)

  write_rest-IsSent :
      (input p : Bytes) (w : Sending)
      → w.failed ≡ false
      → w.buffer ≡ []
      → IsSent input w
      → IsSent (input ++ p) (write_rest link size p w)
  unfolding write_rest send sent_as
  write_rest-IsSent input p w ok nil h = elim (Bool-cases (ltb size (length p))) [
    | inr short ↦ rw short (
        subst
          (λ b. IsSent (input ++ p) (record w { buffer = b ++ p; counted = w.counted + length p }))
          nil (held-IsSent input p w ok h))
    | inl long ↦ rw long (elim (Option-cases (link (length w.writes))) [
      | inl e ↦ rw e (
          whole-IsSent (input ++ p) p w.buffer _ w nil
            (omega (arith, (h.held ok).1, length-append input p)) (extended w p ok nil h))
      | inr (n, e) ↦ rw e (
          cut-IsSent (input ++ p) p w.buffer _ _ w (extended w p ok nil h)
            (omega (arith, h.at_least, length-take (min n (length p)) p))
            (omega (arith, h.at_most, length-append input p)))
    ])
  ]

  fill-IsSent :
      (input p : Bytes) (w : Sending)
      → w.failed ≡ false
      → length (take (size - length w.buffer) p) ≡ size - length w.buffer
      → IsSent input w
      → IsSent (input ++ p) (fill link size p w)
  unfolding fill
  fill-IsSent input p w ok long h =
      let room = size - length w.buffer in
      let filled : Sending = record w {
        buffer = w.buffer ++ take room p;
        counted = w.counted + room;
      } in
      let h1 : IsSent (input ++ take room p) filled =
        subst
          (λ n.
            IsSent (input ++ take room p)
              (record w { buffer = w.buffer ++ take room p; counted = w.counted + n }))
          long (held-IsSent input (take room p) w ok h) in
      let out : Sending = empty_out link size filled in
      let (h2, nil) = empty_out-IsSent (input ++ take room p) filled ok h1 in
      let all : (input ++ take room p) ++ drop room p ≡ input ++ p =
        append_assoc input (take room p) (drop room p)
        ∙ ap (λ x. input ++ x) (take-append-drop room p) in
      subst (λ i. IsSent i (if out.failed then out else write_rest link size (drop room p) out)) all
        (if-either (IsSent ((input ++ take room p) ++ drop room p)) out.failed
          (λ bad. more-IsSent (input ++ take room p) (drop room p) out bad h2)
          (λ good. write_rest-IsSent (input ++ take room p) (drop room p) out good (nil good) h2))

  write_failing-IsSent :
      (input p : Bytes) (w : Sending)
      → IsSent input w
      → IsSent (input ++ p) (write_failing link size w p)
  unfolding write_failing
  write_failing-IsSent input p w h =
      if-either (IsSent (input ++ p)) w.failed (λ bad. more-IsSent input p w bad h)
        (λ ok.
          if-either (IsSent (input ++ p)) (leb (length p) (size - length w.buffer))
            (λ fits. held-IsSent input p w ok h)
            (λ over.
              if-either (IsSent (input ++ p)) (is_empty w.buffer)
                (λ nil. write_rest-IsSent input p w ok (nil_of_empty w.buffer nil) h)
                (λ some_held.
                  fill-IsSent input p w ok (ground (arith, length-take (size - length w.buffer) p))
                    h)))

  write_all-IsSent :
      (chunks : List Bytes) (input : Bytes) (w : Sending)
      → IsSent input w
      → IsSent (input ++ flatten chunks) (write_all link size w chunks)
  unfolding write_all flatten
  write_all-IsSent [] input w h = subst (λ i. IsSent i w) (sym (append-nil input)) h
  write_all-IsSent (c ∷ cs) input w h =
      subst (λ i. IsSent i (write_all link size (write_failing link size w c) cs))
        (append_assoc input c (flatten cs))
        (write_all-IsSent cs (input ++ c) (write_failing link size w c)
          (write_failing-IsSent input c w h))

  flush_failing-IsSent :
      (input : Bytes) (w : Sending)
      → IsSent input w
      → IsSent input (flush_failing link size w)
        × ((flush_failing link size w).failed ≡ false → (flush_failing link size w).buffer ≡ [])
  unfolding flush_failing
  flush_failing-IsSent input w h =
      if-either (λ v. IsSent input v × (v.failed ≡ false → v.buffer ≡ [])) w.failed
        (λ bad. (h, λ good. cc))
        (λ ok.
          if-either (λ v. IsSent input v × (v.failed ≡ false → v.buffer ≡ [])) (is_empty w.buffer)
            (λ nil. (h, λ good. nil_of_empty w.buffer nil))
            (λ some_held. empty_out-IsSent input w ok h))

-- Whenever and however the writes to the connection fail, what went out of `streamChunks` is the
-- beginning of the bytes of its chunks, and at least that much was counted; without a failure all of
-- it went out and was counted.
pub stream_failing-IsSent :
    (link : ℕ → Option ℕ) (size : ℕ) (chunks : List Bytes)
    → IsSent (flatten chunks) (stream_failing link size chunks)
      × ((stream_failing link size chunks).failed ≡ false
          → flatten (stream_failing link size chunks).writes ≡ flatten chunks)
unfolding stream_failing flatten
stream_failing-IsSent link size chunks =
    let w : Sending = record { buffer = []; writes = []; failed = false; counted = 0 } in
    let h0 : IsSent [] w = record {
      missing = [];
      beginning = refl;
      held = λ good. (refl, refl);
      at_least = omega arith;
      at_most = omega arith;
    } in
    let (h, nil) =
      flush_failing-IsSent link size (flatten chunks) (write_all link size w chunks)
        (write_all-IsSent link size chunks [] w h0) in
    (
      h,
      λ ok.
          sym (append-nil _)
          ∙ ap (λ m. flatten (stream_failing link size chunks).writes ++ m)
              (sym ((h.held ok).0 ∙ nil ok))
          ∙ h.beginning,
    )
