-- ===== src/Server/Static/Flow.antt =====
-- The source of a tone between its start and its end.
use teddycloud_spotify_radio.Base.{
  ℕ, zero, suc, ◌+◌, ◌*◌, ◌≤◌, true, false, List, [], ◌∷◌, ltb, length, length-append, All,
  All-append, ◌≡◌, refl, ap, subst, arith, if-either,
}
use teddycloud_spotify_radio.Recorder.{Bytes}
use teddycloud_spotify_radio.Server.Static.{
  Tone, sine_from, sine_chunk, StaticSource, new_static_source, StaticEvent, generates, sees_stop,
  receives, closes, generate, receive_from, static_step, static_run,
}

length-sine_from :
    (tone : Tone) (hz rate amplitude left i : ℕ)
    → length (sine_from tone hz rate amplitude left i) ≡ 2 * left
unfolding sine_from
length-sine_from tone hz rate amplitude zero i = refl
length-sine_from tone hz rate amplitude (suc left) i =
    omega (arith, length-sine_from tone hz rate amplitude left (i + 1))

-- A chunk of the tone at this rate.
abbrev pub IsTone : Tone → ℕ → Bytes → Type 0
IsTone tone rate c = (c ≡ sine_chunk tone 440 rate 1024) × (length c ≡ 4096)

-- What waits in the channel is the tone, at most 16 chunks of it; and the generator runs at least
-- until the source is closed.
pub record IsFlowing (tone : Tone) (rate : ℕ) (s : StaticSource) : Type 0 where
  pub sends : IsTone tone rate s.chunk
  pub waiting : All (IsTone tone rate) s.ch
  pub room : length s.ch ≤ 16
  pub alive : s.stopped ≡ false → s.generating ≡ true

module _ (tone : Tone) (rate : ℕ) where
  new-IsFlowing : IsFlowing tone rate (new_static_source tone rate)
  unfolding new_static_source
  new-IsFlowing =
      let one : IsTone tone rate (sine_chunk tone 440 rate 1024) =
        (refl, unfold sine_chunk in length-sine_from tone 440 rate 1024 2048 0) in
      record {
        sends = one;
        waiting = (one, (one, (one, (one, tt))));
        room = omega arith;
        alive = λ e. refl;
      }

  generate-IsFlowing : (s : StaticSource) → IsFlowing tone rate s → IsFlowing tone rate (generate s)
  unfolding generate
  generate-IsFlowing s h =
      if-either (IsFlowing tone rate) s.generating
        (λ on.
          if-either (IsFlowing tone rate) (ltb (length s.ch) 16)
            (λ room. record {
              sends = h.sends;
              waiting = All-append (IsTone tone rate) s.ch (s.chunk ∷ []) h.waiting (h.sends, tt);
              room = ground (arith, length-append s.ch (s.chunk ∷ []));
              alive = h.alive;
            })
            (λ full. h))
        (λ off. h)

  receive-IsFlowing :
      (cs : List Bytes) (s : StaticSource)
      → s.ch ≡ cs
      → IsFlowing tone rate s
      → IsFlowing tone rate (receive_from cs s).0 × All (IsTone tone rate) (receive_from cs s).1
  unfolding receive_from
  receive-IsFlowing [] s e h = (h, tt)
  receive-IsFlowing (c ∷ cs) s e h =
      let waiting : All (IsTone tone rate) (c ∷ cs) = subst (All (IsTone tone rate)) e h.waiting in
      (
        record {
          sends = h.sends;
          waiting = waiting.1;
          room = omega (arith, h.room, ap (λ q. length q) e);
          alive = h.alive;
        },
        (waiting.0, tt),
      )

  step-IsFlowing :
      (s : StaticSource) (e : StaticEvent)
      → IsFlowing tone rate s
      → IsFlowing tone rate (static_step s e).0 × All (IsTone tone rate) (static_step s e).1
  unfolding static_step
  step-IsFlowing s generates h = (generate-IsFlowing s h, tt)
  step-IsFlowing s sees_stop h = (
    record { sends = h.sends; waiting = h.waiting; room = h.room; alive = ground (arith, h.alive) },
    tt,
  )
  step-IsFlowing s receives h = receive-IsFlowing s.ch s refl h
  step-IsFlowing s closes h =
      (record { sends = h.sends; waiting = h.waiting; room = h.room; alive = λ e. cc }, tt)

  run-IsFlowing :
      (es : List StaticEvent) (s : StaticSource)
      → IsFlowing tone rate s
      → IsFlowing tone rate (static_run s es).0 × All (IsTone tone rate) (static_run s es).1
  unfolding static_run
  run-IsFlowing [] s h = (h, tt)
  run-IsFlowing (e ∷ es) s h =
      let (k, first) = step-IsFlowing s e h in
      let (end, rest) = run-IsFlowing es (static_step s e).0 k in
      (end, All-append (IsTone tone rate) (static_step s e).1 _ first rest)

  -- Whatever the generator, the consumers and the owner of a new source do, in any order: every chunk
  -- that was received, and every one that waits, is the same 4096 bytes of the tone; at most 16 wait;
  -- and the generator goes on at least until the source is closed.
  pub static_run-IsFlowing :
      (es : List StaticEvent)
      → IsFlowing tone rate (static_run (new_static_source tone rate) es).0
        × All (IsTone tone rate) (static_run (new_static_source tone rate) es).1
  static_run-IsFlowing es = run-IsFlowing es (new_static_source tone rate) new-IsFlowing
