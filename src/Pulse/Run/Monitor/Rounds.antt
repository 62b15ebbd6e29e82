-- ===== src/Pulse/Run/Monitor/Rounds.antt =====
-- How a step changes what a state says of the abstract monitor, by the place of the step.
use teddycloud_spotify_radio.Base.{
  ℕ, ◌+◌, ◌^◌, ◌<◌, Bool, true, false, List, [], ◌∷◌, ◌++◌, none, some, length, length-append,
  append_assoc, append-nil, ◌≡◌, ◌⊎◌, refl, sym, ap, subst, ◌∙◌, arith, pos,
}
use teddycloud_spotify_radio.Backoff.{next_backoff}
use teddycloud_spotify_radio.Backoff.Schedule.{delay, delay-step, schedule, schedule-next}
use teddycloud_spotify_radio.Pulse.Daemon.{World, pulse_not_ready}
use teddycloud_spotify_radio.Pulse.Run.{
  Place, head, starting, announcing, probing, doubting, mourning, burying, sleeping, State, word,
  Halting, uncalled,
}
use teddycloud_spotify_radio.Pulse.Run.Monitor.{
  Monitor, history, said, shown, begun, asleep, Fits, Refines,
}

some_told : {ok told : Bool} → some ok ≡ some told → told ≡ ok
some_told e = cc

plus_zero : (n : ℕ) → n + 0 ≡ n
plus_zero n = omega arith

history-append : (xs ys : List Bool) → history (xs ++ ys) ≡ history xs ++ history ys
history-append [] ys = refl
history-append (x ∷ xs) ys = ap (λ l. word x ∷ pulse_not_ready ∷ l) (history-append xs ys)

module _ (first cap : ℕ) (h0 : 0 < first) (hc : 0 < cap) (hm : cap < 2 ^ 63) where
  pub attempts-Refines :
      (m : Monitor) (s : State)
      → s.place ≡ head
      → Refines first cap m s
      → Refines first cap m (record s { attempt = s.attempt + 1; place = starting })
  attempts-Refines m s e h = record {
    fits = subst (λ l. Fits l m.current) e h.fits;
    over_is = h.over_is;
    attempt_is = ground (arith, h.attempt_is);
    reports_are = ground (arith, h.reports_are);
    slept_is = ground (arith, h.slept_is);
    backoff_is = h.backoff_is;
    ready_is = ground (arith, h.ready_is);
    flag_is = h.flag_is;
    ready_only = ground (arith, h.ready_only);
  }

  pub comes_up-Refines :
      (m : Monitor) (s : State) (w : World)
      → s.place ≡ starting
      → Refines first cap m s
      → Refines first cap
          (record m { current = some true })
          (record s { world = w; ready = true; place = announcing true })
  comes_up-Refines m s w e h = record {
    fits = refl;
    over_is = h.over_is;
    attempt_is = ground (arith, h.attempt_is);
    reports_are = ground (arith, h.reports_are);
    slept_is = ground (arith, h.slept_is);
    backoff_is = h.backoff_is;
    ready_is = λ stopping. refl;
    flag_is = h.flag_is;
    ready_only = λ ready. refl;
  }

  pub stays_down-Refines :
      (m : Monitor) (s : State) (w : World)
      → s.place ≡ starting
      → Refines first cap m s
      → Refines first cap
          (record m { current = some false })
          (record s { world = w; ready = false; place = announcing false })
  stays_down-Refines m s w e h = record {
    fits = refl;
    over_is = h.over_is;
    attempt_is = ground (arith, h.attempt_is);
    reports_are = ground (arith, h.reports_are);
    slept_is = ground (arith, h.slept_is);
    backoff_is = h.backoff_is;
    ready_is = λ stopping. refl;
    flag_is = h.flag_is;
    ready_only = λ ready. ready;
  }

  -- What the fields say at the place where the step begins.
  pub at_place :
      (m : Monitor) (s : State) (l : Place)
      → s.place ≡ l
      → Refines first cap m s
      → Refines first cap m (record s { place = l })
  at_place m s l e h = record {
    fits = subst (λ l. Fits l m.current) e h.fits;
    over_is = h.over_is;
    attempt_is = subst (λ l. s.attempt ≡ length m.rounds + begun l) e h.attempt_is;
    reports_are = subst (λ l. s.reports ≡ history m.rounds ++ said l m.current) e h.reports_are;
    slept_is =
        subst (λ l. s.slept ≡ schedule first cap 0 (length m.rounds + asleep l)) e h.slept_is;
    backoff_is = h.backoff_is;
    ready_is = subst (λ l. s.stopping ≡ false → s.ready ≡ shown l m.current) e h.ready_is;
    flag_is = h.flag_is;
    ready_only = subst (λ l. s.ready ≡ true → shown l m.current ≡ true) e h.ready_only;
  }

  abbrev pub within : List Bool → Bool → Bool → Monitor
  within rs ok over = record { rounds = rs; current = some ok; over = over }

  pub announces-Refines :
      (rs : List Bool) (ok told over : Bool) (s : State)
      → Refines first cap (within rs ok over) (record s { place = announcing told })
      → Refines first cap
          (within rs ok over)
          (record s { reports = s.reports ++ word told ∷ []; place = probing })
  announces-Refines rs ok told over s h = record {
    fits = (ok, refl);
    over_is = h.over_is;
    attempt_is = h.attempt_is;
    reports_are =
        ap (λ l. l ++ word told ∷ []) (h.reports_are ∙ append-nil (history rs))
        ∙ ap (λ k. history rs ++ word k ∷ []) (some_told h.fits);
    slept_is = h.slept_is;
    backoff_is = h.backoff_is;
    ready_is = λ stopping. h.ready_is stopping ∙ some_told h.fits;
    flag_is = h.flag_is;
    ready_only = λ ready. sym (some_told h.fits) ∙ h.ready_only ready;
  }

  pub probes_dead-Refines :
      (rs : List Bool) (ok over : Bool) (s : State)
      → Refines first cap (within rs ok over) (record s { place = probing })
      → Refines first cap (within rs ok over) (record s { place = doubting })
  probes_dead-Refines rs ok over s h = record {
    fits = (ok, refl);
    over_is = h.over_is;
    attempt_is = h.attempt_is;
    reports_are = h.reports_are;
    slept_is = h.slept_is;
    backoff_is = h.backoff_is;
    ready_is = h.ready_is;
    flag_is = h.flag_is;
    ready_only = h.ready_only;
  }

  pub goes_on-Refines :
      (rs : List Bool) (ok over : Bool) (s : State)
      → Refines first cap (within rs ok over) (record s { place = doubting })
      → Refines first cap (within rs ok over) (record s { place = mourning })
  goes_on-Refines rs ok over s h = record {
    fits = (ok, refl);
    over_is = h.over_is;
    attempt_is = h.attempt_is;
    reports_are = h.reports_are;
    slept_is = h.slept_is;
    backoff_is = h.backoff_is;
    ready_is = h.ready_is;
    flag_is = h.flag_is;
    ready_only = h.ready_only;
  }

  pub mourns-Refines :
      (rs : List Bool) (ok over : Bool) (s : State)
      → Refines first cap (within rs ok over) (record s { place = mourning })
      → Refines first cap (within rs ok over) (record s { ready = false; place = burying })
  mourns-Refines rs ok over s h = record {
    fits = (ok, refl);
    over_is = h.over_is;
    attempt_is = h.attempt_is;
    reports_are = h.reports_are;
    slept_is = h.slept_is;
    backoff_is = h.backoff_is;
    ready_is = λ stopping. refl;
    flag_is = h.flag_is;
    ready_only = λ ready. ready;
  }

  pub buries-Refines :
      (rs : List Bool) (ok over : Bool) (s : State)
      → Refines first cap (within rs ok over) (record s { place = burying })
      → Refines first cap (within rs ok over) (record s {
        reports = s.reports ++ pulse_not_ready ∷ [];
        slept = s.slept ++ s.backoff ∷ [];
        place = sleeping;
      })
  buries-Refines rs ok over s h = record {
    fits = (ok, refl);
    over_is = h.over_is;
    attempt_is = h.attempt_is;
    reports_are =
        ap (λ l. l ++ pulse_not_ready ∷ []) h.reports_are
        ∙ append_assoc (history rs) (word ok ∷ []) (pulse_not_ready ∷ []);
    slept_is =
        rw (h.slept_is, h.backoff_is)
          (ap (λ i. schedule first cap 0 i ++ delay first cap (length rs) ∷ [])
              (plus_zero (length rs))
            ∙ schedule-next first cap (length rs));
    backoff_is = h.backoff_is;
    ready_is = h.ready_is;
    flag_is = h.flag_is;
    ready_only = h.ready_only;
  }

  pub wakes-Refines :
      (rs : List Bool) (ok over : Bool) (s : State)
      → Refines first cap (within rs ok over) (record s { place = sleeping })
      → Refines first cap
          (record { rounds = rs ++ ok ∷ []; current = none; over = over })
          (record s { backoff = next_backoff s.backoff (pos cap); place = head })
  wakes-Refines rs ok over s h = record {
    fits = refl;
    over_is = h.over_is;
    attempt_is = ground (arith, h.attempt_is, length-append rs (ok ∷ []));
    reports_are =
        h.reports_are
        ∙ sym (history-append rs (ok ∷ []))
        ∙ sym (append-nil (history (rs ++ ok ∷ [])));
    slept_is =
        h.slept_is ∙ ap (λ i. schedule first cap 0 i) (omega (arith, length-append rs (ok ∷ [])));
    backoff_is =
        ap (λ b. next_backoff b (pos cap)) h.backoff_is
        ∙ delay-step first cap (length rs) h0 hc hm
        ∙ ap (λ i. delay first cap i) (sym (length-append rs (ok ∷ [])));
    ready_is = h.ready_is;
    flag_is = h.flag_is;
    ready_only = h.ready_only;
  }

  -- The context and `Stop` change only what the reports do not depend on.
  pub flags-Refines :
      (m : Monitor) (s : State) (cancelled stopping ready : Bool) (halting : Halting)
      (world : World)
      → Refines first cap m s
      → (stopping ≡ false → ready ≡ shown s.place m.current)
      → (ready ≡ true → shown s.place m.current ≡ true)
      → (halting ≡ uncalled) ⊎ (stopping ≡ true)
      → Refines first cap m (record s {
        cancelled = cancelled;
        stopping = stopping;
        ready = ready;
        halting = halting;
        world = world;
      })
  flags-Refines m s cancelled stopping ready halting world h is only flag = record {
    fits = h.fits;
    over_is = h.over_is;
    attempt_is = h.attempt_is;
    reports_are = h.reports_are;
    slept_is = h.slept_is;
    backoff_is = h.backoff_is;
    ready_is = is;
    flag_is = flag;
    ready_only = only;
  }
