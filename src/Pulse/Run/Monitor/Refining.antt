-- ===== src/Pulse/Run/Monitor/Refining.antt =====
-- `Run` refines the abstract monitor.
use teddycloud_spotify_radio.Base.{
  ℕ, ◌^◌, ◌≤◌, ◌<◌, Bool, true, false, List, [], ◌∷◌, ◌++◌, Option, none, some, ◌≡◌, ◌⊎◌, inl, inr,
  refl, sym, ap, subst, ◌∙◌, arith, Text, pos,
}
use teddycloud_spotify_radio.Backoff.{next_backoff}
use teddycloud_spotify_radio.Pulse.Daemon.{PulseAudio, World, start_backoff_of, max_backoff_of}
use teddycloud_spotify_radio.Pulse.Run.{
  Place, head, starting, announcing, probing, doubting, mourning, burying, sleeping, State, initial,
  Move, leaves_cancelled, leaves_stopping, attempts, comes_up, stays_down, announces,
  leaves_probing, probes_dead, leaves_doubting, goes_on, mourns, buries, sleep_cut, wakes, flagged,
  unready, exited, Step, moves, cancels, stop_flags, stop_clears, stop_exits, Reach, begins,
  then_steps,
}
use teddycloud_spotify_radio.Pulse.Run.Monitor.{
  Monitor, Advances, tries, rests, ends, history, said, shown, Fits, Refines,
}
use teddycloud_spotify_radio.Pulse.Run.Monitor.Rounds.{
  within, at_place, attempts-Refines, comes_up-Refines, stays_down-Refines, announces-Refines,
  probes_dead-Refines, goes_on-Refines, mourns-Refines, buries-Refines, wakes-Refines,
  flags-Refines,
}

-- The abstract monitor behind a step.
pub record Follows (first cap : ℕ) (m : Monitor) (t : State) : Type 0 where
  pub next : Monitor
  pub advances : (m ≡ next) ⊎ Advances m next
  pub refines : Refines first cap next t

module _ (first cap : ℕ) (h0 : 0 < first) (hc : 0 < cap) (hm : cap < 2 ^ 63) where
  returns-Refines :
      (m : Monitor) (s : State)
      → s.returned ≡ false
      → Refines first cap m s
      → Follows first cap m (record s { returned = true })
  returns-Refines m s on h = record {
    next = record m { over = true };
    advances = inr (ends (sym h.over_is ∙ on) refl);
    refines = record {
      fits = h.fits;
      over_is = refl;
      attempt_is = h.attempt_is;
      reports_are = h.reports_are;
      slept_is = h.slept_is;
      backoff_is = h.backoff_is;
      ready_is = h.ready_is;
      flag_is = h.flag_is;
      ready_only = h.ready_only;
    };
  }

  within-Follows :
      (m : Monitor) (s u t : State) (l : Place)
      → s.place ≡ l
      → t ≡ u
      → (ok : Bool) × (m.current ≡ some ok)
      → Refines first cap m s
      → ((ok : Bool)
          → Refines first cap
              (within first cap h0 hc hm m.rounds ok m.over)
              (record s { place = l })
          → Refines first cap (within first cap h0 hc hm m.rounds ok m.over) u)
      → Follows first cap m t
  within-Follows m s u t l e same (ok, f) h go =
      let is_within : m ≡ within first cap h0 hc hm m.rounds ok m.over =
        ap (λ c. record m { current = c }) f in
      record {
        next = within first cap h0 hc hm m.rounds ok m.over;
        advances = inl is_within;
        refines =
            subst (λ v. Refines first cap (within first cap h0 hc hm m.rounds ok m.over) v)
              (sym same)
              (go ok (
                subst (λ n. Refines first cap n (record s { place = l })) is_within
                  (at_place first cap h0 hc hm m s l e h)));
      }

  to-Follows :
      (m n : Monitor) (t u : State)
      → (m ≡ n) ⊎ Advances m n
      → t ≡ u
      → Refines first cap n u
      → Follows first cap m t
  to-Follows m n t u a same h = record {
    next = n;
    advances = a;
    refines = subst (λ v. Refines first cap n v) (sym same) h;
  }

  module _ (p : PulseAudio) (is_cap : max_backoff_of p ≡ pos cap) where
    Move-Follows :
        (m : Monitor) (s t : State)
        → s.returned ≡ false
        → Refines first cap m s
        → Move p s t
        → Follows first cap m t
    Move-Follows m s t on h (leaves_cancelled e done same) =
        subst (λ v. Follows first cap m v) (sym same) (returns-Refines m s on h)
    Move-Follows m s t on h (leaves_stopping e done same) =
        subst (λ v. Follows first cap m v) (sym same) (returns-Refines m s on h)
    Move-Follows m s t on h (attempts e live going same) =
        to-Follows m m t _ (inl refl) same (attempts-Refines first cap h0 hc hm m s e h)
    Move-Follows m s t on h (comes_up b e is_up same) =
        to-Follows m _ t _
          (inr (tries true (sym h.over_is ∙ on) (subst (λ l. Fits l m.current) e h.fits) refl)) same
          (comes_up-Refines first cap h0 hc hm m s _ e h)
    Move-Follows m s t on h (stays_down b e is_down same) =
        to-Follows m _ t _
          (inr (tries false (sym h.over_is ∙ on) (subst (λ l. Fits l m.current) e h.fits) refl))
          same (stays_down-Refines first cap h0 hc hm m s _ e h)
    Move-Follows m s t on h (announces ok e same) =
        within-Follows m s _ t _ e same (ok, subst (λ l. Fits l m.current) e h.fits) h
          (λ k. announces-Refines first cap h0 hc hm m.rounds k ok m.over s)
    Move-Follows m s t on h (leaves_probing e done same) =
        subst (λ v. Follows first cap m v) (sym same) (returns-Refines m s on h)
    Move-Follows m s t on h (probes_dead e going same) =
        within-Follows m s _ t _ e same (subst (λ l. Fits l m.current) e h.fits) h
          (λ ok. probes_dead-Refines first cap h0 hc hm m.rounds ok m.over s)
    Move-Follows m s t on h (leaves_doubting e done same) =
        subst (λ v. Follows first cap m v) (sym same) (returns-Refines m s on h)
    Move-Follows m s t on h (goes_on e going same) =
        within-Follows m s _ t _ e same (subst (λ l. Fits l m.current) e h.fits) h
          (λ ok. goes_on-Refines first cap h0 hc hm m.rounds ok m.over s)
    Move-Follows m s t on h (mourns e same) =
        within-Follows m s _ t _ e same (subst (λ l. Fits l m.current) e h.fits) h
          (λ ok. mourns-Refines first cap h0 hc hm m.rounds ok m.over s)
    Move-Follows m s t on h (buries e same) =
        within-Follows m s _ t _ e same (subst (λ l. Fits l m.current) e h.fits) h
          (λ ok. buries-Refines first cap h0 hc hm m.rounds ok m.over s)
    Move-Follows m s t on h (sleep_cut e done same) =
        subst (λ v. Follows first cap m v) (sym same) (returns-Refines m s on h)
    Move-Follows m s t on h (wakes e same) =
        let (ok, f) = subst (λ l. Fits l m.current) e h.fits in
        to-Follows m (record m { rounds = m.rounds ++ ok ∷ []; current = none }) t _
          (inr (rests ok (sym h.over_is ∙ on) f refl))
          (same ∙ ap (λ c. record s { backoff = next_backoff s.backoff c; place = head }) is_cap)
          (wakes-Refines first cap h0 hc hm m.rounds ok m.over s (
            subst (λ n. Refines first cap n (record s { place = sleeping }))
              (ap (λ c. record m { current = c }) f)
              (at_place first cap h0 hc hm m s sleeping e h)))

    Step-Follows :
        (m : Monitor) (s t : State) → Refines first cap m s → Step p s t → Follows first cap m t
    Step-Follows m s t h (moves on move) = Move-Follows m s t on h move
    Step-Follows m s t h (cancels same) = to-Follows m m t _ (inl refl) same (
        flags-Refines first cap h0 hc hm m s true s.stopping s.ready s.halting s.world h h.ready_is
          h.ready_only h.flag_is)
    Step-Follows m s t h (stop_flags going uncalled_yet same) = to-Follows m m t _ (inl refl) same (
        flags-Refines first cap h0 hc hm m s s.cancelled true s.ready flagged s.world h (λ off. cc)
          h.ready_only (inr refl))
    Step-Follows m s t h (stop_clears flagged_yet same) = to-Follows m m t _ (inl refl) same (
        flags-Refines first cap h0 hc hm m s s.cancelled s.stopping false unready s.world h
          (λ off. elim h.flag_is [ inl off ↦ cc | inr on ↦ cc ]) (λ ready. cc)
          (elim h.flag_is [ inl off ↦ cc | inr on ↦ inr on ]))
    Step-Follows m s t h (stop_exits unready_yet same) = to-Follows m m t _ (inl refl) same (
        flags-Refines first cap h0 hc hm m s s.cancelled s.stopping s.ready exited _ h h.ready_is
          h.ready_only (elim h.flag_is [ inl off ↦ cc | inr on ↦ inr on ]))

-- A step of the supervision, of the context or of a concurrent `Stop`, from a state that the abstract
-- monitor describes, is a step of the monitor or none, and the monitor describes the state behind it.
pub run-Follows :
    (first cap : ℕ) (p : PulseAudio) (m : Monitor) (s t : State)
    → 0 < first
    → first ≤ cap
    → cap < 2 ^ 63
    → max_backoff_of p ≡ pos cap
    → Refines first cap m s
    → Step p s t
    → Follows first cap m t
run-Follows first cap p m s t h0 le hm is_cap h step =
    Step-Follows first cap h0 (omega arith) hm p is_cap m s t h step

abbrev pub begun_monitor : Monitor
begun_monitor = record { rounds = []; current = none; over = false }

pub initial-Refines :
    (first cap : ℕ) (p : PulseAudio) (w : World)
    → first ≤ cap
    → start_backoff_of p ≡ pos first
    → Refines first cap begun_monitor (initial p w)
unfolding initial
initial-Refines first cap p w le is_first = record {
  fits = refl;
  over_is = refl;
  attempt_is = refl;
  reports_are = refl;
  slept_is = refl;
  backoff_is = is_first ∙ ap pos (omega arith);
  ready_is = λ going. refl;
  flag_is = inl refl;
  ready_only = λ ready. ready;
}

-- Every state that the supervision reaches is one of the abstract monitor: its reports are, for each
-- round that is over, the result of the start and that the daemon is gone, then those of the current
-- round; its attempts are counted; the delays that it began to sleep are the capped doublings in
-- their order; unless `Stop` was called it is ready exactly while the last start succeeded and no
-- death was seen.
pub Reach-Refines :
    (first cap : ℕ) (p : PulseAudio) (w : World) (s : State)
    → 0 < first
    → first ≤ cap
    → cap < 2 ^ 63
    → start_backoff_of p ≡ pos first
    → max_backoff_of p ≡ pos cap
    → Reach p w s
    → (m : Monitor) × Refines first cap m s
Reach-Refines first cap p w s h0 le hm is_first is_cap begins =
    (begun_monitor, initial-Refines first cap p w le is_first)
Reach-Refines first cap p w t h0 le hm is_first is_cap (then_steps {s = s} r step) =
    let (m, h) = Reach-Refines first cap p w s h0 le hm is_first is_cap r in
    let f = run-Follows first cap p m s t h0 le hm is_cap h step in (f.next, f.refines)

-- Between the reports.
abbrev pub IsAnnouncing : Place → Type 0
IsAnnouncing (announcing ok) = Unit
IsAnnouncing place = ⊥

shown-said :
    (l : Place) (c : Option Bool) → shown l c ≡ true → (IsAnnouncing l → ⊥) → said l c ≡ [] ∷ []
shown-said (announcing ok) c e quiet = absurd (quiet tt)
shown-said head c e quiet = cc
shown-said starting c e quiet = cc
shown-said probing c e quiet = ground arith
shown-said doubting c e quiet = ground arith
shown-said mourning c e quiet = ground arith
shown-said burying c e quiet = cc
shown-said sleeping c e quiet = cc

-- Ready means healthy: whenever `Ready` answers true, the last health report was the empty one,
-- unless that report is about to be made. This holds behind a `Stop` as well.
pub Reach-IsHealthy :
    (first cap : ℕ) (p : PulseAudio) (w : World) (s : State)
    → 0 < first
    → first ≤ cap
    → cap < 2 ^ 63
    → start_backoff_of p ≡ pos first
    → max_backoff_of p ≡ pos cap
    → Reach p w s
    → s.ready ≡ true
    → (IsAnnouncing s.place → ⊥)
    → (before : List Text) × (s.reports ≡ before ++ [] ∷ [])
Reach-IsHealthy first cap p w s h0 le hm is_first is_cap r is_ready quiet =
    let (m, h) = Reach-Refines first cap p w s h0 le hm is_first is_cap r in
    (
      history m.rounds,
      h.reports_are
          ∙ ap (λ l. history m.rounds ++ l)
              (shown-said s.place m.current (h.ready_only is_ready) quiet),
    )
