-- ===== src/Shim/Recording/Slot.antt =====
-- The slot as its consumers see it: an abstract machine that `runRecorder` refines.
use teddycloud_spotify_radio.Base.{
  ℕ, ◌+◌, Bool, true, false, Option, none, some, ◌≡◌, ◌⊎◌, inl, inr, ap, ◌∙◌, arith, ℤ,
}
use teddycloud_spotify_radio.Shim.Recording.Tidy.{slot_at, IsTidy, Reach-IsTidy}
use teddycloud_spotify_radio.Shim.Recording.{
  State, set_slot, Move, sees_ready, leaves, goes_on, opens, open_fails, leaves_recording, loses,
  wakes, Step, moves, cancels, live_acts, watch, past_acts, past_watch, Reach,
}

-- The number of the recorder in it, if any; how many were put in; whether it is closed for good.
pub record Slot : Type 0 where
  pub current : Option ℕ
  pub given : ℕ
  pub closed : Bool

-- An empty slot gets the recorder of the next number; a full one is emptied; and an open one is closed,
-- empty.
pub data Change (p q : Slot) : Type 0 where
  fills :
      p.closed ≡ false
      → p.current ≡ none
      → q ≡ record p { current = some (p.given + 1); given = p.given + 1 }
      → Change p q
  empties :
      (a : ℕ) → p.closed ≡ false → p.current ≡ some a → q ≡ record p { current = none } → Change p q
  closes : p.closed ≡ false → q ≡ record p { current = none; closed = true } → Change p q

abbrev pub slot_of : State → Slot
slot_of s = record { current = s.slot; given = s.attempt; closed = s.returned }

-- A step changes the slot as the machine does, or not at all.
abbrev pub Follows : State → State → Type 0
Follows s t = (slot_of t ≡ slot_of s) ⊎ Change (slot_of s) (slot_of t)

module _ (buffer_len : ℤ) where
  Move-Follows : (s t : State) → s.returned ≡ false → IsTidy s → Move buffer_len s t → Follows s t
  unfolding set_slot
  Move-Follows s t on h (sees_ready e same) = inl (ap slot_of same)
  Move-Follows s t on h (leaves at cancelled same) =
      let empty : s.slot ≡ none = ground (arith, h.slot_is) in
      inr (
        closes on (
          ap slot_of same
          ∙ ap (λ o. record { current = o; given = s.attempt; closed = true }) empty))
  Move-Follows s t on h (goes_on e going same) = inl (ap slot_of same)
  Move-Follows s t on h (open_fails lib e failed same) = inl (ap slot_of same)
  Move-Follows s t on h (opens lib e ok same) =
      inr (fills on (h.slot_is ∙ ap (λ p. slot_at p s.attempt) e) (ap slot_of same))
  Move-Follows s t on h (leaves_recording l e cancelled same) = inr (closes on (ap slot_of same))
  Move-Follows s t on h (loses l e lost same) =
      inr (empties s.attempt on (h.slot_is ∙ ap (λ p. slot_at p s.attempt) e) (ap slot_of same))
  Move-Follows s t on h (wakes e same) = inl (ap slot_of same)

  -- Whatever happens: the slot changes as the machine does. An empty one is filled with the recorder
  -- of the next number, a full one is emptied before it is filled again, no number comes twice, and
  -- once `runRecorder` has returned it stays empty.
  pub Step-Follows : (s t : State) → Reach buffer_len s → Step buffer_len s t → Follows s t
  Step-Follows s t r (moves on move) = Move-Follows s t on (Reach-IsTidy buffer_len s r) move
  Step-Follows s t r (cancels same) = inl (ap slot_of same)
  Step-Follows s t r (live_acts l e shared at same) = inl (ap slot_of same)
  Step-Follows s t r (watch l at going same) = inl (ap slot_of same)
  Step-Follows s t r (past_acts before after l e shared at same) = inl (ap slot_of same)
  Step-Follows s t r (past_watch before after l at same) = inl (ap slot_of same)
