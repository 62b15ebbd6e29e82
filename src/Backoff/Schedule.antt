-- ===== src/Backoff/Schedule.antt =====
-- The delays that `NextBackoff` gives one after the other.
use native.Mathlib.Nat.{pow-suc}
use native.Mathlib.Numerals.{add-one}
use teddycloud_spotify_radio.Base.{
  ℕ, zero, suc, ◌+◌, ◌*◌, ◌^◌, ◌≤◌, ◌<◌, min, List, [], ◌∷◌, ◌++◌, ◌≡◌, ◌⊎◌, ap, ◌∙◌, arith, ℤ, pos,
  pos_part, neg_part,
}
use teddycloud_spotify_radio.Backoff.{next_backoff}

-- An int64.
abbrev pub IsInt64 : ℤ → Type 0
IsInt64 a = (pos_part a < 2 ^ 63) × (neg_part a ≤ 2 ^ 63)

infix 50 ◌≤ℤ◌ ◌<ℤ◌
abbrev pub ◌≤ℤ◌ : ℤ → ℤ → Type 0
a ≤ℤ b = pos_part a + neg_part b ≤ pos_part b + neg_part a

abbrev pub ◌<ℤ◌ : ℤ → ℤ → Type 0
a <ℤ b = pos_part a + neg_part b < pos_part b + neg_part a

-- The next delay is never above the cap, whatever the two int64 are; and it is never
-- less than the delay before it, unless that was not positive or itself above the cap. The doubling
-- may overflow.
pub next_backoff_bounds :
    (current max : ℤ)
    → IsInt64 current
    → IsInt64 max
    → (next_backoff current max ≤ℤ max)
      × ((max <ℤ current) ⊎ (current <ℤ pos 1) ⊎ (current ≤ℤ next_backoff current max))
unfolding next_backoff
next_backoff_bounds current max hc hm = ground arith

pub next_backoff-min :
    (c m : ℕ) → 0 < c → c < 2 ^ 63 → m < 2 ^ 63 → next_backoff (pos c) (pos m) ≡ pos (min (c * 2) m)
unfolding next_backoff
next_backoff-min c m h hc hm = ground arith

-- The delay behind `j` doublings: `first * 2 ^ j`, capped.
abbrev pub delay : ℕ → ℕ → ℕ → ℤ
delay first cap j = pos (min (first * 2 ^ j) cap)

abbrev pub schedule : ℕ → ℕ → ℕ → ℕ → List ℤ
schedule first cap j zero = []
schedule first cap j (suc n) = delay first cap j ∷ schedule first cap (j + 1) n

power_pos : (j : ℕ) → 0 < 2 ^ j
power_pos zero = omega arith
power_pos (suc j) = omega (arith, power_pos j, pow-suc 2 j)

product_pos : (first j : ℕ) → 0 < first → 0 < first * 2 ^ j
product_pos first j h = grind (arith, power_pos j)

product_step : (first j : ℕ) → first * 2 ^ (j + 1) ≡ first * 2 ^ j * 2
product_step first j = rw (add-one, pow-suc) (omega arith)

pub delay-step :
    (first cap j : ℕ)
    → 0 < first
    → 0 < cap
    → cap < 2 ^ 63
    → next_backoff (delay first cap j) (pos cap) ≡ delay first cap (j + 1)
delay-step first cap j h hc hm =
    next_backoff-min (min (first * 2 ^ j) cap) cap (omega (arith, product_pos first j h))
      (omega arith) hm
    ∙ ap pos (omega (arith, product_step first j))

more_once : (n : ℕ) → suc (n + 1) ≡ suc n + 1
more_once n = omega arith

schedule-snoc :
    (first cap j n : ℕ)
    → schedule first cap j n ++ delay first cap (j + n) ∷ [] ≡ schedule first cap j (n + 1)
schedule-snoc first cap j zero = ap (λ i. delay first cap i ∷ []) (omega arith)
schedule-snoc first cap j (suc n) =
    ap (λ i. delay first cap j ∷ (schedule first cap (j + 1) n ++ delay first cap i ∷ []))
      (omega arith)
    ∙ ap (λ l. delay first cap j ∷ l) (schedule-snoc first cap (j + 1) n)
    ∙ ap (λ i. schedule first cap j i) (more_once n)

zero_plus : (n : ℕ) → n ≡ 0 + n
zero_plus n = omega arith

pub schedule-next :
    (first cap n : ℕ)
    → schedule first cap 0 n ++ delay first cap n ∷ [] ≡ schedule first cap 0 (n + 1)
schedule-next first cap n =
    ap (λ i. schedule first cap 0 n ++ delay first cap i ∷ []) (zero_plus n)
    ∙ schedule-snoc first cap 0 n
