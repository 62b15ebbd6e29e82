-- ===== src/Base/Numerals.antt =====
-- `strconv.Atoi` and `strconv.Itoa`, and the second behind the first.
use Prim.Native.Nat.{ℕ, zero, suc, ◌+◌, ◌-◌, ◌*◌, ◌/◌, ◌%◌, ◌^◌, ◌≤◌, ◌<◌}
use mathlib.Core.Bool.{Bool, true, false, ◌&&◌}
use mathlib.Core.Option.{Option, none, some}
use mathlib.Core.List.{[], ◌∷◌}
use mathlib.Core.Path.{◌≡◌, refl, ◌∙◌}
use mathlib.Core.Logic.{inl, inr}
use native.Mathlib.Omega.{arith}
use teddycloud_spotify_radio.Base.Tests.{Bool-cases, leb, ltb, ◌==◌, if◌then◌else◌}
use teddycloud_spotify_radio.Base.Int.{ℤ, pos, negsuc}
use teddycloud_spotify_radio.Base.Texts.{Text}

-- The digits of `strconv.Atoi`, read from the left; none if one of them is no digit.
digits : ℕ → Text → Option ℕ
digits n [] = some n
digits n (c ∷ cs) =
    let on = digits (n * 10 + (c - b'0')) cs in if leb b'0' c && leb c b'9' then on else none

signed : Bool → Option ℕ → Option ℤ
signed negative none = none
signed false (some n) = if ltb n (2 ^ 63) then some (pos n) else none
signed true (some zero) = some (pos 0)
signed true (some (suc n)) = if ltb n (2 ^ 63) then some (negsuc n) else none

unsigned_text : Bool → Text → Option ℤ
unfolding digits signed
unsigned_text negative [] = none
unsigned_text negative (c ∷ cs) = signed negative (digits 0 (c ∷ cs))

-- `strconv.Atoi`: a sign, one digit at least, and a number of 64 bits.
unfoldable pub atoi : Text → Option ℤ
unfolding unsigned_text
atoi [] = none
atoi (c ∷ cs) =
    if c == b'-'
    then unsigned_text true cs
    else if c == b'+'
    then unsigned_text false cs
    else unsigned_text false (c ∷ cs)

-- `strconv.Itoa` of a number: as many rounds as its size are enough.
decimal_from : ℕ → ℕ → Text → Text
decimal_from zero n digits = (b'0' + n % 10) ∷ digits
decimal_from (suc fuel) n digits =
    let d = (b'0' + n % 10) ∷ digits in
    let on = decimal_from fuel (n / 10) d in if ltb n 10 then d else on

unfoldable pub decimal : ℕ → Text
unfolding decimal_from
decimal n = decimal_from n n []

-- The digits that are printed before `acc` are read as the number they print.
digits-decimal_from :
    (fuel n : ℕ) (acc : Text) → n ≤ fuel → digits 0 (decimal_from fuel n acc) ≡ digits n acc
unfolding digits decimal_from
digits-decimal_from zero n acc h = ground arith
digits-decimal_from (suc fuel) n acc h = elim (Bool-cases (ltb n 10)) [
  | inl small ↦ ground arith
  | inr large ↦ rw large (digits-decimal_from fuel (n / 10) _ (omega arith) ∙ ground arith)
]

-- What is printed begins with a digit.
decimal_from-digit :
    (fuel n : ℕ) (acc : Text)
    → (c : ℕ) × (cs : Text) × (decimal_from fuel n acc ≡ c ∷ cs) × (b'0' ≤ c) × (c ≤ b'9')
unfolding decimal_from
decimal_from-digit zero n acc = (_, _, refl, omega arith, omega arith)
decimal_from-digit (suc fuel) n acc = elim (Bool-cases (ltb n 10)) [
  | inl small ↦ rw small (_, _, refl, omega arith, omega arith)
  | inr large ↦ rw large (decimal_from-digit fuel (n / 10) _)
]

unsigned_text-digit :
    (t : Text) (c : ℕ) (cs : Text) (n : ℕ)
    → t ≡ c ∷ cs
    → b'0' ≤ c
    → c ≤ b'9'
    → digits 0 t ≡ some n
    → n < 2 ^ 63
    → atoi t ≡ some (pos n)
unfolding atoi unsigned_text signed
unsigned_text-digit [] c cs n e low high h b = cc
unsigned_text-digit (x ∷ xs) c cs n e low high h b = ground arith

pub atoi-decimal : (n : ℕ) → n < 2 ^ 63 → atoi (decimal n) ≡ some (pos n)
unfolding decimal digits
atoi-decimal n b =
    let (c, cs, e, low, high) = decimal_from-digit n n [] in
    unsigned_text-digit (decimal_from n n []) c cs n e low high
      (digits-decimal_from n n [] (omega arith)) b
