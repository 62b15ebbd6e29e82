-- ===== src/Base/Splits.antt =====
-- `strings.Split`, `strings.Fields` and `strings.Join`.
use Prim.Native.Nat.{ℕ}
use mathlib.Core.Bool.{Bool, true, false}
use mathlib.Core.List.{List, [], ◌∷◌, ◌++◌}
use mathlib.Core.Path.{◌≡◌}
use teddycloud_spotify_radio.Base.Tests.{◌==◌, if◌then◌else◌}
use teddycloud_spotify_radio.Base.Lists.{All}
use teddycloud_spotify_radio.Base.Texts.{Text, is_space}

-- A character goes to the first part.
abbrev pub onto : ℕ → List Text → List Text
onto c [] = (c ∷ []) ∷ []
onto c (p ∷ ps) = (c ∷ p) ∷ ps

-- The parts between the characters at which the test holds.
unfoldable pub split_by : (ℕ → Bool) → Text → List Text
split_by p [] = [] ∷ []
split_by p (c ∷ cs) = let parts = split_by p cs in if p c then [] ∷ parts else onto c parts

-- `strings.Split s sep` for a separator of one character.
abbrev pub split : Text → ℕ → List Text
split s sep = split_by (λ c. c == sep) s

unfoldable pub non_empty : List Text → List Text
non_empty [] = []
non_empty ([] ∷ ts) = non_empty ts
non_empty ((c ∷ cs) ∷ ts) = (c ∷ cs) ∷ non_empty ts

-- `strings.Fields s`.
unfoldable pub fields : Text → List Text
unfolding split_by non_empty is_space
fields s = non_empty (split_by is_space s)

-- `strings.Join parts sep` for a separator of one character.
unfoldable pub join_with : ℕ → List Text → Text
join_with sep [] = []
join_with sep (p ∷ []) = p
join_with sep (p ∷ q ∷ ps) = p ++ sep ∷ join_with sep (q ∷ ps)

-- A word without a separator, and the separator behind it, are the first part.
pub split_by-append :
    (p : ℕ → Bool) (w : Text) (c : ℕ) (s : Text)
    → All (λ x. p x ≡ false) w
    → p c ≡ true
    → split_by p (w ++ c ∷ s) ≡ w ∷ split_by p s
unfolding split_by
split_by-append p [] c s h e = rw e
split_by-append p (x ∷ w) c s (h, hs) e = rw (h, split_by-append p w c s hs e)
