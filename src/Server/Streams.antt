-- ===== src/Server/Streams.antt =====
-- The streams of a server: their numbers, and which of them are cancelled.
use teddycloud_spotify_radio.Base.{
  ℕ, suc, ◌+◌, ◌-◌, ◌^◌, ◌<◌, true, List, [], ◌∷◌, Option, none, some, ◌≡◌, ◌≢◌, ◌⊎◌, inl, inr,
  arith, ◌==◌, All, Bool-cases,
}
use teddycloud_spotify_radio.Server.{Stream, word, cancel, set_active, find, remove, cancel_stored}

abbrev pub IsNumbered : ℕ → Stream → Type 0
IsNumbered requests t = (t.request < requests) × (t.my_id ≡ word (t.request + 1))

abbrev pub IsStored : Option ℕ → Stream → Type 0
IsStored stored t = (t.canceled ≡ true) ⊎ (stored ≡ some t.request)

abbrev pub IsNewest : Option ℕ → ℕ → Type 0
IsNewest stored requests = (stored ≡ none) ⊎ ((0 < requests) × (stored ≡ some (requests - 1)))

pub IsNumbered-more :
    (n : ℕ) (ts : List Stream) → All (IsNumbered n) ts → All (IsNumbered (suc n)) ts
IsNumbered-more n [] h = tt
IsNumbered-more n (t ∷ ts) ((h, e), hs) = ((omega arith, e), IsNumbered-more n ts hs)

pub cancel-IsNumbered :
    (n r : ℕ) (ts : List Stream) → All (IsNumbered n) ts → All (IsNumbered n) (cancel r ts)
unfolding cancel
cancel-IsNumbered n r [] h = tt
cancel-IsNumbered n r (t ∷ ts) (h, hs) = (ground arith, cancel-IsNumbered n r ts hs)

pub cancel-IsStored :
    (o : Option ℕ) (r : ℕ) (ts : List Stream) → All (IsStored o) ts → All (IsStored o) (cancel r ts)
unfolding cancel
cancel-IsStored o r [] h = tt
cancel-IsStored o r (t ∷ ts) (h, hs) = (ground arith, cancel-IsStored o r ts hs)

-- Behind the cancelling of what is stored, all are cancelled.
pub cancel_stored-canceled :
    (o : Option ℕ) (ts : List Stream)
    → All (IsStored o) ts
    → All (λ (t : Stream). t.canceled ≡ true) (cancel_stored o ts)
unfolding cancel_stored cancel
cancel_stored-canceled o [] h = ground arith
cancel_stored-canceled none (t ∷ ts) (h, hs) = (ground arith, cancel_stored-canceled none ts hs)
cancel_stored-canceled (some r) (t ∷ ts) (h, hs) =
    (ground arith, cancel_stored-canceled (some r) ts hs)

pub cancel_stored-IsNumbered :
    (n : ℕ) (o : Option ℕ) (ts : List Stream)
    → All (IsNumbered n) ts
    → All (IsNumbered n) (cancel_stored o ts)
unfolding cancel_stored
cancel_stored-IsNumbered n none ts h = h
cancel_stored-IsNumbered n (some r) ts h = cancel-IsNumbered n r ts h

pub IsStored-of_canceled :
    (o : Option ℕ) (ts : List Stream)
    → All (λ (t : Stream). t.canceled ≡ true) ts
    → All (IsStored o) ts
IsStored-of_canceled o [] h = tt
IsStored-of_canceled o (t ∷ ts) (h, hs) = (inl h, IsStored-of_canceled o ts hs)

pub set_active-IsNumbered :
    (n r : ℕ) (ts : List Stream) → All (IsNumbered n) ts → All (IsNumbered n) (set_active r ts)
set_active-IsNumbered n r [] h = tt
set_active-IsNumbered n r (t ∷ ts) (h, hs) = (ground arith, set_active-IsNumbered n r ts hs)

pub set_active-IsStored :
    (o : Option ℕ) (r : ℕ) (ts : List Stream)
    → All (IsStored o) ts
    → All (IsStored o) (set_active r ts)
set_active-IsStored o r [] h = tt
set_active-IsStored o r (t ∷ ts) (h, hs) = (ground arith, set_active-IsStored o r ts hs)

pub remove-IsNumbered :
    (n r : ℕ) (ts : List Stream) → All (IsNumbered n) ts → All (IsNumbered n) (remove r ts)
unfolding remove
remove-IsNumbered n r [] h = tt
remove-IsNumbered n r (t ∷ ts) (h, hs) = ground (arith, remove-IsNumbered n r ts hs)

pub remove-IsStored :
    (o : Option ℕ) (r : ℕ) (ts : List Stream)
    → All (IsStored o) ts
    → All (λ (t : Stream). IsStored o t × (t.request ≢ r)) (remove r ts)
unfolding remove
remove-IsStored o r [] h = tt
remove-IsStored o r (t ∷ ts) (h, hs) = ground (arith, remove-IsStored o r ts hs)

pub find-IsNumbered :
    (n r : ℕ) (ts : List Stream) (t : Stream)
    → All (IsNumbered n) ts
    → find r ts ≡ some t
    → IsNumbered n t
unfolding find
find-IsNumbered n r [] t h e = cc
find-IsNumbered n r (x ∷ ts) t (h, hs) e = elim (Bool-cases (x.request == r)) [
  | inl found ↦ ground arith
  | inr other ↦ find-IsNumbered n r ts t hs (rw (other, find) at e)
]

-- The newest request ends: the others are cancelled.
pub IsStored-of_newest :
    (o : Option ℕ) (n r : ℕ) (ts : List Stream)
    → r + 1 ≡ n
    → IsNewest o n
    → All (λ (t : Stream). IsStored o t × (t.request ≢ r)) ts
    → All (IsStored none) ts
IsStored-of_newest o n r [] e h hs = tt
IsStored-of_newest o n r (t ∷ ts) e h ((s, other), hs) =
    (ground arith, IsStored-of_newest o n r ts e h hs)

pub IsStored-kept :
    (o : Option ℕ) (r : ℕ) (ts : List Stream)
    → All (λ (t : Stream). IsStored o t × (t.request ≢ r)) ts
    → All (IsStored o) ts
IsStored-kept o r [] h = tt
IsStored-kept o r (t ∷ ts) ((h, other), hs) = (h, IsStored-kept o r ts hs)

pub same_word : (m n : ℕ) → m < n → n < 2 ^ 64 → word n ≡ word (m + 1) → m + 1 ≡ n
same_word m n h b e = omega arith
