-- ===== src/Pulse/Sinks/Listing.antt =====
-- The listing of `pactl list sinks short`, written and read.
use teddycloud_spotify_radio.Base.{
  ℕ, false, List, [], ◌∷◌, ◌++◌, is_some, ◌==◌, ◌≡◌, ◌≢◌, refl, ap, ◌∙◌, arith, All, Text, split,
  split_by, split_by-append, fields, non_empty, is_space,
}
use teddycloud_spotify_radio.Pulse.Sinks.{sink_listed, any_listed, find_sink_by_name}

-- A sink, as `pactl` lists it: the rest holds its module, its sample format and its state.
pub record Sink : Type 0 where
  pub index : Text
  pub name : Text
  pub rest : Text

abbrev pub IsWord : Text → Type 0
IsWord w = (w ≢ []) × All (λ c. is_space c ≡ false) w

-- The index and the name are words, and the rest is on one line.
pub record IsListable (s : Sink) : Type 0 where
  pub index_word : IsWord s.index
  pub name_word : IsWord s.name
  pub one_line : All (λ c. (c == b'\n') ≡ false) s.rest

line_of : Sink → Text
line_of s = s.index ++ b'\t' ∷ (s.name ++ b'\t' ∷ s.rest)

unfoldable pub listing : List Sink → Text
unfolding line_of
listing [] = []
listing (s ∷ ss) = line_of s ++ b'\n' ∷ listing ss

not_newline : (w : Text) → All (λ c. is_space c ≡ false) w → All (λ c. (c == b'\n') ≡ false) w
unfolding is_space
not_newline [] h = tt
not_newline (c ∷ w) (h, hs) = (ground arith, not_newline w hs)

All-join :
    (w v : Text) (c : ℕ)
    → All (λ x. (x == b'\n') ≡ false) w
    → (c == b'\n') ≡ false
    → All (λ x. (x == b'\n') ≡ false) v
    → All (λ x. (x == b'\n') ≡ false) (w ++ c ∷ v)
All-join [] v c h e k = (e, k)
All-join (x ∷ w) v c (h, hs) e k = (h, All-join w v c hs e k)

line-one_line : (s : Sink) → IsListable s → All (λ c. (c == b'\n') ≡ false) (line_of s)
unfolding line_of
line-one_line s h =
    All-join s.index (s.name ++ b'\t' ∷ s.rest) b'\t' (not_newline s.index h.index_word.1) refl
      (All-join s.name s.rest b'\t' (not_newline s.name h.name_word.1) refl h.one_line)

non_empty-word : (w : Text) (ws : List Text) → w ≢ [] → non_empty (w ∷ ws) ≡ w ∷ non_empty ws
unfolding non_empty
non_empty-word [] ws h = absurd (h refl)
non_empty-word (c ∷ w) ws h = refl

fields-word : (w rest : Text) → IsWord w → fields (w ++ b'\t' ∷ rest) ≡ w ∷ fields rest
unfolding fields
fields-word w rest h =
    ap non_empty (split_by-append is_space w b'\t' rest h.1 (unfold is_space in refl))
    ∙ non_empty-word w (split_by is_space rest) h.0

fields-line : (s : Sink) → IsListable s → fields (line_of s) ≡ s.index ∷ s.name ∷ fields s.rest
unfolding line_of
fields-line s h =
    fields-word s.index (s.name ++ b'\t' ∷ s.rest) h.index_word
    ∙ ap (λ ws. s.index ∷ ws) (fields-word s.name s.rest h.name_word)

any_listed-listing :
    (ss : List Sink)
    → All IsListable ss
    → any_listed (split (listing ss) b'\n') ≡ is_some (find_sink_by_name (λ (s : Sink). s.name) ss)
unfolding listing any_listed find_sink_by_name
any_listed-listing [] h = unfold split_by non_empty in refl
any_listed-listing (s ∷ ss) (h, hs) =
    rw
      (
        split_by-append (λ c. c == b'\n') (line_of s) b'\n' (listing ss) (line-one_line s h) refl,
        fields-line s h,
      )
      (ground (arith, any_listed-listing ss hs))

-- On a listing, `sinkListed` finds the virtual sink exactly if a search through the sinks by their
-- name, as `findSinkByName` makes it, finds one. (The index and the name of each sink are words
-- without white space, and the rest of its line has no line break.)
pub sink_listed-listing :
    (ss : List Sink)
    → All IsListable ss
    → sink_listed (listing ss) ≡ is_some (find_sink_by_name (λ (s : Sink). s.name) ss)
unfolding sink_listed
sink_listed-listing ss h = any_listed-listing ss h
