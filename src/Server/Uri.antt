-- ===== src/Server/Uri.antt =====
-- internal/server/stream.go: `validURI`, ^spotify:(track|album|playlist|episode):[A-Za-z0-9]+$.
pub mod Sent
use teddycloud_spotify_radio.Base.{
  ℕ, Bool, true, false, ◌&&◌, ◌||◌, [], ◌∷◌, leb, Text, codes, has_prefix, behind,
}

abbrev pub is_alnum : ℕ → Bool
is_alnum c = (leb b'A' c && leb c b'Z') || (leb b'a' c && leb c b'z') || (leb b'0' c && leb c b'9')

unfoldable pub all_alnum : Text → Bool
all_alnum [] = true
all_alnum (c ∷ cs) = is_alnum c && all_alnum cs

-- [A-Za-z0-9]+
some_alnum : Text → Bool
unfolding all_alnum
some_alnum [] = false
some_alnum (c ∷ cs) = all_alnum (c ∷ cs)

has_kind : Text → Text → Bool
unfolding has_prefix some_alnum
has_kind uri start = has_prefix uri start && some_alnum (behind uri start)

unfoldable pub valid_uri : Text → Bool
unfolding has_kind
valid_uri uri =
    has_kind uri (codes "spotify:track:")
    || has_kind uri (codes "spotify:album:")
    || has_kind uri (codes "spotify:playlist:")
    || has_kind uri (codes "spotify:episode:")
