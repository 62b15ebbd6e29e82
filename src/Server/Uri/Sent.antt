-- ===== src/Server/Uri/Sent.antt =====
-- What becomes of the URI of a stream that is let in.
use teddycloud_spotify_radio.Base.{
  String, Bool, true, false, ◌||◌, [], ◌∷◌, ◌++◌, ◌≡◌, refl, arith, Text, codes, has_prefix, behind,
  ap, ◌∙◌, append_assoc,
}
use teddycloud_spotify_radio.Json.Encode.{every_bare, quote-bare}
use teddycloud_spotify_radio.Soloist.Connector.{play_json}
use teddycloud_spotify_radio.Server.Uri.{all_alnum, some_alnum, has_kind, valid_uri}

all_alnum-bare : (t : Text) → all_alnum t ≡ true → every_bare t ≡ true
unfolding all_alnum every_bare
all_alnum-bare [] h = refl
all_alnum-bare (c ∷ cs) h = ground (arith, all_alnum-bare cs)

has_prefix-bare :
    (s p : Text)
    → has_prefix s p ≡ true
    → every_bare p ≡ true
    → every_bare (behind s p) ≡ true
    → every_bare s ≡ true
unfolding has_prefix every_bare
has_prefix-bare s [] h hp hb = hb
has_prefix-bare [] (c ∷ p) h hp hb = refl
has_prefix-bare (x ∷ s) (c ∷ p) h hp hb = ground (arith, has_prefix-bare s p)

some_alnum-bare : (t : Text) → some_alnum t ≡ true → every_bare t ≡ true
unfolding some_alnum
some_alnum-bare [] h = cc
some_alnum-bare (c ∷ cs) h = all_alnum-bare (c ∷ cs) h

has_kind-bare : (uri p : Text) → every_bare p ≡ true → has_kind uri p ≡ true → every_bare uri ≡ true
unfolding has_kind
has_kind-bare uri p hp h =
    has_prefix-bare uri p (ground arith) hp (some_alnum-bare (behind uri p) (ground arith))

-- A disjunction is left with one of its sides.
either : (a b c : Bool) → (a ≡ true → c ≡ true) → (b ≡ true → c ≡ true) → a || b ≡ true → c ≡ true
either true b c f g h = f refl
either false b c f g h = g h

valid_uri-bare : (uri : Text) → valid_uri uri ≡ true → every_bare uri ≡ true
unfolding valid_uri every_bare
valid_uri-bare uri =
    either _ (is "spotify:episode:") (every_bare uri)
      (either _ (is "spotify:playlist:") (every_bare uri)
        (either (is "spotify:track:") (is "spotify:album:") (every_bare uri)
          (has_kind-bare uri (codes "spotify:track:") refl)
          (has_kind-bare uri (codes "spotify:album:") refl))
        (has_kind-bare uri (codes "spotify:playlist:") refl))
      (has_kind-bare uri (codes "spotify:episode:") refl)
  where
    is : String → Bool
    is start = has_kind uri (codes start)

-- A URI that /stream accepts goes into the play command as it is: nothing of it is escaped.
pub play_json-valid_uri :
    (uri : Text)
    → valid_uri uri ≡ true
    → play_json uri
      ≡ codes "{\"type\":\"command\",\"command\":\"play\",\"uri\":" ++ (b'"' ∷ (uri ++ codes "\"}"))
unfolding play_json
play_json-valid_uri uri h =
    ap (λ q. codes "{\"type\":\"command\",\"command\":\"play\",\"uri\":" ++ (q ++ codes "}"))
      (quote-bare uri (valid_uri-bare uri h))
    ∙ ap (λ q. codes "{\"type\":\"command\",\"command\":\"play\",\"uri\":" ++ (b'"' ∷ q))
        (append_assoc uri (b'"' ∷ []) (codes "}"))
