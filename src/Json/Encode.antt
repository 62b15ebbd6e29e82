-- ===== src/Json/Encode.antt =====
-- `json.Marshal` of a string: what it escapes, and that reading gives the string back.
use teddycloud_spotify_radio.Base.{
  ℕ, ◌+◌, ◌/◌, ◌%◌, ◌||◌, [], ◌∷◌, ◌++◌, some, ◌≡◌, refl, ap, ◌∙◌, arith, ltb, leb, Bool, true,
  ◌&&◌, not, ◌==◌, if◌then◌else◌, Text, codes,
}
use teddycloud_spotify_radio.Json.Strings.{plain, unquote_from, unquote}
use teddycloud_spotify_radio.Json.Scanner.{read_string}
use teddycloud_spotify_radio.Json.Member.{drop_last-append}

hex_char : ℕ → ℕ
hex_char d = if ltb d 10 then b'0' + d else 87 + d

-- The HTML characters are escaped too, and the two line separators of Unicode.
escaped : ℕ → Text
unfolding hex_char
escaped c =
    if c == b'"' || c == b'\\'
    then b'\\' ∷ c ∷ []
    else if c == 8
    then codes "\\b"
    else if c == 12
    then codes "\\f"
    else if c == 10
    then codes "\\n"
    else if c == 13
    then codes "\\r"
    else if c == 9
    then codes "\\t"
    else if ltb c 0x20 || c == b'<' || c == b'>' || c == b'&'
    then codes "\\u00" ++ (hex_char (c / 16) ∷ hex_char (c % 16) ∷ [])
    else if c == 0x2028
    then codes "\\u2028"
    else if c == 0x2029
    then codes "\\u2029"
    else c ∷ []

escape_text : Text → Text
unfolding escaped
escape_text [] = []
escape_text (c ∷ cs) = escaped c ++ escape_text cs

unfoldable pub quote : Text → Text
unfolding escape_text
quote t = b'"' ∷ (escape_text t ++ b'"' ∷ [])

unquote-escaped :
    (c : ℕ) (rest : Text) → unquote_from plain (escaped c ++ rest) ≡ c ∷ unquote_from plain rest
unfolding escaped unquote_from
unquote-escaped c rest = ground arith

unquote-escape_text : (t : Text) → unquote (escape_text t) ≡ t
unfolding escape_text unquote
unquote-escape_text [] = unfold unquote_from in refl
unquote-escape_text (c ∷ cs) =
    unquote-escaped c (escape_text cs) ∙ ap (◌∷◌ c) (unquote-escape_text cs)

-- A marshalled string is read back, whatever characters it holds.
pub read_string-quote : (t : Text) → read_string (quote t) ≡ some t
unfolding read_string quote
read_string-quote t =
    ap some (ap unquote (drop_last-append (escape_text t) b'"') ∙ unquote-escape_text t)

-- A character between '0' and 'z' that is neither of '<', '>' and the backslash.
abbrev pub is_bare : ℕ → Bool
is_bare c = leb b'0' c && leb c b'z' && not (c == b'<' || c == b'>' || c == b'\\')

unfoldable pub every_bare : Text → Bool
every_bare [] = true
every_bare (c ∷ cs) = is_bare c && every_bare cs

escaped-bare : (c : ℕ) → is_bare c ≡ true → escaped c ≡ c ∷ []
unfolding escaped
escaped-bare c h = ground arith

escape_text-bare : (t : Text) → every_bare t ≡ true → escape_text t ≡ t
unfolding escape_text every_bare
escape_text-bare [] h = refl
escape_text-bare (c ∷ cs) h = rw (escaped-bare c (ground arith), escape_text-bare cs (ground arith))

pub quote-bare : (t : Text) → every_bare t ≡ true → quote t ≡ b'"' ∷ (t ++ b'"' ∷ [])
unfolding quote
quote-bare t h = rw (escape_text-bare t h)
