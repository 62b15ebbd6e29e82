-- ===== src/Json/Strings.antt =====
-- String literals of JSON: escapes are undone, and keys are compared without regard to case.
use teddycloud_spotify_radio.Base.{
  ℕ, zero, suc, ◌+◌, ◌-◌, ◌*◌, Bool, ◌&&◌, ◌||◌, [], ◌∷◌, ◌++◌, Option, none, some, leb, ◌==◌,
  if◌then◌else◌, Text,
}

abbrev pub within : ℕ → ℕ → ℕ → Bool
within lo hi c = leb lo c && leb c hi

abbrev pub is_hex : ℕ → Bool
is_hex c = within b'0' b'9' c || within b'a' b'f' c || within b'A' b'F' c

abbrev hex_digit : ℕ → ℕ
hex_digit c = if leb c b'9' then c - b'0' else if leb c b'F' then c - 55 else c - 87

-- U+FFFD stands for a surrogate with no partner.
abbrev replacement : ℕ
replacement = 0xfffd

-- Where the reader of a literal's body stands: in plain text, behind a backslash, in the hex digits
-- of an escape (how many are left, the number so far, the high surrogate before it), behind a high
-- surrogate, and behind a backslash that follows one.
pub data Mode : Type 0 where
  plain : Mode
  escape : Mode
  hex : ℕ → ℕ → Option ℕ → Mode
  high : ℕ → Mode
  high_escape : ℕ → Mode

abbrev unescape : ℕ → ℕ
unescape c =
    if c == b'b'
    then 8
    else if c == b'f'
    then 12
    else if c == b'n'
    then 10
    else if c == b'r'
    then 13
    else if c == b't'
    then 9
    else c

-- A code unit with no high surrogate before it.
unit : ℕ → Text × Mode
unit v =
    if within 0xd800 0xdbff v
    then ([], high v)
    else if within 0xdc00 0xdfff v
    then (replacement ∷ [], plain)
    else (v ∷ [], plain)

behind_high : ℕ → Text × Mode → Text × Mode
behind_high h (out, m) = (replacement ∷ out, m)

code_unit : Option ℕ → ℕ → Text × Mode
unfolding unit behind_high
code_unit none v = unit v
code_unit (some h) v =
    if within 0xdc00 0xdfff v
    then (((h - 0xd800) * 1024 + (v - 0xdc00) + 0x10000) ∷ [], plain)
    else behind_high h (unit v)

in_plain : ℕ → Text × Mode
in_plain c = if c == b'\\' then ([], escape) else (c ∷ [], plain)

in_escape : ℕ → Text × Mode
in_escape c = if c == b'u' then ([], hex 3 0 none) else (unescape c ∷ [], plain)

-- One character of the body: what it adds, and the next mode. `hex k` has `k + 1` digits to come.
unfoldable pub read : Mode → ℕ → Text × Mode
unfolding code_unit in_plain in_escape
read plain c = in_plain c
read escape c = in_escape c
read (hex zero v h) c = code_unit h (v * 16 + hex_digit c)
read (hex (suc k) v h) c = ([], hex k (v * 16 + hex_digit c) h)
read (high h) c = if c == b'\\' then ([], high_escape h) else (replacement ∷ c ∷ [], plain)
read (high_escape h) c = if c == b'u' then ([], hex 3 0 (some h)) else behind_high h (in_escape c)

pub at_end : Mode → Text
at_end (high h) = replacement ∷ []
at_end (high_escape h) = replacement ∷ []
at_end _ = []

unfoldable pub unquote_from : Mode → Text → Text
unfolding read at_end
unquote_from m [] = at_end m
unquote_from m (c ∷ cs) = let (out, m') = read m c in out ++ unquote_from m' cs

-- The text of a valid literal's body, which stands between its quotes.
unfoldable pub unquote : Text → Text
unfolding unquote_from
unquote = unquote_from plain

fold_letter : ℕ → ℕ
fold_letter c = if within b'A' b'Z' c then c + 32 else c

-- ASCII letters in lower case. No other character folds to a letter of `data`.
unfoldable pub fold_text : Text → Text
unfolding fold_letter
fold_text [] = []
fold_text (c ∷ cs) = fold_letter c ∷ fold_text cs
