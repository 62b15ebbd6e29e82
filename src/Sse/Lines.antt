-- ===== src/Sse/Lines.antt =====
-- `bufio.Scanner` with `ScanLines` and a buffer of 64 KiB, as `readLoop` sets it up. A text is a list
-- of code points, so a body is taken to be valid UTF-8; the buffer counts bytes.
use teddycloud_spotify_radio.Base.{
  ℕ, ◌+◌, ◌*◌, ◌<◌, Bool, true, false, List, [], ◌∷◌, ◌++◌, ◌≡◌, refl, arith, ltb, leb, ◌==◌,
  if◌then◌else◌, All, Text, append_assoc, append-nil, ◌∙◌, ap,
}

-- The bytes of a character in UTF-8.
abbrev utf8_len : ℕ → ℕ
utf8_len c = if ltb c 0x80 then 1 else if ltb c 0x800 then 2 else if ltb c 0x10000 then 3 else 4

abbrev pub size : Text → ℕ
size [] = 0
size (c ∷ cs) = utf8_len c + size cs

abbrev pub max_token_size : ℕ
max_token_size = 64 * 1024

-- Why `Scan` returned false: the body ended, or a line did not fit the buffer.
pub data Stop : Type 0 where
  at_end too_long : Stop

pub record Scanned : Type 0 where
  pub lines : List Text
  pub stop : Stop

-- A line loses one trailing carriage return.
abbrev pub drop_cr : Text → Text
drop_cr [] = []
drop_cr (c ∷ []) = if c == b'\r' then [] else c ∷ []
drop_cr (c ∷ d ∷ cs) = c ∷ drop_cr (d ∷ cs)

abbrev token : Text → Scanned → Scanned
token cur rest =
    if leb max_token_size (size cur)
    then record { lines = []; stop = too_long }
    else record rest { lines = drop_cr cur ∷ rest.lines }

nothing_more : Scanned
nothing_more = record { lines = []; stop = at_end }

-- The text behind the last newline is a line unless it is empty.
last_line : Text → Scanned
unfolding nothing_more
last_line [] = nothing_more
last_line (c ∷ cs) = token (c ∷ cs) nothing_more

scan_from : Text → Text → Scanned
unfolding last_line
scan_from cur [] = last_line cur
scan_from cur (c ∷ cs) =
    let at_newline = token cur (scan_from [] cs) in
    let on = scan_from (cur ++ c ∷ []) cs in if c == b'\n' then at_newline else on

unfoldable pub scan_lines : Text → Scanned
unfolding scan_from
scan_lines = scan_from []

abbrev pub is_inline : ℕ → Bool
is_inline c = if c == b'\n' then false else if c == b'\r' then false else true

abbrev pub IsInline : Text → Type 0
IsInline = All (λ c. is_inline c ≡ true)

drop_cr-inline : (l : Text) → IsInline l → drop_cr l ≡ l
drop_cr-inline [] h = refl
drop_cr-inline (c ∷ []) (h, t) = ground arith
drop_cr-inline (c ∷ d ∷ cs) (h, t) = ap (◌∷◌ c) (drop_cr-inline (d ∷ cs) t)

scan_from-inline :
    (l cur rest : Text) → IsInline l → scan_from cur (l ++ rest) ≡ scan_from (cur ++ l) rest
unfolding scan_from
scan_from-inline [] cur rest h = rw (append-nil cur)
scan_from-inline (c ∷ cs) cur rest (h, t) =
    ground (arith, scan_from-inline cs (cur ++ c ∷ []) rest t, append_assoc cur (c ∷ []) cs)

-- A line with its newline comes off the front of the text.
pub scan_lines-cons :
    (l rest : Text)
    → IsInline l
    → size l < max_token_size
    → scan_lines (l ++ (b'\n' ∷ rest))
      ≡ record { lines = l ∷ (scan_lines rest).lines; stop = (scan_lines rest).stop }
unfolding scan_lines
scan_lines-cons l rest h fits =
    scan_from-inline l [] (b'\n' ∷ rest) h ∙ ground (arith, drop_cr-inline l h)

pub size-append : (a b : Text) → size (a ++ b) ≡ size a + size b
size-append [] b = omega arith
size-append (c ∷ a) b = omega (arith, size-append a b)
