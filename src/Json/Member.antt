-- ===== src/Json/Member.antt =====
-- What the reader makes of the objects that a Teddycloud server sends, whose two members are plain
-- strings.
use teddycloud_spotify_radio.Base.{
  ℕ, Bool, true, ◌&&◌, not, [], ◌∷◌, ◌++◌, none, some, ◌≡◌, refl, ap, ◌∙◌, append-nil, append_assoc,
  arith, leb, ◌==◌, All, Text, codes,
}
use teddycloud_spotify_radio.Json.Strings.{unquote}
use teddycloud_spotify_radio.Json.Scanner.{
  Scan, in_string, object_value, grow, step, run, and_then, drop_last, raw_data, read_string,
  found_in, finish,
}

-- A character that stands for itself inside a literal.
abbrev pub is_plain : ℕ → Bool
is_plain c = leb 0x20 c && not (c == b'"') && not (c == b'\\')

abbrev pub IsPlain : Text → Type 0
IsPlain = All (λ c. is_plain c ≡ true)

step-plain :
    (s : Scan) (c : ℕ)
    → s.phase ≡ in_string
    → is_plain c ≡ true
    → step s c ≡ some (grow s c in_string)
unfolding step
step-plain s c p h = rw (p, step) (ground arith)

run-plain :
    (v : Text) (s : Scan) (rest : Text)
    → s.phase ≡ in_string
    → IsPlain v
    → run s (v ++ rest) ≡ run (record s { cur = s.cur ++ v; phase = in_string }) rest
unfolding run
run-plain [] s rest p h = rw (append-nil s.cur, ← p)
run-plain (c ∷ cs) s rest p (h, t) =
    rw (step-plain s c p h)
      (run-plain cs (grow s c in_string) rest refl t ∙ rw (append_assoc s.cur (c ∷ []) cs))

-- Inside the literal of `type`, and of `data`, once the first was `n`.
in_type : Scan
in_type = record {
  phase = in_string;
  stack = object_value ∷ [];
  cur = b'"' ∷ [];
  key = codes "\"type\"";
  found = none;
}

in_data : Text → Scan
in_data n = record in_type { key = codes "\"data\"" }

-- The raw text of `data`, and nothing of `type`.
pub raw_data-member :
    (n v : Text)
    → IsPlain n
    → IsPlain v
    → raw_data (codes "{ \"type\":\"" ++ (n ++ (codes "\", \"data\":\"" ++ (v ++ codes "\" }"))))
      ≡ some (b'"' ∷ (v ++ b'"' ∷ []))
unfolding raw_data step in_type in_data
raw_data-member n v hn hv =
    ap (λ o. found_in (and_then o finish))
      (run-plain n in_type (codes "\", \"data\":\"" ++ (v ++ codes "\" }")) refl hn
        ∙ run-plain v (in_data n) (codes "\" }") refl hv)

pub drop_last-append : (v : Text) (c : ℕ) → drop_last (v ++ c ∷ []) ≡ v
drop_last-append [] c = refl
drop_last-append (x ∷ []) c = refl
drop_last-append (x ∷ y ∷ v) c = ap (◌∷◌ x) (drop_last-append (y ∷ v) c)

unquote-plain : (v : Text) → IsPlain v → unquote v ≡ v
unfolding unquote
unquote-plain [] h = refl
unquote-plain (c ∷ cs) (h, t) = ground (arith, unquote-plain cs t)

-- A plain literal is read as it stands.
pub read_string-plain : (v : Text) → IsPlain v → read_string (b'"' ∷ (v ++ b'"' ∷ [])) ≡ some v
unfolding read_string
read_string-plain v h = ap some (ap unquote (drop_last-append v b'"') ∙ unquote-plain v h)
