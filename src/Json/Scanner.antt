-- ===== src/Json/Scanner.antt =====
-- The scanner: a state machine over the characters, with a stack of open objects and arrays.
use teddycloud_spotify_radio.Base.{
  ℕ, zero, suc, Bool, ◌||◌, List, [], ◌∷◌, ◌++◌, Option, none, some, ltb, ◌==◌, if◌then◌else◌, Text,
  codes, text_eq, length,
}
use teddycloud_spotify_radio.Json.Strings.{unquote, fold_text, within, is_hex}

-- What the innermost open bracket waits for.
pub data Frame : Type 0 where
  object_key object_value array_value : Frame

pub data Phase : Type 0 where
  begin_value begin_value_or_end begin_key begin_key_or_end end_value : Phase
  in_string in_escape : Phase
  in_hex : ℕ → Phase
  in_literal : Text → Phase
  minus num_zero num_int num_dot num_frac num_exp num_sign num_exp_digits : Phase

-- `cur` is the text of the key or value being read; at depth 1 it starts anew with each of them.
pub record Scan : Type 0 where
  pub phase : Phase
  pub stack : List Frame
  pub cur : Text
  pub key : Text
  pub found : Option Text

unfoldable pub start : Scan
start = record { phase = begin_value; stack = []; cur = []; key = []; found = none }

abbrev is_blank : ℕ → Bool
is_blank c = c == b' ' || c == b'\t' || c == b'\r' || c == b'\n'

abbrev is_digit : ℕ → Bool
is_digit = within b'0' b'9'

abbrev pub grow : Scan → ℕ → Phase → Scan
grow s c p = record s { cur = s.cur ++ c ∷ []; phase = p }

-- The first character of a key or a value.
abbrev pub begin : Scan → ℕ → Phase → Scan
begin s c p = record s {
  cur = (if length s.stack == 1 then c ∷ [] else s.cur ++ c ∷ []);
  phase = p;
}

abbrev pub drop_last : Text → Text
drop_last [] = []
drop_last (x ∷ []) = []
drop_last (x ∷ y ∷ r) = x ∷ drop_last (y ∷ r)

-- The body of a literal: what stands between its quotes.
abbrev pub body : Text → Text
body [] = []
body (c ∷ cs) = drop_last cs

-- A key or a value has ended with the character before.
complete_in : List Frame → Scan → Scan
unfolding text_eq fold_text unquote
complete_in (object_key ∷ []) s = record s { key = s.cur; phase = end_value }
complete_in (object_value ∷ []) s = record s {
  found =
      (if text_eq (fold_text (unquote (body s.key))) (codes "data") then some s.cur else s.found);
  phase = end_value;
}
complete_in _ s = record s { phase = end_value }

complete : Scan → Scan
unfolding complete_in
complete s = complete_in s.stack s

-- `maxNestingDepth` of encoding/json.
max_depth : ℕ
max_depth = 10000

push : Scan → Frame → Phase → Option Scan
unfolding max_depth
push s f p =
    if ltb (length s.stack) max_depth
    then some (record s { stack = f ∷ s.stack; phase = p })
    else none

pop_in : List Frame → Scan → ℕ → Option Scan
unfolding complete
pop_in [] s c = none
pop_in (f ∷ fs) s c = some (complete (record (grow s c end_value) { stack = fs }))

pop : Scan → ℕ → Option Scan
unfolding pop_in
pop s c = pop_in s.stack s c

step_value : Scan → ℕ → Option Scan
unfolding push
step_value s c =
    if is_blank c
    then some s
    else if c == b'{'
    then push (begin s c s.phase) object_key begin_key_or_end
    else if c == b'['
    then push (begin s c s.phase) array_value begin_value_or_end
    else if c == b'"'
    then some (begin s c in_string)
    else if c == b'-'
    then some (begin s c minus)
    else if c == b'0'
    then some (begin s c num_zero)
    else if within b'1' b'9' c
    then some (begin s c num_int)
    else if c == b't'
    then some (begin s c (in_literal (codes "rue")))
    else if c == b'f'
    then some (begin s c (in_literal (codes "alse")))
    else if c == b'n'
    then some (begin s c (in_literal (codes "ull")))
    else none

step_key : Scan → ℕ → Option Scan
step_key s c = if is_blank c then some s else if c == b'"' then some (begin s c in_string) else none

-- Behind a complete key or value, by what the innermost bracket waits for.
step_end : List Frame → Scan → ℕ → Option Scan
unfolding pop
step_end [] s c = if is_blank c then some s else none
step_end (object_key ∷ fs) s c =
    if is_blank c
    then some (grow s c end_value)
    else if c == b':'
    then some (record (grow s c begin_value) { stack = object_value ∷ fs })
    else none
step_end (object_value ∷ fs) s c =
    if is_blank c
    then some (grow s c end_value)
    else if c == b','
    then some (record (grow s c begin_key) { stack = object_key ∷ fs })
    else if c == b'}'
    then pop s c
    else none
step_end (array_value ∷ fs) s c =
    if is_blank c
    then some (grow s c end_value)
    else if c == b','
    then some (grow s c begin_value)
    else if c == b']'
    then pop s c
    else none

-- A number ends where a character does not continue it.
end_number : Scan → ℕ → Option Scan
unfolding complete step_end
end_number s c = step_end s.stack (complete s) c

step_fraction : Scan → ℕ → Option Scan
unfolding end_number
step_fraction s c =
    if c == b'.'
    then some (grow s c num_dot)
    else if c == b'e' || c == b'E'
    then some (grow s c num_exp)
    else end_number s c

digit_or : Option Scan → Scan → ℕ → Phase → Option Scan
digit_or other s c p = if is_digit c then some (grow s c p) else other

in_rest : Text → Scan → ℕ → Option Scan
unfolding complete
in_rest [] s c = none
in_rest (r ∷ []) s c = if c == r then some (complete (grow s c end_value)) else none
in_rest (r ∷ r' ∷ rs) s c = if c == r then some (grow s c (in_literal (r' ∷ rs))) else none

is_escape : ℕ → Bool
is_escape c =
    c == b'b'
    || c == b'f'
    || c == b'n'
    || c == b'r'
    || c == b't'
    || c == b'\\'
    || c == b'/'
    || c == b'"'

-- White space inside an object or array is part of its text at depth 2 and more only; at depth 1 it
-- falls between two keys or values, each of which starts `cur` anew.
step_in : Phase → Scan → ℕ → Option Scan
unfolding step_value step_key step_end step_fraction digit_or end_number in_rest is_escape
step_in begin_value s c = if is_blank c then some (grow s c s.phase) else step_value s c
step_in begin_value_or_end s c =
    if is_blank c then some (grow s c s.phase) else if c == b']' then pop s c else step_value s c
step_in begin_key s c = if is_blank c then some (grow s c s.phase) else step_key s c
step_in begin_key_or_end s c =
    if is_blank c then some (grow s c s.phase) else if c == b'}' then pop s c else step_key s c
step_in end_value s c = step_end s.stack s c
step_in in_string s c =
    if c == b'"'
    then some (complete (grow s c end_value))
    else if c == b'\\'
    then some (grow s c in_escape)
    else if ltb c 0x20
    then none
    else some (grow s c in_string)
step_in in_escape s c =
    if c == b'u'
    then some (grow s c (in_hex 3))
    else if is_escape c
    then some (grow s c in_string)
    else none
step_in (in_hex zero) s c = if is_hex c then some (grow s c in_string) else none
step_in (in_hex (suc k)) s c = if is_hex c then some (grow s c (in_hex k)) else none
step_in (in_literal rest) s c = in_rest rest s c
step_in minus s c =
    if c == b'0'
    then some (grow s c num_zero)
    else if within b'1' b'9' c
    then some (grow s c num_int)
    else none
step_in num_zero s c = step_fraction s c
step_in num_int s c = digit_or (step_fraction s c) s c num_int
step_in num_dot s c = digit_or none s c num_frac
step_in num_frac s c =
    digit_or (if c == b'e' || c == b'E' then some (grow s c num_exp) else end_number s c) s c
      num_frac
step_in num_exp s c =
    if c == b'+' || c == b'-' then some (grow s c num_sign) else digit_or none s c num_exp_digits
step_in num_sign s c = digit_or none s c num_exp_digits
step_in num_exp_digits s c = digit_or (end_number s c) s c num_exp_digits

unfoldable pub step : Scan → ℕ → Option Scan
unfolding step_in
step s c = step_in s.phase s c

abbrev pub and_then : Option Scan → (Scan → Option Scan) → Option Scan
and_then none f = none
and_then (some s) f = f s

unfoldable pub run : Scan → Text → Option Scan
run s [] = some s
run s (c ∷ cs) = and_then (step s c) (λ s'. run s' cs)

-- The end of the input is read as a blank: the top value must be complete.
accept : Phase → List Frame → Scan → Option Scan
accept end_value [] s = some s
accept _ _ s = none

unfoldable pub finish : Scan → Option Scan
unfolding step accept
finish s = and_then (step s b' ') (λ t. accept t.phase t.stack t)

abbrev or_empty : Option Text → Text
or_empty none = []
or_empty (some t) = t

abbrev pub found_in : Option Scan → Option Text
found_in none = none
found_in (some t) = some (or_empty t.found)

-- `json.Unmarshal` of an object into `struct{ Data json.RawMessage }`: none if the text is no valid
-- JSON, and else the raw text of `data`, empty if there is none.
unfoldable pub raw_data : Text → Option Text
unfolding run start finish
raw_data s = found_in (and_then (run start s) finish)

-- `json.Unmarshal` of a raw value into a string: `null` leaves the string empty.
unfoldable pub read_string : Text → Option Text
unfolding unquote
read_string [] = none
read_string (c ∷ cs) =
    if c == b'"'
    then some (unquote (drop_last cs))
    else if text_eq (c ∷ cs) (codes "null")
    then some []
    else none
