-- ===== src/Sse/Frames.antt =====
-- A frame in the form that Teddycloud sends it, read back.
use teddycloud_spotify_radio.Base.{
  ℕ, ◌+◌, ◌<◌, Bool, true, false, List, [], ◌∷◌, ◌++◌, some, ◌≡◌, ◌≢◌, refl, sym, ap, ◌∙◌,
  append_assoc, arith, ◌&&◌, All-append, Text, codes, is_space, trim_right, trim_space, has_prefix,
}
use teddycloud_spotify_radio.Json.{raw_data, read_string}
use teddycloud_spotify_radio.Json.Member.{IsPlain, raw_data-member, read_string-plain}
use teddycloud_spotify_radio.Sse.Dispatch.{
  CommandSender, Frame, no_frame, wrapped_value, dispatch, read_line, read_lines,
}
use teddycloud_spotify_radio.Sse.Lines.{
  Scanned, IsInline, is_inline, size, scan_lines, scan_lines-cons, size-append,
}

-- The JSON object that wraps a value.
abbrev pub wrap : Text → Text → Text
wrap name value =
    codes "{ \"type\":\"" ++ (name ++ (codes "\", \"data\":\"" ++ (value ++ codes "\" }")))

trim_right-append :
    (p : ℕ → Bool) (t : Text) (c : ℕ) → p c ≡ false → trim_right p (t ++ c ∷ []) ≡ t ++ c ∷ []
unfolding trim_right
trim_right-append p [] c h = rw h
trim_right-append p (d ∷ []) c h = rw (h, trim_right)
trim_right-append p (d ∷ e ∷ t) c h = rw (trim_right-append p (e ∷ t) c h)

wrap_inside : Text → Text → Text
wrap_inside n v = codes " \"type\":\"" ++ (n ++ (codes "\", \"data\":\"" ++ (v ++ codes "\" ")))

wrap-append : (n v : Text) → wrap n v ≡ (b'{' ∷ wrap_inside n v) ++ b'}' ∷ []
unfolding wrap_inside
wrap-append n v = simp append_assoc

brace_not_space : is_space b'}' ≡ false
unfolding is_space
brace_not_space = refl

trim_right-wrap : (n v : Text) → trim_right is_space (wrap n v) ≡ wrap n v
trim_right-wrap n v =
    ap (trim_right is_space) (wrap-append n v)
    ∙ trim_right-append is_space (b'{' ∷ wrap_inside n v) b'}' brace_not_space
    ∙ sym (wrap-append n v)

trim_space-wrap : (n v : Text) → trim_space (wrap n v) ≡ wrap n v
unfolding trim_space
trim_space-wrap n v = trim_right-wrap n v

trim_space-blank_wrap : (n v : Text) → trim_space (b' ' ∷ wrap n v) ≡ wrap n v
unfolding trim_space
trim_space-blank_wrap n v = trim_right-wrap n v

wrapped_value_of_object :
    (s raw v : Text)
    → trim_space s ≡ s
    → has_prefix s (codes "{") ≡ true
    → raw_data s ≡ some raw
    → read_string raw ≡ some v
    → wrapped_value s ≡ v
unfolding wrapped_value
wrapped_value_of_object s raw v t p r q = rw (t, p, r, wrapped_value) (rw q)

-- The value of a wrapped plain text is that text.
pub wrapped_value-wrap : (n v : Text) → IsPlain n → IsPlain v → wrapped_value (wrap n v) ≡ v
wrapped_value-wrap n v hn hv =
    wrapped_value_of_object (wrap n v) _ v (trim_space-wrap n v) (unfold has_prefix in refl)
      (raw_data-member n v hn hv) (read_string-plain v hv)

-- The two lines of a frame.
abbrev pub event_line : Text → Text
event_line name = codes "event: " ++ name

abbrev pub data_line : Text → Text → Text
data_line name value = codes "data: " ++ wrap name value

IsInline-of_plain : (t : Text) → IsPlain t → IsInline t
IsInline-of_plain [] h = tt
IsInline-of_plain (c ∷ cs) (h, t) = (ground arith, IsInline-of_plain cs t)

every_inline : Text → Bool
every_inline [] = true
every_inline (c ∷ cs) = is_inline c && every_inline cs

IsInline-of_every : (t : Text) → every_inline t ≡ true → IsInline t
unfolding every_inline
IsInline-of_every [] h = tt
IsInline-of_every (c ∷ cs) h = (ground arith, IsInline-of_every cs (ground arith))

append-IsInline : (a b : Text) → IsInline a → IsInline b → IsInline (a ++ b)
append-IsInline = All-append (λ c. is_inline c ≡ true)

literal-IsInline : (l : Text) (r : Text) → every_inline l ≡ true → IsInline r → IsInline (l ++ r)
literal-IsInline l r h t = append-IsInline l r (IsInline-of_every l h) t

wrap-IsInline : (n v : Text) → IsPlain n → IsPlain v → IsInline (wrap n v)
unfolding every_inline
wrap-IsInline n v hn hv = literal-IsInline (codes "{ \"type\":\"") _ refl (
    append-IsInline n _ (IsInline-of_plain n hn) (
      literal-IsInline (codes "\", \"data\":\"") _ refl (
        append-IsInline v (codes "\" }") (IsInline-of_plain v hv)
          (IsInline-of_every (codes "\" }") refl))))

size-wrap : (n v : Text) → size (wrap n v) ≡ size n + size v + 24
size-wrap n v = omega (
  arith,
  size-append n (codes "\", \"data\":\"" ++ (v ++ codes "\" }")),
  size-append v (codes "\" }"),
)

-- Names and values of which a frame is read back: plain characters, no space around the name, and
-- lines that fit the buffer of the scanner.
pub record IsSendable (n v : Text) : Type 0 where
  pub plain_name : IsPlain n
  pub plain_value : IsPlain v
  pub trimmed : trim_space (b' ' ∷ n) ≡ n
  pub named : n ≢ []
  pub fits : size n + size n + size v < 65000

-- What the listener makes of a body, from a new connection on.
abbrev pub listen : {S E : Type 0} → CommandSender S E → S → Text → Frame × S
listen commands s body = read_lines commands (no_frame, s) (scan_lines body).lines

module _ {S E : Type 0} (commands : CommandSender S E) where
  read_event_line :
      (n : Text) (s : S)
      → trim_space (b' ' ∷ n) ≡ n
      → read_line commands (no_frame, s) (event_line n) ≡ (record no_frame { event_name = n }, s)
  unfolding read_line
  read_event_line n s t = rw t

  read_data_line :
      (n v : Text) (s : S)
      → read_line commands (record no_frame { event_name = n }, s) (data_line n v)
        ≡ (record { event_name = n; buffer = wrap n v }, s)
  unfolding read_line
  read_data_line n v s = rw (trim_space-blank_wrap n v)

  read_blank_line :
      (n : Text) (b : Text) (s : S)
      → n ≢ []
      → read_line commands (record { event_name = n; buffer = b }, s) []
        ≡ (no_frame, dispatch commands n b s)
  unfolding read_line
  read_blank_line [] b s h = absurd (h refl)
  read_blank_line (c ∷ cs) b s h = refl

  pub read_frame :
      (n v : Text) (s : S) (ls : List Text)
      → IsSendable n v
      → read_lines commands (no_frame, s) (event_line n ∷ data_line n v ∷ [] ∷ ls)
        ≡ read_lines commands (no_frame, dispatch commands n (wrap n v) s) ls
  unfolding read_lines
  read_frame n v s ls h =
      rw (
        read_event_line n s h.trimmed,
        read_data_line n v s,
        read_blank_line n (wrap n v) s h.named,
      )

abbrev pub with_line : Text → Scanned → Scanned
with_line l r = record { lines = l ∷ r.lines; stop = r.stop }

pub scan_frame :
    (n v rest : Text)
    → IsSendable n v
    → scan_lines (event_line n ++ (b'\n' ∷ (data_line n v ++ (b'\n' ∷ b'\n' ∷ rest))))
      ≡ with_line (event_line n) (with_line (data_line n v) (with_line [] (scan_lines rest)))
unfolding every_inline
scan_frame n v rest h =
    scan_lines-cons (event_line n) _
      (literal-IsInline (codes "event: ") n refl (IsInline-of_plain n h.plain_name))
      (omega (arith, h.fits))
    ∙ ap (with_line (event_line n)) (
        scan_lines-cons (data_line n v) _
          (literal-IsInline (codes "data: ") (wrap n v) refl
            (wrap-IsInline n v h.plain_name h.plain_value))
          (omega (arith, h.fits, size-wrap n v))
        ∙ ap (with_line (data_line n v)) (scan_lines-cons [] rest tt (omega arith)))
