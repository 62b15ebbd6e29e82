-- ===== src/Json.antt =====
-- The use that internal/sselistener/listener.go makes of Go's encoding/json: an object is checked
-- character by character, the raw text of its member `data` is kept (the last one counts, the key
-- may differ in the case of its letters), and a string is read from that raw text.
mod Strings
mod Scanner
pub mod Member
pub mod Encode
pub use Scanner.{Scan}
unfoldable pub use Strings.{unquote, fold_text}
unfoldable pub use Scanner.{start, step, run, finish, raw_data, read_string}
