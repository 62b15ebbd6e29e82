-- ===== src/Pulse/Sinks.antt =====
-- internal/audio/pulse.go: `sinkListed`; internal/audio/monitor.go: `findSinkByName`.
pub mod Listing
use teddycloud_spotify_radio.Base.{
  ℕ, Bool, true, false, ◌||◌, List, [], ◌∷◌, Option, none, some, if◌then◌else◌, Text, codes,
  text_eq, split, split_by, fields,
}

abbrev pub sink_name : Text
sink_name = codes "virtual_out"

second_is_sink : List Text → Bool
unfolding text_eq
second_is_sink (index ∷ name ∷ rest) = text_eq name sink_name
second_is_sink _ = false

any_listed : List Text → Bool
unfolding second_is_sink fields
any_listed [] = false
any_listed (line ∷ lines) = second_is_sink (fields line) || any_listed lines

-- A line of the listing has the sink's name as its second field.
unfoldable pub sink_listed : Text → Bool
unfolding any_listed split_by
sink_listed out = any_listed (split out b'\n')

-- The sinks of the client library, by what their `ID` gives: the first with the name.
unfoldable pub find_sink_by_name : {S : Type 0} → (S → Text) → List S → Option S
unfolding text_eq
find_sink_by_name id [] = none
find_sink_by_name id (s ∷ ss) =
    let rest = find_sink_by_name id ss in if text_eq (id s) sink_name then some s else rest
