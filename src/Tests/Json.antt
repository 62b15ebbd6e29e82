-- ===== src/Tests/Json.antt =====
-- Runs of the JSON reader.
use teddycloud_spotify_radio.Base.{[], ◌∷◌, ◌≡◌, refl, none, some, codes, text_eq}
use teddycloud_spotify_radio.Json.{raw_data, read_string}

escapes_stay_raw :
    raw_data (codes "{ \"type\":\"knock\", \"data\":\"for\\u0077ard\" }")
    ≡ some (codes "\"for\\u0077ard\"")
unfolding raw_data text_eq
escapes_stay_raw = refl

nested_data_is_not_read :
    raw_data (codes "{ \"type\":[1,{\"data\":2}], \"Data\": {\"a\": [ 1.5e3, null] }, \"x\":null }")
    ≡ some (codes "{\"a\": [ 1.5e3, null] }")
unfolding raw_data text_eq
nested_data_is_not_read = refl

leading_zero : raw_data (codes "{ \"type\":01 }") ≡ none
unfolding raw_data text_eq
leading_zero = refl

no_data : raw_data (codes "{ \"type\": -0.5 }") ≡ some []
unfolding raw_data text_eq
no_data = refl

unescaped : read_string (codes "\"f\\u006fr\\nward\"") ≡ some (codes "for\nward")
unfolding read_string text_eq
unescaped = refl

surrogates : read_string (codes "\"\\ud83d\\ude00\\ud83d\"") ≡ some (0x1f600 ∷ 0xfffd ∷ [])
unfolding read_string text_eq
surrogates = refl

null_is_empty : read_string (codes "null") ≡ some []
unfolding read_string text_eq
null_is_empty = refl

number_is_no_string : read_string (codes "12") ≡ none
unfolding read_string text_eq
number_is_no_string = refl
