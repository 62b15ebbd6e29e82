-- ===== src/Base/Paths.antt =====
-- `filepath.Join` on a system whose separator is a slash.
use mathlib.Core.Bool.{Bool, true, false, ◌||◌}
use mathlib.Core.List.{List, [], ◌∷◌, reverse}
use teddycloud_spotify_radio.Base.Tests.{◌==◌, if◌then◌else◌}
use teddycloud_spotify_radio.Base.Texts.{Text, codes, text_eq}
use teddycloud_spotify_radio.Base.Splits.{split, split_by, join_with}

-- "..": it takes the directory before it off, if there is one.
up : Bool → List Text → List Text
unfolding text_eq
up rooted (t ∷ ts) = if text_eq t (codes "..") then codes ".." ∷ t ∷ ts else ts
up true [] = []
up false [] = codes ".." ∷ []

-- The directories so far, the last one first.
walk : Bool → List Text → List Text → List Text
unfolding up text_eq
walk rooted dirs [] = dirs
walk rooted dirs (p ∷ ps) =
    walk rooted
      (if text_eq p [] || text_eq p (codes ".")
        then dirs
        else if text_eq p (codes "..")
        then up rooted dirs
        else p ∷ dirs)
      ps

finish : Bool → List Text → Text
unfolding join_with
finish true dirs = b'/' ∷ join_with b'/' (reverse dirs)
finish false [] = codes "."
finish false (d ∷ ds) = join_with b'/' (reverse (d ∷ ds))

is_rooted : Text → Bool
is_rooted [] = false
is_rooted (c ∷ cs) = c == b'/'

-- `filepath.Clean`.
unfoldable pub clean : Text → Text
unfolding finish walk is_rooted split_by
clean path = finish (is_rooted path) (walk (is_rooted path) [] (split path b'/'))

-- `filepath.Join`: leading empty elements are dropped.
unfoldable pub join_paths : List Text → Text
unfolding clean join_with
join_paths [] = []
join_paths ([] ∷ ps) = join_paths ps
join_paths ((c ∷ cs) ∷ ps) = clean (join_with b'/' ((c ∷ cs) ∷ ps))
