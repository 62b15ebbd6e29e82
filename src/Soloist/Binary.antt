-- ===== src/Soloist/Binary.antt =====
-- internal/soloist/binary.go: where the Soloist binary comes from. The network, the search of PATH and
-- the run of a binary are inputs; the age of the binary is only logged. A tarball is the list of its
-- entries, and a copy that breaks off has written what it had read.
mod Extracted
pub mod Fresh
pub mod Broken
use teddycloud_spotify_radio.Base.{
  ℕ, Bool, true, false, List, [], ◌∷◌, ◌++◌, Option, none, some, ◌==◌, if◌then◌else◌, Text, codes,
  text_eq, join_paths,
}
use teddycloud_spotify_radio.Soloist.Disk.{Node, file, Disk, put}

pub record BinaryManager : Type 0 where
  pub explicit_path : Text
  pub data_dir : Text

pub data BinaryError : Type 0 where
  unsupported_arch no_answer bad_status no_directory : BinaryError
  bad_gzip bad_tar no_file copy_failed no_entry smoke_failed : BinaryError

-- An entry of a tarball: its name, the bytes that could be read, and whether that was all of it.
pub record Entry : Type 0 where
  pub name : Text
  pub bytes : List ℕ
  pub complete : Bool

-- The body of a reply: no gzip, or entries behind which the archive ends or is broken.
pub data Tarball : Type 0 where
  not_gzip : Tarball
  tarball : List Entry → Bool → Tarball

pub data Reply : Type 0 where
  unreachable : Reply
  reply : ℕ → Tarball → Reply

-- What surrounds a call of `Resolve`.
pub record Machine : Type 0 where
  pub arch : Text
  pub look_path : Option Text
  pub makes_directory : Bool
  pub opens_file : Bool
  pub answers : Text → Reply
  pub executes : Disk → Text → Bool

-- The path that was found, an error, the files behind the call, and the URLs that were fetched.
pub record Resolved : Type 0 where
  pub path : Text
  pub error : Option BinaryError
  pub disk : Disk
  pub fetched : List Text

cdn_base : Text
cdn_base = codes "https://soloist-builds.spotifycdn.com"

binary_name : Text
binary_name = codes "soloist"

unfoldable pub cdn_url : Text → Option Text
unfolding cdn_base text_eq
cdn_url arch =
    if text_eq arch (codes "amd64")
    then some (cdn_base ++ codes "/soloist_release_x86_64.tar.gz")
    else if text_eq arch (codes "arm64")
    then some (cdn_base ++ codes "/soloist_release_arm64.tar.gz")
    else if text_eq arch (codes "arm")
    then some (cdn_base ++ codes "/soloist_release_arm32.tar.gz")
    else none

-- The place of a downloaded binary.
unfoldable pub dest : BinaryManager → Text
unfolding join_paths binary_name
dest b = join_paths (b.data_dir ∷ codes "bin" ∷ binary_name ∷ [])

-- The entry is copied to the place: an existing file is emptied first.
extract_entry : Bool → Text → Entry → Disk → Disk × Option BinaryError
unfolding put
extract_entry opens place e d =
    if opens
    then (put place (some (file e.bytes)) d, if e.complete then none else some copy_failed)
    else (d, some no_file)

extract_from : Bool → Text → List Entry → Bool → Disk → Disk × Option BinaryError
unfolding extract_entry binary_name text_eq
extract_from opens place [] broken d = (d, some (if broken then bad_tar else no_entry))
extract_from opens place (e ∷ es) broken d =
    let rest = extract_from opens place es broken d in
    if text_eq e.name binary_name then extract_entry opens place e d else rest

unfoldable pub extract_binary : Bool → Text → Tarball → Disk → Disk × Option BinaryError
unfolding extract_from
extract_binary opens place not_gzip d = (d, some bad_gzip)
extract_binary opens place (tarball es broken) d = extract_from opens place es broken d

failed : Disk → List Text → BinaryError → Resolved
failed d fetched e = record { path = []; error = some e; disk = d; fetched = fetched }

-- `smokeTest`: the path stays the result where the test fails.
pub tested : Machine → Disk → List Text → Text → Resolved
tested m d fetched path = record {
  path = path;
  error = (if m.executes d path then none else some smoke_failed);
  disk = d;
  fetched = fetched;
}

extracted : Machine → BinaryManager → List Text → Disk × Option BinaryError → Resolved
unfolding failed tested
extracted m b fetched (d, some e) = failed d fetched e
extracted m b fetched (d, none) = tested m d fetched (dest b)

with_status : Machine → BinaryManager → List Text → Bool → Tarball → Disk → Resolved
unfolding extracted failed extract_binary
with_status m b fetched ok body d =
    if ok
    then (if m.makes_directory
        then extracted m b fetched (extract_binary m.opens_file (dest b) body d)
        else failed d fetched no_directory)
    else failed d fetched bad_status

with_reply : Machine → BinaryManager → Text → Reply → Disk → Resolved
unfolding with_status failed
with_reply m b url unreachable d = failed d (url ∷ []) no_answer
with_reply m b url (reply status body) d = with_status m b (url ∷ []) (status == 200) body d

-- `download`, and the test behind it.
pub download : Machine → BinaryManager → Option Text → Disk → Resolved
unfolding with_reply failed
download m b none d = failed d [] unsupported_arch
download m b (some url) d = with_reply m b url (m.answers url) d

pub in_data_dir : Machine → BinaryManager → Option Node → Disk → Resolved
unfolding download tested cdn_url
in_data_dir m b (some node) d = tested m d [] (dest b)
in_data_dir m b none d = download m b (cdn_url m.arch) d

on_path : Machine → BinaryManager → Option Text → Disk → Resolved
unfolding in_data_dir tested
on_path m b (some path) d = tested m d [] path
on_path m b none d = in_data_dir m b (d (dest b)) d

with_explicit : Machine → BinaryManager → Text → Disk → Resolved
unfolding on_path tested
with_explicit m b (c ∷ cs) d = tested m d [] (c ∷ cs)
with_explicit m b [] d = on_path m b m.look_path d

unfoldable pub resolve : Machine → BinaryManager → Disk → Resolved
unfolding with_explicit
resolve m b d = with_explicit m b b.explicit_path d

-- The file is removed, if it can be; that it is not there is no error.
unfoldable pub delete_binary : Bool → BinaryManager → Disk → Disk
unfolding put
delete_binary removable b d = if removable then put (dest b) none d else d
