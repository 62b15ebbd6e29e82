-- ===== src/Soloist/Binary/Extracted.antt =====
-- What the extraction of a tarball does to the files.
use teddycloud_spotify_radio.Base.{
  ℕ, Bool, true, false, List, [], ◌∷◌, Option, none, some, ◌≡◌, ◌≢◌, inl, inr, refl, ap,
  if◌then◌else◌, Text, text_eq, Bool-cases,
}
use teddycloud_spotify_radio.Soloist.Disk.{file, Disk, put}
use teddycloud_spotify_radio.Soloist.Binary.{
  BinaryManager, BinaryError, copy_failed, no_directory, Entry, Tarball, not_gzip, tarball, Machine,
  Reply, unreachable, reply, Resolved, dest, extract_binary, extract_from, extract_entry, extracted,
  with_status, with_reply, download, binary_name, tested, failed,
}

-- Either nothing was written, and there is an error other than a broken copy, or a file was.
pub data Wrote (place : Text) (d : Disk) (x : Disk × Option BinaryError) : Type 0 where
  nothing : x.0 ≡ d → x.1 ≢ none → x.1 ≢ some copy_failed → Wrote place d x
  something : (bytes : List ℕ) → x.0 ≡ put place (some (file bytes)) d → Wrote place d x

extract_entry-Wrote :
    (opens : Bool) (place : Text) (e : Entry) (d : Disk)
    → Wrote place d (extract_entry opens place e d)
unfolding extract_entry
extract_entry-Wrote true place e d = something e.bytes refl
extract_entry-Wrote false place e d = nothing refl (λ e. cc) (λ e. cc)

extract_from-Wrote :
    (opens : Bool) (place : Text) (es : List Entry) (broken : Bool) (d : Disk)
    → Wrote place d (extract_from opens place es broken d)
unfolding extract_from
extract_from-Wrote opens place [] true d = nothing refl (λ e. cc) (λ e. cc)
extract_from-Wrote opens place [] false d = nothing refl (λ e. cc) (λ e. cc)
extract_from-Wrote opens place (e ∷ es) broken d = elim (Bool-cases (text_eq e.name binary_name)) [
  | inl found ↦ rw found (extract_entry-Wrote opens place e d)
  | inr other ↦ rw other (extract_from-Wrote opens place es broken d)
]

pub extract_binary-Wrote :
    (opens : Bool) (place : Text) (t : Tarball) (d : Disk)
    → Wrote place d (extract_binary opens place t d)
unfolding extract_binary
extract_binary-Wrote opens place not_gzip d = nothing refl (λ e. cc) (λ e. cc)
extract_binary-Wrote opens place (tarball es broken) d = extract_from-Wrote opens place es broken d

-- What a download leaves: the files as they were, with an error other than a broken copy, or a new
-- binary, tested or broken.
pub data Leaves (m : Machine) (b : BinaryManager) (d : Disk) (r : Resolved) : Type 0 where
  untouched : (e : BinaryError) → r.disk ≡ d → r.error ≡ some e → e ≢ copy_failed → Leaves m b d r
  broken :
      (bytes : List ℕ)
      → r.disk ≡ put (dest b) (some (file bytes)) d
      → r.error ≢ none
      → Leaves m b d r
  fresh :
      (bytes : List ℕ)
      → r.disk ≡ put (dest b) (some (file bytes)) d
      → r ≡ tested m r.disk r.fetched (dest b)
      → Leaves m b d r

extracted-Leaves :
    (m : Machine) (b : BinaryManager) (fetched : List Text) (d d' : Disk) (o : Option BinaryError)
    → Wrote (dest b) d (d', o)
    → Leaves m b d (extracted m b fetched (d', o))
unfolding extracted failed tested
extracted-Leaves m b fetched d d' none (nothing same ok copy) = absurd (ok refl)
extracted-Leaves m b fetched d d' (some e) (nothing same ok copy) =
    untouched e same refl (λ x. copy (ap some x))
extracted-Leaves m b fetched d d' none (something bytes same) = fresh bytes same refl
extracted-Leaves m b fetched d d' (some e) (something bytes same) = broken bytes same (λ x. cc)

with_status-Leaves :
    (m : Machine) (b : BinaryManager) (fetched : List Text) (ok : Bool) (t : Tarball) (d : Disk)
    → Leaves m b d (with_status m b fetched ok t d)
unfolding with_status failed
with_status-Leaves m b fetched false t d = untouched _ refl refl (λ x. cc)
with_status-Leaves m b fetched true t d =
    elim m.makes_directory
      as (λ made. Leaves m b d (
        if made
        then extracted m b fetched (extract_binary m.opens_file (dest b) t d)
        else failed d fetched no_directory)) [
          | false ↦ untouched _ refl refl (λ x. cc)
          | true ↦
              extracted-Leaves m b fetched d (extract_binary m.opens_file (dest b) t d).0
                (extract_binary m.opens_file (dest b) t d).1
                (extract_binary-Wrote m.opens_file (dest b) t d)
        ]

with_reply-Leaves :
    (m : Machine) (b : BinaryManager) (url : Text) (r : Reply) (d : Disk)
    → Leaves m b d (with_reply m b url r d)
unfolding with_reply failed
with_reply-Leaves m b url unreachable d = untouched _ refl refl (λ x. cc)
with_reply-Leaves m b url (reply status t) d = with_status-Leaves m b (url ∷ []) _ t d

pub download-Leaves :
    (m : Machine) (b : BinaryManager) (url : Option Text) (d : Disk)
    → Leaves m b d (download m b url d)
unfolding download failed
download-Leaves m b none d = untouched _ refl refl (λ x. cc)
download-Leaves m b (some url) d = with_reply-Leaves m b url (m.answers url) d
