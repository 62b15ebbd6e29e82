-- ===== src/Soloist/Binary/Broken.antt =====
-- The two ways to a new download: a deleted binary leads to one, a broken download does not.
use teddycloud_spotify_radio.Base.{
  ℕ, Bool, true, false, List, [], ◌∷◌, Option, none, some, ◌==◌, ◌≡◌, refl, ap, ◌∙◌, arith,
  if◌then◌else◌, Text, subst,
}
use teddycloud_spotify_radio.Soloist.Disk.{file, Disk}
use teddycloud_spotify_radio.Soloist.Binary.{
  BinaryManager, BinaryError, copy_failed, no_directory, Machine, Resolved, Reply, unreachable,
  reply, Tarball, dest, resolve, download, cdn_url, tested, failed, extracted, extract_binary,
  with_status, with_reply, delete_binary,
}
use teddycloud_spotify_radio.Soloist.Binary.Extracted.{
  Leaves, untouched, broken, fresh, download-Leaves,
}
use teddycloud_spotify_radio.Soloist.Binary.Fresh.{put_same, resolve_there, resolve_absent}

module _ (m : Machine) (b : BinaryManager) where
  extracted_fetched :
      (fetched : List Text) (d : Disk) (o : Option BinaryError)
      → (extracted m b fetched (d, o)).fetched ≡ fetched
  unfolding extracted failed tested
  extracted_fetched fetched d none = refl
  extracted_fetched fetched d (some e) = refl

  with_status_fetched :
      (fetched : List Text) (ok : Bool) (t : Tarball) (d : Disk)
      → (with_status m b fetched ok t d).fetched ≡ fetched
  unfolding with_status failed
  with_status_fetched fetched false t d = refl
  with_status_fetched fetched true t d =
      elim m.makes_directory
        as (λ made.
          (if made
            then extracted m b fetched (extract_binary m.opens_file (dest b) t d)
            else failed d fetched no_directory).fetched
          ≡ fetched) [
            | false ↦ refl
            | true ↦
                extracted_fetched fetched (extract_binary m.opens_file (dest b) t d).0
                  (extract_binary m.opens_file (dest b) t d).1
          ]

  with_reply_fetched :
      (url : Text) (r : Reply) (d : Disk) → (with_reply m b url r d).fetched ≡ url ∷ []
  unfolding with_reply failed
  with_reply_fetched url unreachable d = refl
  with_reply_fetched url (reply status t) d = with_status_fetched (url ∷ []) (status == 200) t d

  -- After `DeleteBinary` the next `Resolve` fetches the binary for the architecture, once, if no
  -- path is set, none is found on PATH and the file can be removed.
  pub resolve-delete_binary :
      (d : Disk) (url : Text)
      → b.explicit_path ≡ []
      → m.look_path ≡ none
      → cdn_url m.arch ≡ some url
      → (resolve m b (delete_binary true b d)).fetched ≡ url ∷ []
  unfolding delete_binary download
  resolve-delete_binary d url e n u =
      ap (λ (r : Resolved). r.fetched)
        (resolve_absent m b (delete_binary true b d) e n (put_same (dest b) none d)
          ∙ ap (λ o. download m b o (delete_binary true b d)) u)
      ∙ with_reply_fetched url (m.answers url) (delete_binary true b d)

  leaves_file :
      (d : Disk) (r : Resolved)
      → Leaves m b d r
      → r.error ≡ some copy_failed
      → (bytes : List ℕ) × (r.disk (dest b) ≡ some (file bytes))
  leaves_file d r (untouched x same error copy) e = absurd (copy (ground (arith, error)))
  leaves_file d r (broken bytes same error) e =
      (bytes, ap (λ d'. d' (dest b)) same ∙ put_same (dest b) (some (file bytes)) d)
  leaves_file d r (fresh bytes same t) e =
      (bytes, ap (λ d'. d' (dest b)) same ∙ put_same (dest b) (some (file bytes)) d)

-- If a download breaks off while the binary is written, no later `Resolve` downloads it again,
-- whatever the network then answers: it takes the part that was written. (No path is set, none is
-- found on PATH, and nothing was there at first.)
pub resolve_broken :
    (m later : Machine) (b : BinaryManager) (d : Disk)
    → b.explicit_path ≡ []
    → m.look_path ≡ none
    → later.look_path ≡ none
    → d (dest b) ≡ none
    → (resolve m b d).error ≡ some copy_failed
    → ((resolve later b (resolve m b d).disk).fetched ≡ [])
      × ((resolve later b (resolve m b d).disk).path ≡ dest b)
      × ((resolve later b (resolve m b d).disk).disk ≡ (resolve m b d).disk)
unfolding tested
resolve_broken m later b d e n n' absent copy =
    let q = resolve_absent m b d e n absent in
    let (bytes, there) =
      leaves_file m b d (download m b (cdn_url m.arch) d) (download-Leaves m b (cdn_url m.arch) d)
        (subst (λ (r : Resolved). r.error ≡ some copy_failed) q copy) in
    let again =
      resolve_there later b (resolve m b d).disk (file bytes) e n'
        (ap (λ (r : Resolved). r.disk (dest b)) q ∙ there) in
    (
      ap (λ (r : Resolved). r.fetched) again,
      ap (λ (r : Resolved). r.path) again,
      ap (λ (r : Resolved). r.disk) again,
    )
