-- ===== src/Soloist/Expired.antt =====
-- internal/soloist: an expired binary, over pair.go, supervisor.go and binary.go together.
use teddycloud_spotify_radio.Base.{
  Bool, true, false, List, [], ◌∷◌, none, some, ◌≡◌, ◌⊎◌, inl, inr, sym, subst, ◌∙◌, arith,
  if◌then◌else◌, Text,
}
use teddycloud_spotify_radio.Process.{WaitError}
use teddycloud_spotify_radio.Soloist.Disk.{Disk}
use teddycloud_spotify_radio.Soloist.Binary.{
  BinaryManager, Machine, cdn_url, delete_binary, resolve,
}
use teddycloud_spotify_radio.Soloist.Binary.Broken.{resolve-delete_binary}
use teddycloud_spotify_radio.Soloist.Pairing.{PairEvent, pair_expired, pair}
use teddycloud_spotify_radio.Soloist.Pairing.Deciding.{pair-expired}
use teddycloud_spotify_radio.Soloist.Supervisor.{Supervisor, handle_exit}

-- The files behind a pairing or an exit that deleted the binary or not.
unfoldable pub files_behind : Bool → BinaryManager → Disk → Disk
unfolding delete_binary
files_behind deleted b d = if deleted then delete_binary true b d else d

handle_exit-expired :
    (s : Supervisor) (e : WaitError)
    → (handle_exit s e).restart ≡ false
    → (handle_exit s e).deleted ≡ s.has_binary_manager
unfolding handle_exit
handle_exit-expired s e h = ground arith

-- Whether the pairing ends with an expired binary, or the supervisor with an exit behind which it does
-- not restart: the next `Resolve` fetches the binary for the architecture, once. (Both have the binary
-- manager, which can remove the file; no path is set, and none is found on PATH.)
pub expired-resolve :
    (m : Machine) (b : BinaryManager) (d : Disk) (url : Text) (starts : Bool) (es : List PairEvent)
    (s : Supervisor) (e : WaitError) (deleted : Bool)
    → b.explicit_path ≡ []
    → m.look_path ≡ none
    → cdn_url m.arch ≡ some url
    → s.has_binary_manager ≡ true
    → (((pair true starts es).outcome ≡ some pair_expired)
        × (deleted ≡ (pair true starts es).deleted))
      ⊎ (((handle_exit s e).restart ≡ false) × (deleted ≡ (handle_exit s e).deleted))
    → (resolve m b (files_behind deleted b d)).fetched ≡ url ∷ []
unfolding files_behind
expired-resolve m b d url starts es s e deleted no_path none_found is_url has ended =
    let gone : deleted ≡ true = elim ended [
      | inl (expired, is) ↦ is ∙ pair-expired true starts es expired
      | inr (ended_for_good, is) ↦ is ∙ handle_exit-expired s e ended_for_good ∙ has
    ] in
    subst (λ x. (resolve m b (if x then delete_binary true b d else d)).fetched ≡ url ∷ [])
      (sym gone) (resolve-delete_binary m b d url no_path none_found is_url)
