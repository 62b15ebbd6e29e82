-- ===== src/Soloist/Binary/Fresh.antt =====
-- A binary that was found or downloaded is found again.
use teddycloud_spotify_radio.Base.{
  false, [], ◌∷◌, Option, none, some, ◌≡◌, ◌⊎◌, inl, inr, refl, sym, ap, ◌∙◌, arith, Text, text_eq,
  text_eq_iff, Option-cases, Text-cases, subst,
}
use teddycloud_spotify_radio.Soloist.Disk.{Node, file, Disk, put}
use teddycloud_spotify_radio.Soloist.Binary.{
  BinaryManager, Machine, Resolved, dest, resolve, with_explicit, on_path, in_data_dir, download,
  cdn_url, tested,
}
use teddycloud_spotify_radio.Soloist.Binary.Extracted.{
  Leaves, untouched, broken, fresh, download-Leaves,
}

pub put_same : (path : Text) (there : Option Node) (d : Disk) → put path there d path ≡ there
unfolding put
put_same path there d = rw ((text_eq_iff path path).1 refl)

put_other :
    (path q : Text) (there : Option Node) (d : Disk)
    → text_eq path q ≡ false
    → put path there d q ≡ d q
unfolding put
put_other path q there d e = rw e

-- `Resolve` takes a path for which it does not look at the files, or the place of downloads.
resolve_elsewhere :
    (m : Machine) (b : BinaryManager)
    → ((path : Text) × ((d : Disk) → resolve m b d ≡ tested m d [] path))
      ⊎ ((b.explicit_path ≡ []) × (m.look_path ≡ none))
unfolding resolve with_explicit on_path
resolve_elsewhere m b = elim (Text-cases b.explicit_path) [
  | inr (c, cs, e) ↦
      inl (c ∷ cs, λ d. subst (λ x. with_explicit m b x d ≡ tested m d [] (c ∷ cs)) (sym e) refl)
  | inl e ↦ elim (Option-cases m.look_path) [
    | inl none_found ↦ inr (e, none_found)
    | inr (path, found) ↦ inl (
      path,
      λ d.
          subst (λ x. with_explicit m b x d ≡ tested m d [] path) (sym e)
            (subst (λ x. on_path m b x d ≡ tested m d [] path) (sym found) refl),
    )
  ]
]

pub resolve_place :
    (m : Machine) (b : BinaryManager) (d : Disk)
    → b.explicit_path ≡ []
    → m.look_path ≡ none
    → resolve m b d ≡ in_data_dir m b (d (dest b)) d
unfolding resolve with_explicit on_path
resolve_place m b d e n =
    subst (λ x. with_explicit m b x d ≡ in_data_dir m b (d (dest b)) d) (sym e)
      (subst (λ x. on_path m b x d ≡ in_data_dir m b (d (dest b)) d) (sym n) refl)

-- The place holds something: it is taken, and nothing is fetched.
pub resolve_there :
    (m : Machine) (b : BinaryManager) (d : Disk) (there : Node)
    → b.explicit_path ≡ []
    → m.look_path ≡ none
    → d (dest b) ≡ some there
    → resolve m b d ≡ tested m d [] (dest b)
unfolding in_data_dir
resolve_there m b d there e n h = resolve_place m b d e n ∙ ap (λ o. in_data_dir m b o d) h

pub resolve_absent :
    (m : Machine) (b : BinaryManager) (d : Disk)
    → b.explicit_path ≡ []
    → m.look_path ≡ none
    → d (dest b) ≡ none
    → resolve m b d ≡ download m b (cdn_url m.arch) d
unfolding in_data_dir
resolve_absent m b d e n h = resolve_place m b d e n ∙ ap (λ o. in_data_dir m b o d) h

download-again :
    (m : Machine) (b : BinaryManager) (d : Disk) (r : Resolved)
    → b.explicit_path ≡ []
    → m.look_path ≡ none
    → Leaves m b d r
    → r.error ≡ none
    → resolve m b r.disk ≡ record r { fetched = [] }
unfolding tested
download-again m b d r e n (untouched x same error copy) ok = absurd (ground (arith, error))
download-again m b d r e n (broken bytes same error) ok = absurd (error ok)
download-again m b d r e n (fresh bytes same t) ok =
    resolve_there m b r.disk (file bytes) e n
      (ap (λ d'. d' (dest b)) same ∙ put_same (dest b) (some (file bytes)) d)
    ∙ ap (λ (x : Resolved). record x { fetched = [] }) (sym t)

module _ (m : Machine) (b : BinaryManager) where
  abbrev IsFoundAgain : Resolved → Type 0
  IsFoundAgain r = resolve m b r.disk ≡ record r { fetched = [] }

  -- After a `Resolve` without an error the next one gives the same path, without an error, leaves
  -- the files as they are and fetches nothing.
  pub resolve-resolve :
      (d : Disk)
      → (resolve m b d).error ≡ none
      → resolve m b (resolve m b d).disk ≡ record (resolve m b d) { fetched = [] }
  unfolding tested
  resolve-resolve d ok = elim (resolve_elsewhere m b) [
    | inl (path, all) ↦ subst IsFoundAgain (sym (all d)) (all d)
    | inr (e, n) ↦ elim (Option-cases (d (dest b))) [
      | inr (there, h) ↦ let q = resolve_there m b d there e n h in subst IsFoundAgain (sym q) q
      | inl absent ↦
          let q = resolve_absent m b d e n absent in
          subst IsFoundAgain (sym q) (
            download-again m b d (download m b (cdn_url m.arch) d) e n
              (download-Leaves m b (cdn_url m.arch) d)
              (subst (λ (r : Resolved). r.error ≡ none) q ok))
    ]
  ]

  download-Spares :
      (url : Option Text) (d : Disk) (q : Text)
      → text_eq (dest b) q ≡ false
      → (download m b url d).disk q ≡ d q
  download-Spares url d q e = elim (download-Leaves m b url d) [
    | untouched x same error copy ↦ ap (λ d'. d' q) same
    | broken bytes same error ↦ ap (λ d'. d' q) same ∙ put_other (dest b) q (some (file bytes)) d e
    | fresh bytes same r ↦ ap (λ d'. d' q) same ∙ put_other (dest b) q (some (file bytes)) d e
  ]

  abbrev IsCareful : Disk → Text → Resolved → Type 0
  IsCareful d q r =
      (r.disk q ≡ d q)
      × (((r.fetched ≡ []) × (r.disk ≡ d))
          ⊎ ((b.explicit_path ≡ []) × (m.look_path ≡ none) × (d (dest b) ≡ none)))

  -- `Resolve` changes no file but the one at the place of downloads; and it fetches something or
  -- changes that one only if no path is set, none is found on PATH and nothing is there.
  pub resolve_lem :
      (d : Disk) (q : Text)
      → text_eq (dest b) q ≡ false
      → ((resolve m b d).disk q ≡ d q)
        × ((((resolve m b d).fetched ≡ []) × ((resolve m b d).disk ≡ d))
            ⊎ ((b.explicit_path ≡ []) × (m.look_path ≡ none) × (d (dest b) ≡ none)))
  unfolding tested
  resolve_lem d q other = elim (resolve_elsewhere m b) [
    | inl (path, all) ↦ subst (IsCareful d q) (sym (all d)) (refl, inl (refl, refl))
    | inr (e, n) ↦ elim (Option-cases (d (dest b))) [
      | inr (there, h) ↦
          subst (IsCareful d q) (sym (resolve_there m b d there e n h)) (refl, inl (refl, refl))
      | inl absent ↦
          subst (IsCareful d q) (sym (resolve_absent m b d e n absent))
            (download-Spares (cdn_url m.arch) d q other, inr (e, n, absent))
    ]
  ]
