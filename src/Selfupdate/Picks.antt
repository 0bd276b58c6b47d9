-- ===== src/Selfupdate/Picks.antt =====
-- The files of a release that are installed: those of this platform.
use mathlib.Core.List.{Memᴰ}
use lazyswap.Prelude.{
  Bool-cases, List, [], arith, false, inl, inr, null, refl, subst, sym, true, ◌++◌, ◌∷◌, ◌≡◌, ◌⊎◌,
}
use lazyswap.Prelude.Result.{Result, err, ok}
use lazyswap.Prelude.Text.{Bytes, codes, text_eq, text_eq_iff}
use lazyswap.Selfupdate.Machine.{Asset, GhRelease, Machine, UpdateError}
use lazyswap.Selfupdate.Release.{
  Release, Updater, asset_name, check_release, or_default, pick, pick_for, take_asset, take_assets,
  target,
}

-- The address `now` is `start`, or that of an asset with the name.
abbrev Named : List Asset → (name start now : Bytes) → Type 0
Named assets name start now =
    (now ≡ start) ⊎ ((a : Asset) × Memᴰ a assets × (a.name ≡ name) × (a.url ≡ now))

Named-kept :
    (a : Asset) (assets : List Asset) (name start now : Bytes)
    → Named assets name start now
    → Named (a ∷ assets) name start now
Named-kept a assets name start now (inl e) = inl e
Named-kept a assets name start now (inr (b, at, named, there)) = inr (b, Memᴰ.tail at, named, there)

Named-here :
    (a : Asset) (assets : List Asset) (name start now : Bytes)
    → a.name ≡ name
    → Named assets name a.url now
    → Named (a ∷ assets) name start now
Named-here a assets name start now named (inl e) = inr (a, Memᴰ.head refl, named, sym e)
Named-here a assets name start now named (inr (b, at, same, there)) =
    inr (b, Memᴰ.tail at, same, there)

-- What the loop found in the assets.
abbrev Collected : (want : Bytes) → List Asset → (out now : Release) → Type 0
Collected want assets out now =
    (now.tag ≡ out.tag)
    × Named assets want out.tarball now.tarball
    × Named assets (want ++ codes ".sha256") out.checksum now.checksum

take_assets-Collected :
    (want : Bytes) (assets : List Asset) (out : Release)
    → Collected want assets out (take_assets want assets out)
unfolding take_assets
take_assets-Collected want [] out = (refl, inl refl, inl refl)
take_assets-Collected want (a ∷ assets) out = elim (Bool-cases (text_eq a.name want)) [
  | inl e ↦
      let now = record out { tarball = a.url } in
      let (tag, tarball, checksum) = take_assets-Collected want assets now in
      taken now (ground (arith, e)) (
        tag,
        Named-here a assets want out.tarball _ ((text_eq_iff a.name want).0 e) tarball,
        Named-kept a assets _ out.checksum _ checksum,
      )
  | inr o ↦ elim (Bool-cases (text_eq a.name (want ++ codes ".sha256"))) [
    | inl e ↦
        let now = record out { checksum = a.url } in
        let (tag, tarball, checksum) = take_assets-Collected want assets now in
        taken now (ground (arith, o, e)) (
          tag,
          Named-kept a assets want out.tarball _ tarball,
          Named-here a assets _ out.checksum _ ((text_eq_iff a.name _).0 e) checksum,
        )
    | inr p ↦
        let (tag, tarball, checksum) = take_assets-Collected want assets out in
        taken out (ground (arith, o, p)) (
          tag,
          Named-kept a assets want out.tarball _ tarball,
          Named-kept a assets _ out.checksum _ checksum,
        )
  ]
]
  where
    taken :
        (now : Release)
        → take_asset want a out ≡ now
        → Collected want (a ∷ assets) out (take_assets want assets now)
        → Collected want (a ∷ assets) out (take_assets want (a ∷ assets) out)
    taken now e c =
        subst (λ x. Collected want (a ∷ assets) out (take_assets want assets x)) (sym e) c

-- An asset of the release with the name has the address, which is not empty.
abbrev pub Publishes : GhRelease → (name url : Bytes) → Type 0
Publishes rel name url =
    (null url ≡ false) × ((a : Asset) × Memᴰ a rel.assets × (a.name ≡ name) × (a.url ≡ url))

Publishes-of :
    (rel : GhRelease) (name url : Bytes)
    → Named rel.assets name [] url
    → null url ≡ false
    → Publishes rel name url
Publishes-of rel name url (inl e) given = absurd (empty e given)
  where
    empty : url ≡ [] → null url ≡ false → ⊥
    empty e h = cc
Publishes-of rel name url (inr found) given = (given, found)

check_release-same :
    (want : Bytes) (out r : Release)
    → check_release want out ≡ ok r
    → (null out.tarball ≡ false) × (null out.checksum ≡ false) × (out ≡ r)
unfolding check_release
check_release-same want out r h = elim (Bool-cases (null out.tarball)) [
  | inl e ↦ absurd (no_tarball e)
  | inr t ↦ elim (Bool-cases (null out.checksum)) [
    | inl e ↦ absurd (unchecked t e)
    | inr c ↦ (t, c, given t c)
  ]
]
  where
    no_tarball : null out.tarball ≡ true → ⊥
    no_tarball e = ground (arith, e)

    unchecked : null out.tarball ≡ false → null out.checksum ≡ true → ⊥
    unchecked t e = ground (arith, t, e)

    given : null out.tarball ≡ false → null out.checksum ≡ false → out ≡ r
    given t c = ground (arith, t, c)

module _ (m : Machine) (u : Updater) where
  open m use {runtime_goos, runtime_goarch}

  -- The release `r` has the tag of `rel`, and the addresses of two of its assets: the tarball of this
  -- platform and the digest of that tarball.
  abbrev pub IsPublished : GhRelease → Release → Type 0
  IsPublished rel r =
      (r.tag ≡ rel.tag)
      × ((t : Bytes) × (target (or_default u.goos runtime_goos) (or_default u.goarch runtime_goarch)
            ≡ ok t)
          × Publishes rel (asset_name t) r.tarball
          × Publishes rel (asset_name t ++ codes ".sha256") r.checksum)

  -- A release that pick returns has the tag of the published one, which is not empty, and the
  -- addresses of two of its assets: the tarball of this platform and the digest of that tarball.
  pub pick-Publishes :
      (rel : GhRelease) (r : Release)
      → pick m u rel ≡ ok r
      → (null rel.tag ≡ false) × IsPublished rel r
  unfolding pick pick_for
  pick-Publishes rel r h = elim (Bool-cases (null rel.tag)) [
    | inl e ↦ absurd (untagged e)
    | inr tagged ↦ (
      tagged,
      for_target (target (or_default u.goos runtime_goos) (or_default u.goarch runtime_goarch)) refl
          (tagged_case tagged),
    )
  ]
    where
      untagged : null rel.tag ≡ true → ⊥
      untagged e = ground (arith, e)

      tagged_case :
          null rel.tag ≡ false
          → pick_for
              (target (or_default u.goos runtime_goos) (or_default u.goarch runtime_goarch))
              rel
            ≡ ok r
      tagged_case e = ground (arith, e)

      for_target :
          (t : Result UpdateError Bytes)
          → target (or_default u.goos runtime_goos) (or_default u.goarch runtime_goarch) ≡ t
          → pick_for t rel ≡ ok r
          → IsPublished rel r
      for_target (err x) e k = cc
      for_target (ok t) e k =
          let start : Release = record { tag = rel.tag; tarball = []; checksum = [] } in
          let out = take_assets (asset_name t) rel.assets start in
          let (tarball_given, checksum_given, same) = check_release-same (asset_name t) out r k in
          subst (IsPublished rel) same (
            let (tag, tarball, checksum) = take_assets-Collected (asset_name t) rel.assets start in
            (
              tag,
              (
                t,
                e,
                Publishes-of rel _ _ tarball tarball_given,
                Publishes-of rel _ _ checksum checksum_given,
              ),
            ))
