-- ===== src/Selfupdate/Replaced.antt =====
-- The replacement of the running binary.
use lazyswap.Prelude.{ap, arith, if◌then◌else◌, refl, some, subst, sym, true, ◌∙◌, ◌≡◌}
use lazyswap.Prelude.Result.{Result, err, ok}
use lazyswap.Prelude.Text.{Bytes, text_eq, text_eq_iff}
use lazyswap.Crypto.{hex_encode}
use lazyswap.Selfupdate.Install.{
  discard, fetch_checksum, install, install_verified, max_binary_bytes, os_call,
}
use lazyswap.Selfupdate.Keeps.{
  Ends, IsFileSystem, Keeps, Keeps-after, Keeps-bind, Keeps-call, Keeps-finally, Keeps-for,
  Keeps-given, Keeps-lift, Keeps-on_error, Keeps-with, View,
}
use lazyswap.Selfupdate.Machine.{
  Body, Machine, OsError, entry, eof, mismatch, on_error, os, read_limited,
}
use lazyswap.Selfupdate.Release.{Release, Updater, binary_name}
use lazyswap.Selfupdate.Temporary.{
  Fresh, Keeps-check_writable, Keeps-download_temp, Keeps-fetch_checksum, Kept, KeptBut, apart,
  discard-Kept, discard-others,
}
use lazyswap.Selfupdate.Verified.{IsUnpacked, Keeps-extract_binary, Keeps-sha256_file}

module _ (m : Machine) (view : m.State → View) (fs : IsFileSystem m view) (u : Updater)
    (before : View) (rel : Release) (exe : Bytes) where
  open m use {State, sha256, gunzip_tar, rename_file}

  -- The path `exe` has the content of the only entry of an archive whose SHA-256 is the one that was
  -- published for the release; every other file that was there before still has its content.
  abbrev pub Replaced : View → Type 0
  Replaced v =
      KeptBut m view fs u before (λ p. p ≡ exe) v
      × ((archive : Bytes) × (contents : Body) × (binary : Bytes) × (s : State) × ((fetch_checksum m
              u rel.checksum s).0
            ≡ ok (hex_encode (sha256 archive)))
          × (gunzip_tar archive ≡ ok (entry binary_name true contents eof))
          × (read_limited max_binary_bytes contents ≡ ok binary)
          × (v exe ≡ some binary))

  moved :
      (archive staged : Bytes) (asked : State)
      → (fetch_checksum m u rel.checksum asked).0 ≡ ok (hex_encode (sha256 archive))
      → Keeps view
          (λ v.
            (Kept m view fs u before v × Fresh m view fs u before staged)
            × IsUnpacked m view fs u before archive staged v)
          (on_error (os_call m (rename_file staged exe)) (discard m staged))
          (λ _ v. Replaced v)
          (Kept m view fs u before)
  moved archive staged asked published =
      Keeps-after view (λ v h. ((h.0.0, h.1), h.0.1))
        (Keeps-with view
          {P = λ v. Kept m view fs u before v × IsUnpacked m view fs u before archive staged v}
          (λ free.
            Keeps-on_error view _ _
              (Keeps-call view os (rename_file staged exe)
                (λ s h. renamed s (rename_file staged exe s) refl free h.0 h.1))
              (λ s kept. discard-Kept m view fs u before staged s free kept)))
    where
      renamed :
          (s : State) (r : Result OsError (Unit {0}) × State)
          → rename_file staged exe s ≡ r
          → Fresh m view fs u before staged
          → Kept m view fs u before (view s)
          → IsUnpacked m view fs u before archive staged (view s)
          → Ends view (λ _ v. Replaced v) (Kept m view fs u before) r
      renamed s (err x, t) e free kept there =
          subst (Kept m view fs u before)
            (sym (fs.rename_failed staged exe x s (ap (λ y. y.0) e))
              ∙ ap (λ (y : Result OsError (Unit {0}) × State). view y.1) e)
            kept
      renamed s (ok done, t) e free kept (contents, archived, (binary, copied, held)) =
          subst Replaced (ap (λ (y : Result OsError (Unit {0}) × State). view y.1) e) (
            λ p c other there.
                fs.rename_others staged exe p s (apart m view fs u before p c staged there free)
                  other
                ∙ kept p c there,
            (
              archive,
              contents,
              binary,
              asked,
              published,
              archived,
              copied,
              fs.rename_moves staged exe s (ap (λ y. y.0) e) ∙ held,
            ),
          )

  verified :
      (tarball : Bytes)
      → Keeps view
          (Kept m view fs u before)
          (install_verified m u rel exe tarball)
          (λ _ v. Replaced v)
          (Kept m view fs u before)
  unfolding install_verified
  verified tarball =
      Keeps-bind view _ _ (Keeps-fetch_checksum m view fs u before rel.checksum) (λ want asked.
        Keeps-bind view _ _ (Keeps-sha256_file m view fs u before tarball) (λ got _.
          Keeps-bind view _ _
            (Keeps-lift view (if text_eq got want then ok tt else err (mismatch rel.tag want got))
              (λ v h. h.0))
            (λ a _. Keeps-given view (λ checked.
              Keeps-after view (λ v h. (h.1.0, ((h.0, h.1.1), h.1.2)))
                (Keeps-for view
                  {P = λ c v.
                    (Kept m view fs u before v × (v tarball ≡ some c))
                    × (got ≡ hex_encode (sha256 c))}
                  (λ c. Keeps-with view (λ digest.
                    Keeps-bind view _ _ (Keeps-extract_binary m view fs u before tarball c _)
                      (λ staged _.
                        moved c staged asked.0
                          (asked.1 ∙ ap ok (sym (matched got want a checked) ∙ digest))))))))))
    where
      matched :
          (got want : Bytes) (a : Unit {0})
          → (if text_eq got want then ok tt else err (mismatch rel.tag want got)) ≡ ok a
          → got ≡ want
      matched got want a h = ground (arith, text_eq_iff got want)

  -- Install replaces the binary only by the content of an archive whose SHA-256 is the published one
  -- and which holds nothing but the file "lazyswap"; where it fails, and on every other path, the
  -- files that were there before still have their contents.
  pub install-Replaced :
      (s : State) (old : Bytes)
      → view s ≡ before
      → before exe ≡ some old
      → Ends view (λ _ v. Replaced v) (Kept m view fs u before) (install m u rel exe s)
  unfolding install
  install-Replaced s old now running =
      (Keeps-bind view {R = λ _ v. Replaced v} _ _ (Keeps-check_writable m view fs u before _)
          (λ _ _.
            Keeps-bind view _ _ (Keeps-download_temp m view fs u before _ rel.tarball) (λ tarball _.
              Keeps-with view (λ free.
                Keeps-finally view _ _ (verified tarball) (λ _ t done. cleaned tarball t free done)
                  (λ t kept. discard-Kept m view fs u before tarball t free kept))))).at
        s (λ p c there. ap (λ v. v p) now ∙ there)
    where
      cleaned :
          (tarball : Bytes) (t : State)
          → Fresh m view fs u before tarball
          → Replaced (view t)
          → Replaced (view (discard m tarball t).1)
      cleaned tarball t free (others, done) = (
        λ p c other there.
            discard-others m view fs u before tarball p t
              (apart m view fs u before p c tarball there free)
            ∙ others p c other there,
        (
          done.0,
          done.1,
          done.2,
          done.3,
          done.4,
          done.5,
          done.6,
          discard-others m view fs u before tarball exe t
                (apart m view fs u before exe old tarball running free)
              ∙ done.7,
        ),
      )
