-- ===== src/Selfupdate/Verified.antt =====
-- The binary is replaced only by the content of a verified archive, and no other file is touched.
use lazyswap.Prelude.{ap, ap₂, refl, some, subst, sym, true, ◌∙◌, ◌≡◌}
use lazyswap.Prelude.Result.{Result, err, ok}
use lazyswap.Prelude.Text.{Bytes, text_eq_iff}
use lazyswap.Crypto.{hex_encode}
use lazyswap.Selfupdate.Install.{
  discard, expect_end, extract_binary, extract_entry, max_binary_bytes, os_call, sha256_file,
  write_executable,
}
use lazyswap.Selfupdate.Keeps.{
  Ends, IsFileSystem, Keeps, Keeps-after, Keeps-bind, Keeps-call, Keeps-fail, Keeps-given, Keeps-if,
  Keeps-lift, Keeps-on_error, Keeps-or, Keeps-pure, Keeps-with, View,
}
use lazyswap.Selfupdate.Machine.{
  Body, Machine, OsError, Tar, broken, call, entry, eof, lift, open_archive, os, pure, read_limited,
  with_error, ◌>>=◌,
}
use lazyswap.Selfupdate.Release.{Updater, binary_name}
use lazyswap.Selfupdate.Temporary.{
  Fresh, Holds, Keeps-copy, Keeps-create, Keeps-os, Kept, discard-Kept,
}

module _ (m : Machine) (view : m.State → View) (fs : IsFileSystem m view) (u : Updater)
    (before : View) where
  open m use {State, sha256, gunzip_tar, read_file, rename_file}

  -- the files that were there before, and a temporary one
  abbrev Staged : Bytes → View → Type 0
  Staged q v = Kept m view fs u before v × Fresh m view fs u before q

  Keeps-read :
      {P : View → Type 0} (q : Bytes)
      → Keeps view P (os_call m (read_file q)) (λ c v. P v × (v q ≡ some c)) P
  Keeps-read {P} q = Keeps-call view os (read_file q) (λ s p. found s (read_file q s) refl p)
    where
      found :
          (s : State) (r : Result OsError Bytes × State)
          → read_file q s ≡ r
          → P (view s)
          → Ends view (λ c v. P v × (v q ≡ some c)) P r
      found s (ok c, t) e p =
          let same : view s ≡ view t =
            sym (fs.read_quiet q s) ∙ ap (λ (x : Result OsError Bytes × State). view x.1) e in
          subst (λ v. P v × (v q ≡ some c)) same (p, fs.read_content q c s (ap (λ x. x.0) e))
      found s (err x, t) e p =
          subst P (sym (fs.read_quiet q s) ∙ ap (λ (x : Result OsError Bytes × State). view x.1) e)
            p

  pub Keeps-sha256_file :
      {P : View → Type 0} (q : Bytes)
      → Keeps view P
          (sha256_file m q)
          (λ got v. P v × ((c : Bytes) × (v q ≡ some c) × (got ≡ hex_encode (sha256 c))))
          P
  unfolding sha256_file
  Keeps-sha256_file q =
      Keeps-bind view _ _ (Keeps-read q) (λ c _. Keeps-pure view _ (λ v h. (h.0, (c, h.1, refl))))

  Keeps-write_executable :
      (contents : Body) (dir : Bytes)
      → Keeps view
          (Kept m view fs u before)
          (write_executable m contents dir)
          (λ q v.
            Staged q v × Holds m view fs u before q (read_limited max_binary_bytes contents) v)
          (Kept m view fs u before)
  unfolding write_executable
  Keeps-write_executable contents dir =
      Keeps-bind view _ _ (Keeps-create m view fs u before os dir _) (λ q _.
        Keeps-with view (λ free.
          Keeps-bind view _ _
            (Keeps-on_error view _ _
              (Keeps-bind view _ _ (Keeps-copy m view fs u before q _ free) (λ _ _.
                Keeps-bind view _ _
                  (Keeps-os m view fs u before (m.chmod_file q 493) (fs.chmod_quiet q 493)
                    (λ v h. h.0))
                  (λ _ _.
                    Keeps-os m view fs u before (m.close_file q) (fs.close_quiet q) (λ v h. h.0))))
              (λ s kept. discard-Kept m view fs u before q s free kept))
            (λ _ _. Keeps-pure view q (λ v h. ((h.0, free), h.1)))))

  -- The content `c` is an archive of one file, whose content the path `q` has.
  abbrev pub IsUnpacked : (c q : Bytes) → View → Type 0
  IsUnpacked c q v =
      (contents : Body) × (gunzip_tar c ≡ ok (entry binary_name true contents eof))
      × Holds m view fs u before q (read_limited max_binary_bytes contents) v

  Keeps-expect_end :
      (c staged : Bytes) (contents : Body) (rest : Tar)
      → gunzip_tar c ≡ ok (entry binary_name true contents rest)
      → Keeps view
          (λ v.
            Staged staged v
            × Holds m view fs u before staged (read_limited max_binary_bytes contents) v)
          (expect_end m staged rest)
          (λ q v. Staged q v × IsUnpacked c q v)
          (Kept m view fs u before)
  unfolding expect_end lift ◌>>=◌ discard call pure
  Keeps-expect_end c staged contents eof e =
      Keeps-pure view staged (λ v h. (h.0, (contents, e, h.1)))
  Keeps-expect_end c staged contents (broken x) e = record {
    at = λ s h. discard-Kept m view fs u before staged s h.0.1 h.0.0;
  }
  Keeps-expect_end c staged contents (entry n r b t) e = record {
    at = λ s h. discard-Kept m view fs u before staged s h.0.1 h.0.0;
  }

  Keeps-extract_entry :
      (c dir : Bytes) (tar : Tar)
      → gunzip_tar c ≡ ok tar
      → Keeps view
          (Kept m view fs u before)
          (extract_entry m dir tar)
          (λ q v. Staged q v × IsUnpacked c q v)
          (Kept m view fs u before)
  unfolding extract_entry
  Keeps-extract_entry c dir eof e = Keeps-fail view _ (λ v kept. kept)
  Keeps-extract_entry c dir (broken x) e = Keeps-fail view _ (λ v kept. kept)
  Keeps-extract_entry c dir (entry name r contents rest) e =
      Keeps-if view _ _ _
        (λ named.
          Keeps-if view _ _ _
            (λ regular. Keeps-bind view _ _ (Keeps-write_executable contents dir) (λ staged _.
              Keeps-expect_end c staged contents rest (
                e
                ∙ ap₂ (λ n b. ok (entry n b contents rest)) ((text_eq_iff name binary_name).0 named)
                    regular)))
            (λ _. Keeps-fail view _ (λ v kept. kept)))
        (λ _. Keeps-fail view _ (λ v kept. kept))

  pub Keeps-extract_binary :
      (tarball c dir : Bytes)
      → Keeps view
          (λ v. Kept m view fs u before v × (v tarball ≡ some c))
          (extract_binary m tarball dir)
          (λ q v. Staged q v × IsUnpacked c q v)
          (Kept m view fs u before)
  unfolding extract_binary
  Keeps-extract_binary tarball c dir =
      Keeps-bind view _ _ (Keeps-or view (λ v h. h.0) (Keeps-read tarball)) (λ c' _.
        Keeps-after view (λ v h. (h.0.0, same_content (sym h.1 ∙ h.0.1)))
          (Keeps-with view (λ same.
            Keeps-bind view _ _
              (Keeps-lift view (with_error open_archive (gunzip_tar c')) (λ v kept. kept))
              (λ tar _. Keeps-given view (λ unpacked. Keeps-extract_entry c dir tar (
                opened (gunzip_tar c)
                  (subst (λ x. with_error open_archive (gunzip_tar x) ≡ ok tar) same unpacked)))))))
    where
      same_content : {a b : Bytes} → some a ≡ some b → a ≡ b
      same_content h = cc

      opened : {t : Tar} (r : Result Bytes Tar) → with_error open_archive r ≡ ok t → r ≡ ok t
      opened (ok t) h = cc
      opened (err x) h = cc
