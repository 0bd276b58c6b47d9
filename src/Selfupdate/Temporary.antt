-- ===== src/Selfupdate/Temporary.antt =====
-- The temporary files of an update: their paths were free, and no file that was there is touched.
use lazyswap.Prelude.{
  Option-cases, ap, arith, inl, inr, none, refl, some, subst, sym, ◌∙◌, ◌≡◌, ◌≢◌,
}
use lazyswap.Prelude.Result.{Result, err, ok}
use lazyswap.Prelude.Text.{Bytes}
use lazyswap.Selfupdate.Install.{
  check_writable, copy_to, discard, download_temp, fetch_checksum, os_call, probe_error,
}
use lazyswap.Selfupdate.Keeps.{
  Ends, IsFileSystem, Keeps, Keeps-after, Keeps-bind, Keeps-call, Keeps-lift, Keeps-on_error,
  Keeps-pure, Keeps-quiet, Keeps-so, Keeps-with, View,
}
use lazyswap.Selfupdate.Machine.{
  Machine, OsError, UpdateError, call, lift, os, pure, with_error, writing, ◌>>=◌,
}
use lazyswap.Selfupdate.Release.{Updater, get}

module _ (m : Machine) (view : m.State → View) (fs : IsFileSystem m view) (u : Updater)
    (before : View) where
  open m use {State, sha256, gunzip_tar, create_temp, remove_file, write_file, read_file}

  -- The files that were there before still have their contents, but for `exe`.
  abbrev pub KeptBut : (Bytes → Type 0) → View → Type 0
  KeptBut Except v = (p c : Bytes) → (Except p → ⊥) → before p ≡ some c → v p ≡ some c

  -- The files that were there before still have their contents.
  abbrev pub Kept : View → Type 0
  Kept v = (p c : Bytes) → before p ≡ some c → v p ≡ some c

  -- a path that was free before
  abbrev pub Fresh : Bytes → Type 0
  Fresh q = before q ≡ none

  pub apart : (p c q : Bytes) → before p ≡ some c → Fresh q → p ≢ q
  apart p c q there free same = absurd (clash (sym there ∙ ap before same ∙ free))
    where
      clash : some c ≡ none → ⊥
      clash h = cc

  free_then : (q : Bytes) (v : View) → Kept v → v q ≡ none → Fresh q
  free_then q v kept free = elim (Option-cases (before q)) [
    | inl e ↦ e
    | inr (c, e) ↦ absurd (clash c (sym (kept q c e) ∙ free))
  ]
    where
      clash : (c : Bytes) → some c ≡ none → ⊥
      clash c h = cc

  pub discard-others : (q p : Bytes) (s : State) → p ≢ q → view (discard m q s).1 p ≡ view s p
  unfolding discard call ◌>>=◌ pure
  discard-others q p s other = fs.remove_others q p s other

  pub discard-Kept :
      (q : Bytes) (s : State) → Fresh q → Kept (view s) → Kept (view (discard m q s).1)
  discard-Kept q s free kept p c there =
      discard-others q p s (apart p c q there free) ∙ kept p c there

  pub get-quiet : (url : Bytes) (s : State) → view (get m u url s).1 ≡ view s
  unfolding get call ◌>>=◌ lift
  get-quiet url s = ground (arith, fs.http_quiet url s)

  pub Keeps-get :
      {P E : View → Type 0} (url : Bytes)
      → ((v : View) → P v → E v)
      → Keeps view P (get m u url) (λ _ v. P v) E
  Keeps-get url h = Keeps-quiet view (get m u url) (get-quiet url) h

  -- a temporary file, whose path was free
  pub Keeps-create :
      (label : OsError → UpdateError) (dir pattern : Bytes)
      → Keeps view Kept
          (call (create_temp dir pattern) >>= λ r. lift (with_error label r))
          (λ q v. Kept v × Fresh q)
          Kept
  Keeps-create label dir pattern = Keeps-call view label (create_temp dir pattern) (λ s kept.
      created s (create_temp dir pattern s) refl kept
        (λ p c there. fs.create_others dir pattern p c s (kept p c there)))
    where
      created :
          (s : State) (r : Result OsError Bytes × State)
          → create_temp dir pattern s ≡ r
          → Kept (view s)
          → Kept (view (create_temp dir pattern s).1)
          → Ends view (λ q v. Kept v × Fresh q) Kept r
      created s (ok q, t) e kept after = (
        subst (λ (x : Result OsError Bytes × State). Kept (view x.1)) e after,
        free_then q (view s) kept (fs.create_free dir pattern q s (ap (λ x. x.0) e)),
      )
      created s (err x, t) e kept after =
          subst (λ (x : Result OsError Bytes × State). Kept (view x.1)) e after

  -- what a temporary file holds after a copy
  abbrev pub Holds : Bytes → Result Bytes Bytes → View → Type 0
  Holds q read v = (c : Bytes) × (read ≡ ok c) × (v q ≡ some c)

  pub Keeps-copy :
      (q : Bytes) (read : Result Bytes Bytes)
      → Fresh q
      → Keeps view Kept (copy_to m q read) (λ _ v. Kept v × Holds q read v) Kept
  unfolding copy_to lift
  Keeps-copy q (err e) free = record { at = λ s kept. kept }
  Keeps-copy q (ok content) free = Keeps-call view writing (write_file q content) (λ s kept.
      written s (write_file q content s) refl
        (λ p c there. fs.write_others q content p s (apart p c q there free) ∙ kept p c there))
    where
      written :
          (s : State) (r : Result Bytes Unit × State)
          → write_file q content s ≡ r
          → Kept (view (write_file q content s).1)
          → Ends view (λ _ v. Kept v × Holds q (ok content) v) Kept r
      written s (ok u, t) e after = (
        subst (λ (x : Result Bytes Unit × State). Kept (view x.1)) e after,
        (
          content,
          refl,
          subst (λ (x : Result Bytes Unit × State). view x.1 q ≡ some content) e
              (fs.write_content q content s (ap (λ x. x.0) e)),
        ),
      )
      written s (err x, t) e after =
          subst (λ (x : Result Bytes Unit × State). Kept (view x.1)) e after

  -- an operation of package os that leaves all contents alone
  pub Keeps-os :
      {A : Type 0} {P E : View → Type 0} (f : State → Result OsError A × State)
      → ((s : State) → view (f s).1 ≡ view s)
      → ((v : View) → P v → E v)
      → Keeps view P (os_call m f) (λ _ v. P v) E
  unfolding call ◌>>=◌ lift
  Keeps-os f quiet h = Keeps-quiet view (os_call m f) quiet h

  pub Keeps-download_temp :
      (dir url : Bytes) → Keeps view Kept (download_temp m u dir url) (λ q v. Kept v × Fresh q) Kept
  unfolding download_temp
  Keeps-download_temp dir url = Keeps-bind view _ _ (Keeps-get url (λ v kept. kept)) (λ body _.
      Keeps-bind view _ _ (Keeps-create os dir _) (λ q made. Keeps-with view (λ free.
        Keeps-bind view _ _
          (Keeps-on_error view {Q = λ _ v. Kept v} _ _
            (Keeps-bind view _ _ (Keeps-copy q _ free) (λ _ _.
              Keeps-after view (λ v h. h.0)
                (Keeps-os (m.close_file q) (fs.close_quiet q) (λ v kept. kept))))
            (λ s kept. discard-Kept q s free kept))
          (λ _ _. Keeps-pure view q (λ v kept. (kept, free))))))

  Keeps-discard : (q : Bytes) → Fresh q → Keeps view Kept (discard m q) (λ _ v. Kept v) Kept
  unfolding discard call ◌>>=◌ pure
  Keeps-discard q free = record { at = λ s kept. discard-Kept q s free kept }

  pub Keeps-check_writable :
      (dir : Bytes) → Keeps view Kept (check_writable m dir) (λ _ v. Kept v) Kept
  unfolding check_writable
  Keeps-check_writable dir =
      Keeps-bind view _ _ (Keeps-create (probe_error m dir) dir _)
        (λ name _. Keeps-with view (λ free. Keeps-discard name free))

  pub Keeps-fetch_checksum :
      (url : Bytes) → Keeps view Kept (fetch_checksum m u url) (λ _ v. Kept v) Kept
  unfolding fetch_checksum
  Keeps-fetch_checksum url =
      Keeps-bind view _ _ (Keeps-get url (λ v kept. kept))
        (λ body _. Keeps-so view (λ want v h. h.1) (Keeps-lift view _ (λ v kept. kept)))
