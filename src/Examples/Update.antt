-- ===== src/Examples/Update.antt =====
-- internal/selfupdate on a machine whose files are a function from paths to contents, and where
-- everything but a name that is taken succeeds.
use lazyswap.Prelude.{
  Bool-cases, Option, [], ap, false, if◌then◌else◌, inl, inr, none, null, refl, replicate, some,
  subst, sym, true, ◌++◌, ◌∙◌, ◌∷◌, ◌≡◌, ◌≢◌,
}
use lazyswap.Prelude.Result.{Result, err, ok}
use lazyswap.Prelude.Text.{Bytes, codes, text_eq, text_eq_iff, text_eq_refl}
use lazyswap.Selfupdate.Install.{install}
use lazyswap.Selfupdate.Keeps.{Ends, IsFileSystem}
use lazyswap.Selfupdate.Machine.{GhRelease, Machine, OsError, entry, eof, failed}
use lazyswap.Selfupdate.Picks.{IsPublished, pick-Publishes}
use lazyswap.Selfupdate.Release.{Release, Updater, api_base, binary_name, pick}
use lazyswap.Selfupdate.Replaced.{Replaced, install-Replaced}
use lazyswap.Selfupdate.Temporary.{Kept}

abbrev Disk : Type 0
Disk = Bytes → Option Bytes

abbrev put : Bytes → Option Bytes → Disk → Disk
put q x s p = if text_eq q p then x else s p

abbrev created : Bytes → Disk → Option Bytes → Result OsError Bytes × Disk
created q s none = (ok q, put q (some []) s)
created q s (some c) = (err (failed []), s)

abbrev readable : Option Bytes → Result OsError Bytes
readable none = err (failed [])
readable (some c) = ok c

abbrev digest_text : Bytes
digest_text = replicate 64 b'0'

-- The digest of every file is 32 zeros, and every archive holds the binary "new".
abbrev small_machine : Machine
small_machine = record {
  State = Disk;
  runtime_goos = codes "linux";
  runtime_goarch = codes "amd64";
  http_get = λ url s. (
    ok (record {
      status = 200;
      body = record {
        content = if text_eq url (codes "sum") then digest_text else codes "archive";
        failure = none;
      };
    }),
    s,
  );
  url_scheme = λ url. some (codes "https");
  path_escape = λ s. s;
  decode_release_json = λ s. err s;
  decode_list_json = λ s. err s;
  sha256 = λ s. replicate 32 0;
  gunzip_tar =
      λ s. ok (entry binary_name true (record { content = codes "new"; failure = none }) eof);
  dir_of = λ p. codes "/bin/";
  create_temp = λ dir pattern s. created (dir ++ pattern) s (s (dir ++ pattern));
  write_file = λ q c s. (ok tt, put q (some c) s);
  chmod_file = λ q mode s. (ok tt, s);
  close_file = λ q s. (ok tt, s);
  remove_file = λ q s. (ok tt, put q none s);
  read_file = λ q s. (readable (s q), s);
  rename_file = λ a b s. (ok tt, put b (s a) (put a none s));
}

put_other : (q p : Bytes) (x : Option Bytes) (s : Disk) → p ≢ q → put q x s p ≡ s p
put_other q p x s other = elim (Bool-cases (text_eq q p)) [
  | inl e ↦ absurd (other (sym ((text_eq_iff q p).0 e)))
  | inr e ↦ rw e refl
]

put_same : (q : Bytes) (x : Option Bytes) (s : Disk) → put q x s q ≡ x
put_same q x s = rw (text_eq_refl q) refl

small_machine-IsFileSystem : IsFileSystem small_machine (λ s. s)
small_machine-IsFileSystem = record {
  http_quiet = λ url s. refl;
  read_quiet = λ q s. refl;
  chmod_quiet = λ q mode s. refl;
  close_quiet = λ q s. refl;
  read_content = λ q c s h. was_read (s q) c h;
  create_free = λ dir pattern q s h. was_free (dir ++ pattern) q s (s (dir ++ pattern)) refl h;
  create_others =
      λ dir pattern p c s there. still_there (dir ++ pattern) p c s (s (dir ++ pattern)) refl there;
  write_others = λ q c p s other. put_other q p (some c) s other;
  write_content = λ q c s h. put_same q (some c) s;
  remove_others = λ q p s other. put_other q p none s other;
  rename_failed = λ a b e s h. absurd (no_error h);
  rename_moves = λ a b s h. put_same b (s a) (put a none s);
  rename_others =
      λ a b p s far near. put_other b p (s a) (put a none s) near ∙ put_other a p none s far;
}
  where
    no_error : {e : OsError} → ◌≡◌ {A = Result OsError (Unit {0})} (ok tt) (err e) → ⊥
    no_error h = cc

    was_read : (o : Option Bytes) (c : Bytes) → readable o ≡ ok c → o ≡ some c
    was_read none c h = cc
    was_read (some d) c h = cc

    was_free :
        (path q : Bytes) (s : Disk) (o : Option Bytes)
        → s path ≡ o
        → (created path s o).0 ≡ ok q
        → s q ≡ none
    was_free path q s none e h = let same : path ≡ q = cc in subst (λ x. s x ≡ none) same e
    was_free path q s (some c) e h = cc

    still_there :
        (path p c : Bytes) (s : Disk) (o : Option Bytes)
        → s path ≡ o
        → s p ≡ some c
        → (created path s o).1 p ≡ some c
    still_there path p c s (some d) e there = there
    still_there path p c s none e there = put_other path p (some []) s taken ∙ there
      where
        clash : some c ≡ none → ⊥
        clash h = cc

        taken : p ≢ path
        taken same = absurd (clash (sym there ∙ ap s same ∙ e))

abbrev exe : Bytes
exe = codes "/bin/lazyswap"

abbrev small_disk : Disk
small_disk = put exe (some (codes "old")) (λ p. none)

abbrev small_updater : Updater
small_updater = record { api_base = []; repo = []; goos = []; goarch = [] }

abbrev small_release : Release
small_release = record { tag = codes "v2"; tarball = codes "tar"; checksum = codes "sum" }

install-Replaced_example :
    Ends {S = Disk}
      (λ s. s)
      (λ _ v.
        Replaced small_machine
          (λ s. s)
          small_machine-IsFileSystem
          small_updater
          small_disk
          small_release
          exe
          v)
      (Kept small_machine (λ s. s) small_machine-IsFileSystem small_updater small_disk)
      (install small_machine small_updater small_release exe small_disk)
install-Replaced_example =
    install-Replaced small_machine (λ s. s) small_machine-IsFileSystem small_updater small_disk
      small_release exe small_disk (codes "old") refl
      (put_same exe (some (codes "old")) (λ p. none))

installed_test :
    (install small_machine small_updater small_release exe small_disk).1 exe ≡ some (codes "new")
unfolding install lazyswap.Selfupdate.Machine.◌>>=◌ lazyswap.Selfupdate.Install.check_writable
    lazyswap.Selfupdate.Machine.call lazyswap.Selfupdate.Machine.lift text_eq
    lazyswap.Selfupdate.Install.discard lazyswap.Selfupdate.Machine.pure
    lazyswap.Selfupdate.Install.download_temp lazyswap.Selfupdate.Release.get
    lazyswap.Selfupdate.Machine.on_error lazyswap.Selfupdate.Install.copy_to
    lazyswap.Selfupdate.Machine.read_limited lazyswap.Selfupdate.Machine.finally
    lazyswap.Selfupdate.Install.install_verified lazyswap.Selfupdate.Install.fetch_checksum
    lazyswap.Prelude.Text.fields lazyswap.Crypto.hex_decode lazyswap.Crypto.hex_encode
    lazyswap.Crypto.hex_value lazyswap.Prelude.Text.to_lower lazyswap.Selfupdate.Install.expect_end
    lazyswap.Selfupdate.Install.extract_binary lazyswap.Selfupdate.Install.extract_entry
    lazyswap.Selfupdate.Install.sha256_file lazyswap.Selfupdate.Install.write_executable
installed_test = refl

abbrev small_published : GhRelease
small_published = record {
  tag = codes "v2";
  assets =
      record { name = codes "lazyswap-linux-x64.tar.gz"; url = codes "tar" }
      ∷ record { name = codes "lazyswap-linux-x64.tar.gz.sha256"; url = codes "sum" }
      ∷ [];
}

picked_test : pick small_machine small_updater small_published ≡ ok small_release
unfolding pick lazyswap.Selfupdate.Release.pick_for lazyswap.Selfupdate.Release.target text_eq
    lazyswap.Selfupdate.Release.check_release lazyswap.Selfupdate.Release.take_assets
    lazyswap.Selfupdate.Release.asset_name
picked_test = refl

pick-Publishes_example :
    (null small_published.tag ≡ false)
    × IsPublished small_machine small_updater small_published small_release
pick-Publishes_example =
    pick-Publishes small_machine small_updater small_published small_release picked_test
