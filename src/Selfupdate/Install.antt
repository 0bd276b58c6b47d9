-- ===== src/Selfupdate/Install.antt =====
-- internal/selfupdate/install.go: the download, its check, and the replacement of the binary.
use lazyswap.Prelude.{List, [], if◌then◌else◌, length, none, some, ℕ, ◌==◌, ◌∷◌}
use lazyswap.Prelude.Result.{Result, err, ok}
use lazyswap.Prelude.Text.{Bytes, codes, fields, text_eq, to_lower}
use lazyswap.Crypto.{hex_decode, hex_encode}
use lazyswap.Selfupdate.Machine.{
  Body, Machine, Op, OsError, Tar, UpdateError, broken, call, empty_checksum, entry, eof, failed,
  finally, lift, mismatch, no_binary, not_regular, not_sha256, not_writable, on_error, open_archive,
  os, permission, pure, read_archive, read_limited, reading, trailing, unexpected_entry, with_error,
  writing, ◌>>=◌,
}
use lazyswap.Selfupdate.Release.{Release, Updater, binary_name, get, max_meta_bytes}

abbrev pub max_binary_bytes : ℕ
max_binary_bytes = 209715200

-- the published digest: the first field of the file, in lower case
abbrev first_field : List Bytes → Result UpdateError Bytes
first_field [] = err empty_checksum
first_field (f ∷ rest) = elim (hex_decode (to_lower f)) [
  | none ↦ err (not_sha256 f)
  | some decoded ↦ if length decoded == 32 then ok (to_lower f) else err (not_sha256 f)
]

abbrev pub checksum_of : Result Bytes Bytes → Result UpdateError Bytes
checksum_of (err e) = err (reading e)
checksum_of (ok raw) = first_field (fields raw)

module _ (m : Machine) where
  open m use {
    State, http_get, sha256, gunzip_tar, dir_of, create_temp, write_file, chmod_file, close_file,
    remove_file, read_file, rename_file,
  }

  abbrev pub probe_error : Bytes → OsError → UpdateError
  probe_error dir permission = not_writable dir
  probe_error dir (failed e) = os (failed e)

  -- an operation of package os whose error is returned
  abbrev pub os_call : {A : Type 0} → (State → Result OsError A × State) → Op State A
  os_call f = do r ← call f; lift (with_error os r)

  -- `_ = os.Remove(path)`
  unfoldable pub discard : Bytes → Op State (Unit {0})
  discard path = do _ ← call (remove_file path); pure tt

  -- the first half of checkWritable
  abbrev pub create_probe : Bytes → Op State Bytes
  create_probe dir = do
    r ← call (create_temp dir (codes ".lazyswap-probe-*"))
    lift (with_error (probe_error dir) r)

  -- checkWritable
  unfoldable pub check_writable : Bytes → Op State (Unit {0})
  check_writable dir = do name ← create_probe dir; discard name

  -- io.Copy of what was read to a file
  unfoldable pub copy_to : Bytes → Result Bytes Bytes → Op State (Unit {0})
  copy_to name (err e) = lift (err (reading e))
  copy_to name (ok content) = do r ← call (write_file name content); lift (with_error writing r)

  -- downloadTemp
  unfoldable pub download_temp : Updater → (dir raw_url : Bytes) → Op State Bytes
  download_temp u dir raw_url = do
    body ← get m u raw_url
    name ← os_call (create_temp dir (codes ".lazyswap-download-*"))
    _ ←
        on_error
          (do _ ← copy_to name (read_limited max_binary_bytes body); os_call (close_file name))
          (discard name)
    pure name

  -- fetchChecksum
  unfoldable pub fetch_checksum : Updater → Bytes → Op State Bytes
  fetch_checksum u raw_url = do
    body ← get m u raw_url
    lift (checksum_of (read_limited max_meta_bytes body))

  -- sha256File
  unfoldable pub sha256_file : Bytes → Op State Bytes
  sha256_file path = do content ← os_call (read_file path); pure (hex_encode (sha256 content))

  -- writeExecutable
  unfoldable pub write_executable : Body → (dir : Bytes) → Op State Bytes
  write_executable contents dir = do
    name ← os_call (create_temp dir (codes ".lazyswap-staged-*"))
    _ ←
        on_error
          (do
            _ ← copy_to name (read_limited max_binary_bytes contents)
            _ ← os_call (chmod_file name 493)
            os_call (close_file name))
          (discard name)
    pure name

  -- the end of extractBinary: nothing may follow the entry
  unfoldable pub expect_end : Bytes → Tar → Op State Bytes
  expect_end staged eof = pure staged
  expect_end staged _ = do _ ← discard staged; lift (err trailing)

  -- extractBinary behind the header of the first entry
  unfoldable pub extract_entry : (dir : Bytes) → Tar → Op State Bytes
  extract_entry dir eof = lift (err no_binary)
  extract_entry dir (broken e) = lift (err (read_archive e))
  extract_entry dir (entry name is_regular contents rest) =
      if text_eq name binary_name
      then (if is_regular
          then (do staged ← write_executable contents dir; expect_end staged rest)
          else lift (err not_regular))
      else lift (err (unexpected_entry name))

  -- extractBinary
  unfoldable pub extract_binary : (tarball dir : Bytes) → Op State Bytes
  extract_binary tarball dir = do
    content ← os_call (read_file tarball)
    tar ← lift (with_error open_archive (gunzip_tar content))
    extract_entry dir tar

  -- Install behind the download
  unfoldable pub install_verified :
      Updater → Release → (exe_path tarball : Bytes) → Op State (Unit {0})
  install_verified u rel exe_path tarball = do
    want ← fetch_checksum u rel.checksum
    got ← sha256_file tarball
    _ ← lift (if text_eq got want then ok tt else err (mismatch rel.tag want got))
    staged ← extract_binary tarball (dir_of exe_path)
    on_error (os_call (rename_file staged exe_path)) (discard staged)

  -- Install
  unfoldable pub install : Updater → Release → (exe_path : Bytes) → Op State (Unit {0})
  install u rel exe_path = do
    _ ← check_writable (dir_of exe_path)
    tarball ← download_temp u (dir_of exe_path) rel.tarball
    finally (install_verified u rel exe_path tarball) (discard tarball)
