-- ===== src/Selfupdate/Machine.antt =====
-- The machine that internal/selfupdate runs on: packages os, net/http, net/url, encoding/json,
-- archive/tar and crypto/sha256, and a state monad with errors over it.
use lazyswap.Prelude.{Bool, List, Option, if◌then◌else◌, leb, length, none, some, take, ℕ}
use lazyswap.Prelude.Result.{Result, err, ok}
use lazyswap.Prelude.Text.{Bytes}

pub data OsError : Type 0 where
  permission : OsError
  failed : Bytes → OsError

pub data UpdateError : Type 0 where
  no_asset no_checksum : (tag want : Bytes) → UpdateError
  unsupported_os unsupported_arch : Bytes → UpdateError
  no_tag no_releases empty_tag empty_checksum : UpdateError
  no_release : Bytes → UpdateError
  status_error : (code : ℕ) (url : Bytes) → UpdateError
  not_https : Bytes → UpdateError
  request decode_release decode_releases : Bytes → UpdateError
  not_writable : (dir : Bytes) → UpdateError
  os : OsError → UpdateError
  reading writing open_archive read_archive : Bytes → UpdateError
  not_sha256 : Bytes → UpdateError
  mismatch : (tag want got : Bytes) → UpdateError
  no_binary : UpdateError
  unexpected_entry : Bytes → UpdateError
  not_regular trailing : UpdateError

-- a stream: its bytes, and the error that ends it where it does not end well
pub record Body : Type 0 where
  pub content : Bytes
  pub failure : Option Bytes

pub record Response : Type 0 where
  pub status : ℕ
  pub body : Body

-- what archive/tar reads: headers and contents, up to the end of the archive or an error
pub data Tar : Type 0 where
  eof : Tar
  broken : Bytes → Tar
  entry : (name : Bytes) (is_regular : Bool) (contents : Body) → Tar → Tar

pub record Asset : Type 0 where
  pub name : Bytes
  pub url : Bytes

-- ghRelease
pub record GhRelease : Type 0 where
  pub tag : Bytes
  pub assets : List Asset

-- Files are named by their paths. `http_get` follows redirects; `create_temp` returns a path.
pub record Machine : Type 1 where
  pub State : Type 0
  pub runtime_goos : Bytes
  pub runtime_goarch : Bytes
  pub http_get : Bytes → State → Result Bytes Response × State
  pub url_scheme : Bytes → Option Bytes
  pub path_escape : Bytes → Bytes
  pub decode_release_json : Bytes → Result Bytes GhRelease
  pub decode_list_json : Bytes → Result Bytes (List GhRelease)
  pub sha256 : Bytes → Bytes
  pub gunzip_tar : Bytes → Result Bytes Tar
  pub dir_of : Bytes → Bytes
  pub create_temp : (dir pattern : Bytes) → State → Result OsError Bytes × State
  pub write_file : (path content : Bytes) → State → Result Bytes (Unit {0}) × State
  pub chmod_file : (path : Bytes) (mode : ℕ) → State → Result OsError (Unit {0}) × State
  pub close_file : (path : Bytes) → State → Result OsError (Unit {0}) × State
  pub remove_file : (path : Bytes) → State → Result OsError (Unit {0}) × State
  pub read_file : (path : Bytes) → State → Result OsError Bytes × State
  pub rename_file : (from to : Bytes) → State → Result OsError (Unit {0}) × State

-- an action over the state `S`
abbrev pub Op : Type 0 → Type 0 → Type 0
Op S A = S → Result UpdateError A × S

module _ {S : Type 0} where
  module _ {A : Type 0} where
    unfoldable pub pure : A → Op S A
    pure a s = (ok a, s)

    unfoldable pub lift : Result UpdateError A → Op S A
    lift r s = (r, s)

    -- a call of the machine, its error as a value
    unfoldable pub call : (S → A × S) → Op S A
    call f s = let (a, t) = f s in (ok a, t)

    abbrev attempted : Result UpdateError A × S → Result UpdateError (Result UpdateError A) × S
    attempted (r, s) = (ok r, s)

    -- the error of a step as a value
    unfoldable pub attempt : Op S A → Op S (Result UpdateError A)
    attempt m s = attempted (m s)

  module _ {A B : Type 0} where
    abbrev continue : Result UpdateError A × S → (A → Op S B) → Result UpdateError B × S
    continue (ok a, s) f = f a s
    continue (err e, s) f = (err e, s)

    infixl 10 ◌>>=◌
    unfoldable pub ◌>>=◌ : Op S A → (A → Op S B) → Op S B
    ◌>>=◌ m f s = continue (m s) f

    abbrev and_then : Result UpdateError A × S → Op S B → Result UpdateError A × S
    and_then (r, s) last = (r, (last s).1)

    -- `defer`: the last action runs whatever the result, and its own result is dropped
    unfoldable pub finally : Op S A → Op S B → Op S A
    finally m last s = and_then (m s) last

    abbrev or_else : Result UpdateError A × S → Op S B → Result UpdateError A × S
    or_else (ok a, s) undo = (ok a, s)
    or_else (err e, s) undo = (err e, (undo s).1)

    -- `if err != nil { undo; return err }`
    unfoldable pub on_error : Op S A → Op S B → Op S A
    on_error m undo s = or_else (m s) undo

abbrev pub with_error {ℓ} :
    {E : Type 0} {A : Type ℓ} → (E → UpdateError) → Result E A → Result UpdateError A
with_error f (ok a) = ok a
with_error f (err e) = err (f e)

-- io.Copy or io.ReadAll of an io.LimitReader of `limit` bytes
unfoldable pub read_limited : ℕ → Body → Result Bytes Bytes
read_limited limit b =
    if leb limit (length b.content)
    then ok (take limit b.content)
    else elim b.failure [ none ↦ ok b.content | some e ↦ err e ]
