-- ===== src/Selfupdate/Release.antt =====
-- internal/selfupdate/selfupdate.go: which release is installed on this platform.
use lazyswap.Prelude.{
  Bool, List, Option, [], false, if◌then◌else◌, leb, none, not, null, some, ℕ, ◌&&◌, ◌++◌, ◌==◌,
  ◌||◌, ◌∷◌,
}
use lazyswap.Prelude.Result.{Result, err, ok}
use lazyswap.Prelude.Text.{Bytes, codes, text_eq}
use lazyswap.Selfupdate.Machine.{
  Asset, Body, GhRelease, Machine, Op, Response, UpdateError, attempt, call, decode_release,
  decode_releases, empty_tag, lift, no_asset, no_checksum, no_release, no_releases, no_tag,
  not_https, read_limited, request, status_error, unsupported_arch, unsupported_os, with_error,
  ◌>>=◌,
}

pub record Release : Type 0 where
  pub tag : Bytes
  pub tarball : Bytes
  pub checksum : Bytes

pub record Updater : Type 0 where
  pub api_base : Bytes
  pub repo : Bytes
  pub goos : Bytes
  pub goarch : Bytes

abbrev pub or_default : Bytes → Bytes → Bytes
or_default given default = if null given then default else given

-- apiBase
abbrev pub api_base : Updater → Bytes
api_base u = or_default u.api_base (codes "https://api.github.com")

-- Updater.repo
abbrev pub repo_of : Updater → Bytes
repo_of u = or_default u.repo (codes "FernandoPazCavalcante/lazyswap")

abbrev pub max_meta_bytes : ℕ
max_meta_bytes = 1048576

abbrev pub binary_name : Bytes
binary_name = codes "lazyswap"

-- httpsOnly: what it returns for a redirect to `scheme` after `via` requests
unfoldable pub https_only : (scheme : Bytes) (via : ℕ) → Result UpdateError (Unit {0})
https_only scheme via =
    if leb 10 via
    then err (request (codes "too many redirects"))
    else if text_eq scheme (codes "https")
    then ok tt
    else err (not_https scheme)

abbrev arch_part : Bytes → Result UpdateError Bytes
arch_part goarch =
    if text_eq goarch (codes "amd64")
    then ok (codes "x64")
    else if text_eq goarch (codes "arm64")
    then ok (codes "arm64")
    else err (unsupported_arch goarch)

abbrev joined : Bytes → Result UpdateError Bytes → Result UpdateError Bytes
joined os_part (err e) = err e
joined os_part (ok arch) = ok (os_part ++ b'-' ∷ arch)

-- Target
unfoldable pub target : (goos goarch : Bytes) → Result UpdateError Bytes
target goos goarch =
    if text_eq goos (codes "linux") || text_eq goos (codes "darwin")
    then joined goos (arch_part goarch)
    else err (unsupported_os goos)

-- one round of the loop of pick
abbrev pub take_asset : Bytes → Asset → Release → Release
take_asset want a out =
    if text_eq a.name want
    then record out { tarball = a.url }
    else if text_eq a.name (want ++ codes ".sha256")
    then record out { checksum = a.url }
    else out

unfoldable pub take_assets : Bytes → List Asset → Release → Release
take_assets want [] out = out
take_assets want (a ∷ assets) out = take_assets want assets (take_asset want a out)

unfoldable pub check_release : Bytes → Release → Result UpdateError Release
check_release want out =
    if null out.tarball
    then err (no_asset out.tag want)
    else if null out.checksum
    then err (no_checksum out.tag want)
    else ok out

-- the name of the tarball of a target
unfoldable pub asset_name : Bytes → Bytes
asset_name t = binary_name ++ b'-' ∷ t ++ codes ".tar.gz"

unfoldable pub pick_for : Result UpdateError Bytes → GhRelease → Result UpdateError Release
pick_for (err e) rel = err e
pick_for (ok t) rel =
    check_release (asset_name t) (
      take_assets (asset_name t) rel.assets (record { tag = rel.tag; tarball = []; checksum = [] }))

module _ (m : Machine) (u : Updater) where
  open m use {
    State, runtime_goos, runtime_goarch, http_get, url_scheme, path_escape, decode_release_json,
    decode_list_json,
  }

  -- pick
  unfoldable pub pick : GhRelease → Result UpdateError Release
  pick rel =
      if null rel.tag
      then err no_tag
      else pick_for (target (or_default u.goos runtime_goos) (or_default u.goarch runtime_goarch))
          rel

  abbrev is_https : Option Bytes → Bool
  is_https none = false
  is_https (some scheme) = text_eq scheme (codes "https")

  abbrev pub body_of : Bytes → Result Bytes Response → Result UpdateError Body
  body_of raw_url (err e) = err (request e)
  body_of raw_url (ok r) =
      if r.status == 200 then ok r.body else err (status_error r.status raw_url)

  -- Updater.get
  unfoldable pub get : Bytes → Op State Body
  get raw_url =
      if null u.api_base && not (is_https (url_scheme raw_url))
      then lift (err (not_https raw_url))
      else (do r ← call (http_get raw_url); lift (body_of raw_url r))

  abbrev decoded_with :
      {A : Type 0}
      → (Bytes → UpdateError)
      → (Bytes → Result Bytes A)
      → Result Bytes Bytes
      → Result UpdateError A
  decoded_with label decode (err e) = err (label e)
  decoded_with label decode (ok raw) = with_error label (decode raw)

  -- fetchRelease
  unfoldable pub fetch_release : Bytes → Op State GhRelease
  fetch_release raw_url = do
    body ← get raw_url
    lift (decoded_with decode_release decode_release_json (read_limited max_meta_bytes body))

  -- fetchReleaseList
  unfoldable pub fetch_release_list : Bytes → Op State (List GhRelease)
  fetch_release_list raw_url = do
    body ← get raw_url
    lift (decoded_with decode_releases decode_list_json (read_limited max_meta_bytes body))

  abbrev pick_first : List GhRelease → Result UpdateError Release
  pick_first [] = err no_releases
  pick_first (rel ∷ list) = pick rel

  -- Latest behind the first request
  unfoldable pub after_latest : Result UpdateError GhRelease → Op State Release
  after_latest (ok rel) = lift (pick rel)
  after_latest (err (status_error code url)) =
      if code == 404
      then (do
        list ←
            fetch_release_list
              (api_base u ++ codes "/repos/" ++ repo_of u ++ codes "/releases?per_page=1")
        lift (pick_first list))
      else lift (err (status_error code url))
  after_latest (err e) = lift (err e)

  -- Latest
  unfoldable pub latest : Op State Release
  latest = do
    r ←
        attempt
          (fetch_release (api_base u ++ codes "/repos/" ++ repo_of u ++ codes "/releases/latest"))
    after_latest r

  abbrev tag_error : Bytes → UpdateError → UpdateError
  tag_error tag (status_error code url) =
      if code == 404 then no_release tag else status_error code url
  tag_error tag e = e

  abbrev picked : Bytes → Result UpdateError GhRelease → Result UpdateError Release
  picked tag (err e) = err (tag_error tag e)
  picked tag (ok rel) = pick rel

  -- Resolve
  unfoldable pub resolve : Bytes → Op State Release
  resolve tag = if null tag then lift (err empty_tag) else (do
    r ← attempt (
        fetch_release (
          api_base u ++ codes "/repos/" ++ repo_of u ++ codes "/releases/tags/" ++ path_escape tag))
    lift (picked tag r))
