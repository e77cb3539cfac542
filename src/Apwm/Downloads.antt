-- ===== src/Apwm/Downloads.antt =====
-- apwm/src/index/world.rs: where a release comes from, and copying it into a file.
pub mod Checked
pub mod Again
use Prim.Native.Char.{code}
use Prim.Native.String
use archipelago_xl.Base.{
  ℕ, zero, suc, ◌+◌, ◌-◌, ◌≡◌, String, Bool, true, false, not, ◌&&◌, Option, none, some, is_some,
  leb, ◌==◌, str_eq, if◌then◌else◌,
}
use archipelago_xl.Apwm.Semver.{Semver}
use archipelago_xl.Apwm.Maps.{get}
use archipelago_xl.Apwm.Worlds.{
  WorldOrigin, default, url, local, supported, World, Fallible, ok, fails,
}
use archipelago_xl.Apwm.Retries.{Try, Tried, with_retries}
use archipelago_xl.Apwm.Files.{
  Files, Reply, no_request, no_answer, answered, Effect, written, Io, return, give, required,
  attempt, ◌>>=◌, ◌>>◌,
}

abbrev starts_with : String → String → Bool
starts_with String.[] s = true
starts_with (String.◌∷◌ c p) String.[] = false
starts_with (String.◌∷◌ c p) (String.◌∷◌ d s) =
    let rest = starts_with p s in if code c == code d then rest else false

-- `str::replace`, with what is left to skip of a match
abbrev replace_from : (pattern text : String) → (rest_of_pattern skip : ℕ) → String → String
replace_from pattern text n skip String.[] = String.[]
replace_from pattern text n (suc skip) (String.◌∷◌ c s) = replace_from pattern text n skip s
replace_from pattern text n zero (String.◌∷◌ c s) =
    let matched = replace_from pattern text n n s in
    let rest = replace_from pattern text n zero s in
    if starts_with pattern (String.◌∷◌ c s) then String.◌++◌ text matched else String.◌∷◌ c rest

unfoldable pub with_version : String → String → String
with_version version uri = replace_from "{{version}}" version 10 zero uri

-- one try at a download
abbrev pub fetch_once : {B : Type 0} → Reply B → Try B
fetch_once no_request = Try.permanent "builder error"
fetch_once no_answer = Try.transient "error sending request"
fetch_once (answered status body) =
    if leb 500 status && leb status 599
    then Try.transient "server error"
    else if leb 400 status && leb status 499
    then Try.permanent "client error"
    else elim body [ none ↦ Try.transient "error reading the body" | some b ↦ Try.value b ]

abbrev pub fallible : {B : Type 0} → Tried B → Fallible B
fallible (Tried.ok b) = ok b
fallible (Tried.err gave_up e) = fails

abbrev pub differs : Option String → String → Bool
differs none checksum = false
differs (some expected) checksum = not (str_eq checksum expected)

abbrev pub or_fails : {A : Type 0} → Option A → Fallible A
or_fails none = fails
or_fails (some a) = ok a

module _ (v : Semver) (files : Files) where
  open v use {Version}
  open files use {Bytes}

  -- the body of a download, after at most 3 retries
  unfoldable pub fetch : String → Fallible Bytes
  fetch uri = fallible (with_retries (λ (n : ℕ). fetch_once (files.send uri n)) 3).result

  abbrev pub url_of : World Version → Version → WorldOrigin → Fallible String
  url_of w version default = elim w.default_url [
    | none ↦ fails
    | some u ↦ ok (with_version (v.to_string version) u)
  ]
  url_of w version (url u) = ok (with_version (v.to_string version) u)
  url_of w version (local path) = ok ""
  url_of w version supported = ok "https://archipelago.gg/games"

  unfoldable pub get_url_for_version : World Version → Version → Fallible String
  get_url_for_version w version = elim (get v version w.versions) [
    | none ↦ fails
    | some o ↦ url_of w version o
  ]

  unfoldable pub get_path_for_origin : World Version → WorldOrigin → Fallible String
  get_path_for_origin w (local path) = elim (files.parent w.path) [
    | none ↦ fails
    | some dir ↦ ok (files.join dir path)
  ]
  get_path_for_origin w o = fails

  -- what follows once the bytes are there: the digest is compared, then they are written
  abbrev pub check_and_write : String → Option String → Bytes → Io Bytes String
  check_and_write destination expected_checksum bytes =
      let checksum = files.sha256 bytes in
      if differs expected_checksum checksum
      then give fails
      else attempt (files.can_write destination bytes) (written destination bytes)
        >> return checksum

  unfoldable pub download_to : String → String → Option String → Io Bytes String
  download_to uri destination expected_checksum =
      give (fetch uri) >>= check_and_write destination expected_checksum

  abbrev pub copy_from :
      World Version → String → WorldOrigin → String → Option String → Io Bytes String
  copy_from w uri default destination expected_checksum =
      download_to uri destination expected_checksum
  copy_from w uri (url u) destination expected_checksum =
      download_to uri destination expected_checksum
  copy_from w uri (local path) destination expected_checksum = do
    full_path ← give (get_path_for_origin w (local path))
    bytes ← give (files.read full_path)
    check_and_write destination expected_checksum bytes
  copy_from w uri supported destination expected_checksum = return "none"

  unfoldable pub copy_to : World Version → Version → String → Option String → Io Bytes String
  copy_to w version destination expected_checksum = do
    uri ← give (get_url_for_version w version)
    origin ← required (get v version w.versions)
    copy_from w uri origin destination expected_checksum
