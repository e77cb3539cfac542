-- ===== src/Apwm/Downloads/Again.antt =====
-- A release that was copied can be copied again with the checksum that came out.
use archipelago_xl.Base.{
  ◌≡◌, ◌≢◌, refl, String, true, Option, none, some, arith, eq_refl, Bool-cases, inl, inr,
}
use archipelago_xl.Apwm.Semver.{Semver}
use archipelago_xl.Apwm.Maps.{get}
use archipelago_xl.Apwm.Worlds.{
  WorldOrigin, default, url, local, supported, World, Fallible, ok, fails,
}
use archipelago_xl.Apwm.Files.{Files, Io, give, required, ◌>>=◌}
use archipelago_xl.Apwm.Downloads.{
  fetch, get_url_for_version, get_path_for_origin, check_and_write, download_to, copy_from, copy_to,
}

module _ (v : Semver) (files : Files) where
  open v use {Version}
  open files use {Bytes, sha256}

  abbrev pub CanWrite : String → Type 0
  CanWrite d = (b : Bytes) → files.can_write d b ≡ true

  abbrev CopiesAgain : (String → Option String → Io Bytes String) → Type 0
  CopiesAgain copy =
      (d d' h : String)
      → (copy d none).result ≡ ok h
      → CanWrite d'
      → (copy d' (some h)).result ≡ ok h

  check_again : (b : Bytes) → CopiesAgain (λ d e. check_and_write v files d e b)
  check_again b d d' h r w = elim (Bool-cases (files.can_write d b)) [
    | inl k ↦ ground (arith, w b, eq_refl h)
    | inr k ↦ ground arith
  ]

  given_again : (r : Fallible Bytes) → CopiesAgain (λ d e. give r >>= check_and_write v files d e)
  given_again fails = λ d d' h r w. ground arith
  given_again (ok b) = check_again b

  download_again : (uri : String) → CopiesAgain (λ d e. download_to v files uri d e)
  unfolding download_to
  download_again uri = given_again (fetch v files uri)

  local_again :
      (r : Fallible String)
      → CopiesAgain
          (λ d e. give r >>= (λ path. give (files.read path) >>= check_and_write v files d e))
  local_again fails = λ d d' h r w. ground arith
  local_again (ok path) = given_again (files.read path)

  copied_again :
      (w : World Version) (version : Version) (uri : Fallible String) (o : Option WorldOrigin)
      → o ≢ some supported
      → CopiesAgain
          (λ d e. give uri >>= (λ u. required o >>= (λ origin. copy_from v files w u origin d e)))
  copied_again w version fails o n = λ d d' h r k. ground arith
  copied_again w version (ok u) none n = λ d d' h r k. ground arith
  copied_again w version (ok u) (some default) n = download_again u
  copied_again w version (ok u) (some (url _)) n = download_again u
  copied_again w version (ok u) (some (local path)) n =
      local_again (get_path_for_origin v files w (local path))
  copied_again w version (ok u) (some supported) n = absurd (n refl)

  pub copy_to-again :
      (w : World Version) (version : Version)
      → get v version w.versions ≢ some supported
      → CopiesAgain (λ d e. copy_to v files w version d e)
  unfolding copy_to
  copy_to-again w version n =
      copied_again w version (get_url_for_version v files w version) (get v version w.versions) n
