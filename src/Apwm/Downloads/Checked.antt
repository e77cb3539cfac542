-- ===== src/Apwm/Downloads/Checked.antt =====
-- What copying a release writes and gives.
use archipelago_xl.Base.{
  ◌≡◌, refl, ◌⊎◌, ◌≢◌, inl, inr, String, false, Option, none, some, [], ◌∷◌, Bool-cases,
}
use archipelago_xl.Apwm.Semver.{Semver}
use archipelago_xl.Apwm.Maps.{get}
use archipelago_xl.Apwm.Worlds.{
  WorldOrigin, default, url, local, supported, World, Fallible, ok, fails,
}
use archipelago_xl.Apwm.Files.{Files, written, Io, give, required, ◌>>=◌}
use archipelago_xl.Apwm.Downloads.{
  differs, fetch, get_url_for_version, get_path_for_origin, check_and_write, download_to, copy_from,
  copy_to,
}

module _ (v : Semver) (files : Files) where
  open v use {Version}
  open files use {Bytes, sha256}

  abbrev pub Only : String → Option String → Io Bytes String → Type 0
  Only destination expected m =
      ((m.effects ≡ []) × (m.result ≡ fails))
      ⊎ ((b : Bytes) × (m.effects ≡ written destination b ∷ [])
          × (m.result ≡ ok (sha256 b))
          × (differs expected (sha256 b) ≡ false))

  check_and_write-Only :
      (destination : String) (expected : Option String) (b : Bytes)
      → Only destination expected (check_and_write v files destination expected b)
  check_and_write-Only destination expected b = elim (Bool-cases (differs expected (sha256 b))) [
    | inl h ↦ inl (rw h refl, rw h refl)
    | inr h ↦ elim (Bool-cases (files.can_write destination b)) [
      | inl w ↦ inr (b, rw (h, w) refl, rw (h, w) refl, h)
      | inr w ↦ inl (rw (h, w) refl, rw (h, w) refl)
    ]
  ]

  given-Only :
      (destination : String) (expected : Option String) (r : Fallible Bytes)
      → Only destination expected (give r >>= check_and_write v files destination expected)
  given-Only destination expected fails = inl (refl, refl)
  given-Only destination expected (ok b) = check_and_write-Only destination expected b

  download_to-Only :
      (uri destination : String) (expected : Option String)
      → Only destination expected (download_to v files uri destination expected)
  unfolding download_to
  download_to-Only uri destination expected = given-Only destination expected (fetch v files uri)

  copy_local-Only :
      (destination : String) (expected : Option String) (r : Fallible String)
      → Only destination expected (
          give r
          >>= (λ path. give (files.read path) >>= check_and_write v files destination expected))
  copy_local-Only destination expected fails = inl (refl, refl)
  copy_local-Only destination expected (ok path) = given-Only destination expected (files.read path)

  copied-Only :
      (w : World Version) (version : Version) (uri : Fallible String) (o : Option WorldOrigin)
      (destination : String) (expected : Option String)
      → (o ≢ some supported)
      → Only destination expected (
          give uri
          >>= (λ u. required o >>= (λ origin. copy_from v files w u origin destination expected)))
  copied-Only w version fails o destination expected h = inl (refl, refl)
  copied-Only w version (ok u) none destination expected h = inl (refl, refl)
  copied-Only w version (ok u) (some default) destination expected h =
      download_to-Only u destination expected
  copied-Only w version (ok u) (some (url _)) destination expected h =
      download_to-Only u destination expected
  copied-Only w version (ok u) (some (local path)) destination expected h =
      copy_local-Only destination expected (get_path_for_origin v files w (local path))
  copied-Only w version (ok u) (some supported) destination expected h = absurd (h refl)

  pub copy_to-Only :
      (w : World Version) (version : Version) (destination : String) (expected : Option String)
      → get v version w.versions ≢ some supported
      → Only destination expected (copy_to v files w version destination expected)
  unfolding copy_to
  copy_to-Only w version destination expected h =
      copied-Only w version (get_url_for_version v files w version) (get v version w.versions)
        destination expected h
