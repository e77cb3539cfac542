-- ===== src/Apwm/Checksums.antt =====
-- apwm/src/changes.rs: downloading what was added, and the checksums that go with it.
pub mod Recording
pub mod Applying
pub mod Fetching
use archipelago_xl.Base.{
  ◌≡◌, String, Bool, true, false, Option, none, some, unwrap_or, List, [], ◌∷◌, ◌++◌, if◌then◌else◌,
}
use Prim.Native.String
use archipelago_xl.Apwm.Semver.{Semver}
use archipelago_xl.Apwm.Maps as Versions
use archipelago_xl.Apwm.Keyed.{names, versions, get, insert}
use archipelago_xl.Apwm.Worlds.{WorldOrigin, is_supported, World}
use archipelago_xl.Apwm.Manifests.{Index}
use archipelago_xl.Apwm.Changes.{Checksum, supported, hash, WorldChanges, Changes, is_empty}
use archipelago_xl.Apwm.Files.{
  Files, Effect, created_dir, truncated, Io, return, give, required, attempt, ◌>>=◌, ◌>>◌,
}
use archipelago_xl.Apwm.Downloads.{copy_to}

module _ (v : Semver) (files : Files) where
  open v use {Version}
  open files use {Bytes}

  abbrev pub create_dir_all : String → Io Bytes (Unit {0})
  create_dir_all path = attempt (files.can_create_dir path) (created_dir path)

  -- `write`, `create` and `truncate`
  abbrev pub open_new : String → Io Bytes (Unit {0})
  open_new path = attempt (files.can_open path) (truncated path)

  abbrev pub apworld_path : String → String → Version → String
  apworld_path dir name version =
      files.join dir
        (String.◌++◌ name (String.◌++◌ "-" (String.◌++◌ (v.to_string version) ".apworld")))

  -- `checksums.entry(name).or_default().insert(version, checksum)`
  abbrev pub record_checksum :
      String
      → Version
      → Checksum
      → List (String × List (Version × Checksum))
      → List (String × List (Version × Checksum))
  record_checksum name version checksum checksums =
      insert names name
        (insert (versions v) version checksum (unwrap_or (get names name checksums) [])) checksums

  abbrev pub download_origin :
      String → String → World Version → Version → WorldOrigin → Io Bytes Checksum
  download_origin dir name w version o = if is_supported o then return supported else do
    open_new (apworld_path dir name version)
    checksum ← copy_to v files w version (apworld_path dir name version) none
    return (hash checksum)

  abbrev pub download_version : String → String → World Version → Version → Io Bytes Checksum
  download_version dir name w version = do
    origin ← required (Versions.get v version w.versions)
    download_origin dir name w version origin

  -- the loop over the added versions of a world
  abbrev pub download_versions :
      String
      → String
      → World Version
      → List Version
      → List (String × List (Version × Checksum))
      → Io Bytes (List (String × List (Version × Checksum)))
  download_versions dir name w [] checksums = return checksums
  download_versions dir name w (version ∷ more) checksums = do
    checksum ← download_version dir name w version
    download_versions dir name w more (record_checksum name version checksum checksums)

  -- the body of the loop over the worlds
  abbrev pub download_world :
      String
      → Index Version
      → String
      → WorldChanges Version
      → List (String × List (Version × Checksum))
      → Io Bytes (List (String × List (Version × Checksum)))
  download_world dir index name c checksums =
      if is_empty v c.added_versions then return checksums else do
        w ← required (get names name index.worlds)
        download_versions dir name w c.added_versions checksums

  abbrev pub download_worlds :
      String
      → Index Version
      → List (String × WorldChanges Version)
      → List (String × List (Version × Checksum))
      → Io Bytes (List (String × List (Version × Checksum)))
  download_worlds dir index [] checksums = return checksums
  download_worlds dir index ((name, c) ∷ worlds) checksums = do
    checksums ← download_world dir index name c checksums
    download_worlds dir index worlds checksums

  unfoldable pub download_changed_apworlds :
      Changes Version
      → Index Version
      → String
      → Io Bytes (List (String × List (Version × Checksum)))
  download_changed_apworlds changes index output_dir = do
    create_dir_all (files.join output_dir "apworlds")
    download_worlds (files.join output_dir "apworlds") index changes.worlds []

  -- `extend`
  abbrev pub extend :
      List (Version × Checksum) → List (Version × Checksum) → List (Version × Checksum)
  extend [] checksums = checksums
  extend ((version, checksum) ∷ more) checksums =
      extend more (insert (versions v) version checksum checksums)

  abbrev pub apply_to :
      String
      → List (Version × Checksum)
      → Option (WorldChanges Version)
      → List (String × WorldChanges Version)
      → List (String × WorldChanges Version)
  apply_to name version_checksums none worlds = worlds
  apply_to name version_checksums (some c) worlds =
      insert names name (record c { checksums = extend version_checksums c.checksums }) worlds

  abbrev pub apply_each :
      List (String × List (Version × Checksum))
      → List (String × WorldChanges Version)
      → List (String × WorldChanges Version)
  apply_each [] worlds = worlds
  apply_each ((name, version_checksums) ∷ more) worlds =
      apply_each more (apply_to name version_checksums (get names name worlds) worlds)

  unfoldable pub apply_checksums :
      Changes Version → List (String × List (Version × Checksum)) → Changes Version
  apply_checksums changes checksums = record changes {
    worlds = apply_each checksums changes.worlds;
  }

  abbrev pub fetch_origin :
      String → String → World Version → Version → String → WorldOrigin → Io Bytes (Unit {0})
  fetch_origin destination name w version expected_hash o = if is_supported o then return tt else do
    open_new (apworld_path destination name version)
    _ ← copy_to v files w version (apworld_path destination name version) (some expected_hash)
    return tt

  abbrev pub fetch_expected :
      String → String → World Version → Version → Checksum → Io Bytes (Unit {0})
  fetch_expected destination name w version supported = return tt
  fetch_expected destination name w version (hash expected_hash) = do
    origin ← required (Versions.get v version w.versions)
    fetch_origin destination name w version expected_hash origin

  abbrev pub fetch_version :
      String → String → World Version → List (Version × Checksum) → Version → Io Bytes (Unit {0})
  fetch_version destination name w checksums version = do
    checksum ← required (get (versions v) version checksums)
    fetch_expected destination name w version checksum

  abbrev pub fetch_versions :
      String
      → String
      → World Version
      → List (Version × Checksum)
      → List Version
      → Io Bytes (Unit {0})
  fetch_versions destination name w checksums [] = return tt
  fetch_versions destination name w checksums (version ∷ more) = do
    fetch_version destination name w checksums version
    fetch_versions destination name w checksums more

  abbrev pub fetch_world :
      String → Index Version → String → WorldChanges Version → Io Bytes (Unit {0})
  fetch_world destination index name c = if is_empty v c.added_versions then return tt else do
    w ← required (get names name index.worlds)
    fetch_versions destination name w c.checksums c.added_versions

  abbrev pub fetch_worlds :
      String → Index Version → List (String × WorldChanges Version) → Io Bytes (Unit {0})
  fetch_worlds destination index [] = return tt
  fetch_worlds destination index ((name, c) ∷ worlds) = do
    fetch_world destination index name c
    fetch_worlds destination index worlds

  unfoldable pub download_from_changes :
      Changes Version → Index Version → String → Io Bytes (Unit {0})
  download_from_changes changes index destination = do
    create_dir_all destination
    fetch_worlds destination index changes.worlds
