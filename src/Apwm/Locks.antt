-- ===== src/Apwm/Locks.antt =====
-- apwm/src/index/lock.rs: the checksums of the releases that were downloaded.
use archipelago_xl.Base.{
  String, Bool, false, Option, none, some, is_some, unwrap_or, List, [], ◌∷◌, if◌then◌else◌,
}
use archipelago_xl.Apwm.Semver.{Semver}
use archipelago_xl.Apwm.Keyed.{names, versions, get, insert}

-- Its `path` is what `refresh_into` copies from the old lock.
pub record IndexLock (V : Type 0) : Type 0 where
  pub path : String
  pub apworlds : List (String × List (V × String))

module _ (v : Semver) where
  open v use {Version}

  abbrev pub checksums_of : IndexLock Version → String → List (Version × String)
  checksums_of lock world_name = unwrap_or (get names world_name lock.apworlds) []

  unfoldable pub has_checksum : IndexLock Version → String → Version → Bool
  has_checksum lock world_name version = elim (get names world_name lock.apworlds) [
    | none ↦ false
    | some world ↦ is_some (get (versions v) version world)
  ]

  unfoldable pub set_checksum : String → Version → String → IndexLock Version → IndexLock Version
  set_checksum world_name version checksum lock = record lock {
    apworlds =
        insert names world_name
          (insert (versions v) version checksum (checksums_of lock world_name)) lock.apworlds;
  }

  unfoldable pub get_checksum : IndexLock Version → String → Version → Option String
  get_checksum lock world_name version = elim (get names world_name lock.apworlds) [
    | none ↦ none
    | some world ↦ get (versions v) version world
  ]

  abbrev removed : Version → List (Version × String) → List (Version × String)
  removed version [] = []
  removed version ((u, checksum) ∷ world) =
      let rest = removed version world in if v.eq u version then world else (u, checksum) ∷ rest

  unfoldable pub remove_version : String → Version → IndexLock Version → IndexLock Version
  remove_version world_name version lock = elim (get names world_name lock.apworlds) [
    | none ↦ lock
    | some world ↦ record lock {
      apworlds = insert names world_name (removed version world) lock.apworlds;
    }
  ]

  abbrev pub empty_lock : String → IndexLock Version
  empty_lock path = record { path = path; apworlds = [] }
