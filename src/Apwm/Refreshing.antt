-- ===== src/Apwm/Refreshing.antt =====
-- apwm/src/index/mod.rs: downloading the releases of an index and locking their checksums.
pub mod Kept
pub mod Refreshed
pub mod Locked
use archipelago_xl.Base.{
  ℕ, zero, suc, ◌≡◌, String, Bool, true, false, not, ◌&&◌, Option, none, some, is_some, unwrap_or,
  List, [], ◌∷◌, ◌++◌, str_eq, if◌then◌else◌,
}
use archipelago_xl.Apwm.Semver.{Semver}
use archipelago_xl.Apwm.Keyed.{names, versions, get, contains, insert}
use archipelago_xl.Apwm.Worlds.{WorldOrigin, is_supported, World, Fallible, ok, fails}
use archipelago_xl.Apwm.Manifests.{Index}
use archipelago_xl.Apwm.Files.{
  Files, Effect, renamed, Io, return, give, required, attempt, after, ◌>>=◌, ◌>>◌,
}
use archipelago_xl.Apwm.Downloads.{copy_to}
use archipelago_xl.Apwm.Checksums.{create_dir_all, apworld_path}
use archipelago_xl.Apwm.Locks.{IndexLock, empty_lock, set_checksum, get_checksum}

pub record DownloadTask (V : Type 0) : Type 0 where
  pub apworld_name : String
  pub version : V
  pub world : World V
  pub destination_path : String
  pub expected_checksum : Option String

module _ (v : Semver) where
  open v use {Version}

  -- What else a refresh needs: which paths are files, temporary files and their renaming, and the
  -- parser of lock files.
  pub record Disk (files : Files) : Type 0 where
    pub is_file : String → Bool
    pub temporary : String → Fallible String
    pub can_rename : String → String → Bool
    pub parse_lock : files.Bytes → Fallible (List (String × List (Version × String)))

  module _ (files : Files) (disk : Disk files) where
    open files use {Bytes}

    unfoldable pub read_lock : String → Io Bytes (IndexLock Version)
    read_lock path = if not (disk.is_file path) then return (empty_lock v path) else do
      content ← give (files.read path)
      apworlds ← give (disk.parse_lock content)
      return (record { path = path; apworlds = apworlds })

    -- what `precise` leaves out
    abbrev pub is_ignored : Option (String × Version) → String → Version → Bool
    is_ignored none apworld_name version = false
    is_ignored (some (target_world, target_version)) apworld_name version =
        if not (str_eq apworld_name target_world) then true else not (v.eq version target_version)

    abbrev pub is_skipped :
        Option (String × Version) → String → World Version → Version → WorldOrigin → Bool
    is_skipped precise apworld_name world version origin =
        if is_ignored precise apworld_name version
        then true
        else if world.disabled
        then true
        else is_supported origin

    -- the lock and the tasks so far
    abbrev pub Planned : Type 0
    Planned = IndexLock Version × List (DownloadTask Version)

    abbrev pub task :
        String → String → World Version → Version → Option String → DownloadTask Version
    task destination apworld_name world version expected_checksum = record {
      apworld_name = apworld_name;
      version = version;
      world = world;
      destination_path = apworld_path v files destination apworld_name version;
      expected_checksum = expected_checksum;
    }

    abbrev pub push_task : DownloadTask Version → Planned → Planned
    push_task t (lock, tasks) = (lock, tasks ++ (t ∷ []))

    abbrev pub lock_at : String → Version → String → Planned → Planned
    lock_at apworld_name version checksum (lock, tasks) =
        (set_checksum v apworld_name version checksum lock, tasks)

    -- `expected_checksum == Some(current_checksum)`
    abbrev pub is_same : Option String → String → Bool
    is_same none checksum = false
    is_same (some expected) checksum = str_eq expected checksum

    abbrev pub compare_file :
        String
        → World Version
        → String
        → Version
        → Option String
        → Planned
        → Bytes
        → Io Bytes Planned
    compare_file destination world apworld_name version expected_checksum planned buf =
        let current_checksum = files.sha256 buf in
        if is_same expected_checksum current_checksum
        then return (lock_at apworld_name version current_checksum planned)
        else return
            (push_task (task destination apworld_name world version expected_checksum) planned)

    abbrev pub plan_file :
        String → World Version → String → Version → Option String → Planned → Io Bytes Planned
    plan_file destination world apworld_name version expected_checksum planned =
        let path = apworld_path v files destination apworld_name version in
        if disk.is_file path
        then give (files.read path)
          >>= compare_file destination world apworld_name version expected_checksum planned
        else return
            (push_task (task destination apworld_name world version expected_checksum) planned)

    abbrev pub plan_release :
        Bool
        → String
        → World Version
        → String
        → Version
        → Option String
        → Planned
        → Io Bytes Planned
    plan_release true destination world apworld_name version (some expected_checksum) planned =
        return (lock_at apworld_name version expected_checksum planned)
    plan_release only_new destination world apworld_name version expected_checksum planned =
        plan_file destination world apworld_name version expected_checksum planned

    -- the loop over the versions of a world
    abbrev pub plan_versions :
        Option (String × Version)
        → Bool
        → String
        → IndexLock Version
        → String
        → World Version
        → List (Version × WorldOrigin)
        → Planned
        → Io Bytes Planned
    plan_versions precise only_new destination old_lock name world [] planned = return planned
    plan_versions precise only_new destination old_lock name world ((version, origin) ∷ more)
          planned =
        let rest = plan_versions precise only_new destination old_lock name world more in
        if is_skipped precise name world version origin
        then rest planned
        else plan_release only_new destination world name version
            (get_checksum v old_lock name version) planned
          >>= rest

    -- the loop over the worlds
    abbrev pub plan_worlds :
        Option (String × Version)
        → Bool
        → String
        → IndexLock Version
        → List (String × World Version)
        → Planned
        → Io Bytes Planned
    plan_worlds precise only_new destination old_lock [] planned = return planned
    plan_worlds precise only_new destination old_lock ((name, world) ∷ worlds) planned = do
      planned ←
          plan_versions precise only_new destination old_lock name world world.versions planned
      plan_worlds precise only_new destination old_lock worlds planned

    -- one task: into a temporary file beside the destination, which then takes its place
    unfoldable pub run_task : DownloadTask Version → Io Bytes String
    run_task t = do
      parent_dir ← required (files.parent t.destination_path)
      tempfile ← give (disk.temporary parent_dir)
      checksum ← copy_to v files t.world t.version tempfile t.expected_checksum
      attempt (disk.can_rename tempfile t.destination_path) (renamed tempfile t.destination_path)
          >> return checksum

    -- puts a task behind the first one
    abbrev pub behind :
        DownloadTask Version → List (DownloadTask Version) → List (DownloadTask Version)
    behind t [] = t ∷ []
    behind t (u ∷ ts) = u ∷ t ∷ ts

    -- the task at a place of the list first, the last one where the list is shorter
    abbrev pub pick :
        ℕ → DownloadTask Version → List (DownloadTask Version) → List (DownloadTask Version)
    pick zero t ts = t ∷ ts
    pick (suc n) t [] = t ∷ []
    pick (suc n) t (u ∷ ts) = behind t (pick n u ts)

    abbrev pub then_reordered :
        (List (DownloadTask Version) → List (DownloadTask Version))
        → List (DownloadTask Version)
        → List (DownloadTask Version)
    then_reordered rest [] = []
    then_reordered rest (t ∷ ts) = t ∷ rest ts

    abbrev pub reordered : List ℕ → List (DownloadTask Version) → List (DownloadTask Version)
    reordered [] ts = ts
    reordered (n ∷ ns) [] = []
    reordered (n ∷ ns) (t ∷ ts) = then_reordered (reordered ns) (pick n t ts)

    abbrev pub locked :
        DownloadTask Version → Fallible String → IndexLock Version → IndexLock Version
    locked t fails lock = lock
    locked t (ok checksum) lock = set_checksum v t.apworld_name t.version checksum lock

    -- the loop over the results, in the order in which the tasks end
    abbrev pub collect :
        List (DownloadTask Version) → IndexLock Version → Io Bytes (IndexLock Version)
    collect [] lock = return lock
    collect (t ∷ tasks) lock =
        let run = run_task t in after run.effects (collect tasks (locked t run.result lock))

    -- `picks` says which of the tasks that are left ends next
    unfoldable pub refresh_into :
        String
        → Index Version
        → String
        → Bool
        → Option (String × Version)
        → List ℕ
        → Io Bytes (IndexLock Version)
    refresh_into index_path index destination only_new precise picks = do
      parent ← required (files.parent index_path)
      old_lock ← read_lock (files.join parent "index.lock")
      _ ← give (if disk.is_file destination then fails else ok (tt {0}))
      create_dir_all v files destination
      planned ←
          plan_worlds precise only_new destination old_lock index.worlds
            (empty_lock v old_lock.path, [])
      collect (reordered picks (planned.1)) (planned.0)
