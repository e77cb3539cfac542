-- ===== src/Apwm/Refreshing/Locked.antt =====
-- A refresh never changes a checksum that is locked.
use archipelago_xl.Base.{
  ℕ, ◌≡◌, ◌⊎◌, inl, inr, refl, sym, ap, ◌∙◌, String, Bool, Option, none, some, List, [], ◌∷◌, All,
  eq_iff, arith, Option-cases, subst, if◌then◌else◌,
}
use archipelago_xl.Apwm.Semver.{Semver}
use archipelago_xl.Apwm.Keyed.{names}
use archipelago_xl.Apwm.Keyed.Laws.{AllOf}
use archipelago_xl.Apwm.Worlds.{Fallible, ok, fails, ok-injective}
use archipelago_xl.Apwm.Manifests.{Index}
use archipelago_xl.Apwm.Files.{Files, Io, give, required, attempt, renamed, >>=-eq-ok}
use archipelago_xl.Apwm.Downloads.{copy_to}
use archipelago_xl.Apwm.Downloads.Checked.{Only, copy_to-Only}
use archipelago_xl.Apwm.Checksums.{create_dir_all}
use archipelago_xl.Apwm.Locks.{IndexLock, empty_lock, get_checksum}
use archipelago_xl.Apwm.Refreshing.{
  DownloadTask, Disk, plan_worlds, run_task, read_lock, reordered, locked, collect, refresh_into,
}
use archipelago_xl.Apwm.Refreshing.Kept.{
  Kept, AllKept, IsSound, set_checksum-AllKept, get_checksum-Kept,
}
use archipelago_xl.Apwm.Refreshing.Refreshed.{
  HasDistinctVersions, worlds-ArePlanned, reordered-IsSound,
}

module _ (v : Semver) (files : Files) (disk : Disk v files) (old_lock : IndexLock v.Version) where
  open v use {Version}
  open files use {Bytes}

  Only-Kept :
      (t : DownloadTask Version) (destination checksum : String) (m : Io Bytes String)
      → IsSound v files disk old_lock t
      → Only v files destination t.expected_checksum m
      → m.result ≡ ok checksum
      → Kept v files disk old_lock t.apworld_name t.version checksum
  Only-Kept t destination checksum m s (inl o) r h e = ground (arith, o)
  Only-Kept t destination checksum m s (inr (b, o, r', d)) r h e =
      ground (arith, s.0, ok-injective (files.sha256 b) checksum (sym r' ∙ r), eq_iff checksum h)

  run_task-Kept :
      (t : DownloadTask Version) (checksum : String)
      → IsSound v files disk old_lock t
      → (run_task v files disk t).result ≡ ok checksum
      → Kept v files disk old_lock t.apworld_name t.version checksum
  unfolding run_task
  run_task-Kept t checksum s r =
      let dir = >>=-eq-ok (required (files.parent t.destination_path)) _ checksum r in
      let tempfile = >>=-eq-ok (give (disk.temporary dir.0)) _ checksum dir.2 in
      let copy = copy_to v files t.world t.version tempfile.0 t.expected_checksum in
      let copied = >>=-eq-ok copy _ checksum tempfile.2 in
      let moved =
        >>=-eq-ok
          (attempt (disk.can_rename tempfile.0 t.destination_path)
            (renamed tempfile.0 t.destination_path))
          _ checksum copied.2 in
      Only-Kept t tempfile.0 checksum copy s
        (copy_to-Only v files t.world t.version tempfile.0 t.expected_checksum s.1)
        (copied.1 ∙ moved.2)

  locked-AllKept :
      (t : DownloadTask Version) (r : Fallible String) (lock : IndexLock Version)
      → ((checksum : String)
          → r ≡ ok checksum
          → Kept v files disk old_lock t.apworld_name t.version checksum)
      → AllKept v files disk old_lock lock
      → AllKept v files disk old_lock (locked v files disk t r lock)
  locked-AllKept t fails lock k h = h
  locked-AllKept t (ok checksum) lock k h =
      set_checksum-AllKept v files disk old_lock t.apworld_name t.version checksum lock
        (k checksum refl) h

  collect-AllKept :
      (ts : List (DownloadTask Version)) (lock out : IndexLock Version)
      → All (IsSound v files disk old_lock) ts
      → AllKept v files disk old_lock lock
      → (collect v files disk ts lock).result ≡ ok out
      → AllKept v files disk old_lock out
  collect-AllKept [] lock out ss h r = subst (AllKept v files disk old_lock) (ok-injective _ _ r) h
  collect-AllKept (t ∷ ts) lock out (s, ss) h r =
      collect-AllKept ts (locked v files disk t (run_task v files disk t).result lock) out ss
        (locked-AllKept t (run_task v files disk t).result lock
          (λ checksum e. run_task-Kept t checksum s e) h)
        r

-- Refreshing an index whose worlds have no version twice never changes a checksum that is locked:
-- if the lock file can be read and the refresh succeeds, then the new lock has either no checksum for
-- a release or, if the lock file has one, the same. This holds in whatever order the downloads end,
-- whether or not only new releases are asked for, and whatever is on the disk.
pub refresh_into-keeps :
    (v : Semver) (files : Files) (disk : Disk v files) (index_path parent : String)
    (index : Index v.Version) (destination : String) (only_new : Bool)
    (precise : Option (String × v.Version)) (picks : List ℕ)
    (old_lock new_lock : IndexLock v.Version)
    → AllOf names (HasDistinctVersions v files disk old_lock) index.worlds
    → files.parent index_path ≡ some parent
    → (read_lock v files disk (files.join parent "index.lock")).result ≡ ok old_lock
    → (refresh_into v files disk index_path index destination only_new precise picks).result
      ≡ ok new_lock
    → (name : String) (u : v.Version) (h : String) → get_checksum v old_lock name u ≡ some h
    → (get_checksum v new_lock name u ≡ none) ⊎ (get_checksum v new_lock name u ≡ some h)
unfolding refresh_into
refresh_into-keeps v files disk index_path parent index destination only_new precise picks old_lock
      new_lock ds p l r name u h old =
    let started = rw (p, l) at r in
    let free =
      >>=-eq-ok (give (if disk.is_file destination then fails else ok (tt {0}))) _ new_lock
        started in
    let made = >>=-eq-ok (create_dir_all v files destination) _ new_lock free.2 in
    let planned =
      >>=-eq-ok
        (plan_worlds v files disk precise only_new destination old_lock index.worlds
          (empty_lock v old_lock.path, []))
        _ new_lock made.2 in
    let sound =
      worlds-ArePlanned v files disk old_lock precise only_new destination index.worlds
        (empty_lock v old_lock.path, []) planned.0 ds (tt, tt) planned.1 in
    let kept =
      collect-AllKept v files disk old_lock (reordered v files disk picks (planned.0.1))
        (planned.0.0) new_lock (reordered-IsSound v files disk old_lock picks (planned.0.1) sound.1)
        sound.0 planned.2 in
    elim (Option-cases (get_checksum v new_lock name u)) [
      | inl e ↦ inl e
      | inr (k, e) ↦
          inr (e ∙ ap some (get_checksum-Kept v files disk old_lock new_lock name u k kept e h old))
    ]
