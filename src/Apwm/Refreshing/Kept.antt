-- ===== src/Apwm/Refreshing/Kept.antt =====
-- What a refreshed lock has, in whatever order the downloads end.
use archipelago_xl.Base.{
  ◌≡◌, ◌≢◌, inl, inr, ◌∙◌, String, Bool, true, false, Option, none, some, List, [], ◌∷◌, ◌++◌, All,
  eq_iff, arith, Bool-cases, Option-cases, subst, some-injective,
}
use archipelago_xl.Apwm.Semver.{Semver}
use archipelago_xl.Apwm.Maps as Versions
use archipelago_xl.Apwm.Keyed.{names, versions, get}
use archipelago_xl.Apwm.Keyed.Laws.{AllOf, AllOf-insert, AllOf-get}
use archipelago_xl.Apwm.Worlds.{WorldOrigin, World, ok, ok-injective}
use archipelago_xl.Apwm.Files.{Files, give, >>=-eq-ok}
use archipelago_xl.Apwm.Locks.{IndexLock, checksums_of, set_checksum, get_checksum}
use archipelago_xl.Apwm.Refreshing.{
  DownloadTask, Disk, is_same, Planned, task, push_task, lock_at, compare_file, plan_file,
  plan_release,
}

module _ (v : Semver) (files : Files) (disk : Disk v files) (old_lock : IndexLock v.Version) where
  open v use {Version}
  open files use {Bytes}

  -- the checksum that the old lock has, if it has one
  abbrev pub Kept : String → Version → String → Type 0
  Kept name u checksum = (h : String) → get_checksum v old_lock name u ≡ some h → checksum ≡ h

  abbrev pub AllKept : IndexLock Version → Type 0
  AllKept lock = AllOf names (λ (name : String). AllOf (versions v) (Kept name)) lock.apworlds

  -- a task that expects what the old lock has, and is not of a `supported` release
  abbrev pub IsSound : DownloadTask Version → Type 0
  IsSound t =
      (t.expected_checksum ≡ get_checksum v old_lock t.apworld_name t.version)
      × (Versions.get v t.version t.world.versions ≢ some WorldOrigin.supported)

  of_name-AllKept :
      (lock : IndexLock Version) (name : String)
      → AllKept lock
      → AllOf (versions v) (Kept name) (checksums_of v lock name)
  of_name-AllKept lock name h = elim (Option-cases (get names name lock.apworlds)) [
    | inl e ↦ rw e tt
    | inr (m, e) ↦
        rw e
          (AllOf-get names (λ (n : String). AllOf (versions v) (Kept n)) name m lock.apworlds e h)
  ]

  pub set_checksum-AllKept :
      (name : String) (u : Version) (checksum : String) (lock : IndexLock Version)
      → Kept name u checksum
      → AllKept lock
      → AllKept (set_checksum v name u checksum lock)
  unfolding set_checksum
  set_checksum-AllKept name u checksum lock k h =
      AllOf-insert names (λ (n : String). AllOf (versions v) (Kept n)) name _ lock.apworlds
        (AllOf-insert (versions v) (Kept name) u checksum (checksums_of v lock name) k
          (of_name-AllKept lock name h))
        h

  pub get_checksum-Kept :
      (lock : IndexLock Version) (name : String) (u : Version) (checksum : String)
      → AllKept lock
      → get_checksum v lock name u ≡ some checksum
      → Kept name u checksum
  unfolding get_checksum
  get_checksum-Kept lock name u checksum h e = elim (Option-cases (get names name lock.apworlds)) [
    | inl k ↦ ground arith
    | inr (m, k) ↦
        AllOf-get (versions v) (Kept name) u checksum m (rw (k, get_checksum) at e)
          (AllOf-get names (λ (n : String). AllOf (versions v) (Kept n)) name m lock.apworlds k h)
  ]

  abbrev pub ArePlanned : Planned v files disk → Type 0
  ArePlanned planned = AllKept (planned.0) × All IsSound (planned.1)

  abbrev pub Listed : World Version → Version → WorldOrigin → Type 0
  Listed w u o = Versions.get v u w.versions ≡ some o

  All-end :
      (ts : List (DownloadTask Version)) (t : DownloadTask Version)
      → All IsSound ts
      → IsSound t
      → All IsSound (ts ++ (t ∷ []))
  All-end [] t hs h = (h, tt)
  All-end (x ∷ ts) t (g, hs) h = (g, All-end ts t hs h)

  push-ArePlanned :
      (t : DownloadTask Version) (planned : Planned v files disk)
      → IsSound t
      → ArePlanned planned
      → ArePlanned (push_task v files disk t planned)
  push-ArePlanned t (lock, tasks) h (k, ts) = (k, All-end tasks t ts h)

  lock_at-ArePlanned :
      (name : String) (u : Version) (checksum : String) (planned : Planned v files disk)
      → Kept name u checksum
      → ArePlanned planned
      → ArePlanned (lock_at v files disk name u checksum planned)
  lock_at-ArePlanned name u checksum (lock, tasks) k (h, ts) =
      (set_checksum-AllKept name u checksum lock k h, ts)

  same-Kept :
      (name : String) (u : Version) (expected : Option String) (checksum : String)
      → expected ≡ get_checksum v old_lock name u
      → is_same v files disk expected checksum ≡ true
      → Kept name u checksum
  same-Kept name u none checksum e s h k = ground arith
  same-Kept name u (some x) checksum e s h k = ground (arith, eq_iff x checksum)

  module _ (destination name : String) (w : World Version) (u : Version) where
    abbrev pub the_task : Option String → DownloadTask Version
    the_task expected = task v files disk destination name w u expected

    compared-ArePlanned :
        (expected : Option String) (planned out : Planned v files disk) (buf : Bytes)
        → IsSound (the_task expected)
        → ArePlanned planned
        → (compare_file v files disk destination w name u expected planned buf).result ≡ ok out
        → ArePlanned out
    compared-ArePlanned expected planned out buf sound h r =
        elim (Bool-cases (is_same v files disk expected (files.sha256 buf))) [
          | inl s ↦ subst ArePlanned (ok-injective _ _ (rw s at r)) (
              lock_at-ArePlanned name u (files.sha256 buf) planned
                (same-Kept name u expected (files.sha256 buf) sound.0 s) h)
          | inr s ↦
              subst ArePlanned (ok-injective _ _ (rw s at r))
                (push-ArePlanned (the_task expected) planned sound h)
        ]

    file-ArePlanned :
        (expected : Option String) (planned out : Planned v files disk)
        → IsSound (the_task expected)
        → ArePlanned planned
        → (plan_file v files disk destination w name u expected planned).result ≡ ok out
        → ArePlanned out
    file-ArePlanned expected planned out sound h r =
        elim (Bool-cases (disk.is_file (the_task expected).destination_path)) [
          | inl s ↦
              let read =
                >>=-eq-ok (give (files.read (the_task expected).destination_path)) _ out
                  (rw s at r) in
              compared-ArePlanned expected planned out read.0 sound h read.2
          | inr s ↦
              subst ArePlanned (ok-injective _ _ (rw s at r))
                (push-ArePlanned (the_task expected) planned sound h)
        ]

    pub release-ArePlanned :
        (only_new : Bool) (expected : Option String) (planned out : Planned v files disk)
        → IsSound (the_task expected)
        → ArePlanned planned
        → (plan_release v files disk only_new destination w name u expected planned).result ≡ ok out
        → ArePlanned out
    release-ArePlanned true (some checksum) planned out sound h r =
        subst ArePlanned (ok-injective _ _ r)
          (lock_at-ArePlanned name u checksum planned (λ k e. some-injective _ _ (sound.0 ∙ e)) h)
    release-ArePlanned true none planned out sound h r = file-ArePlanned none planned out sound h r
    release-ArePlanned false expected planned out sound h r =
        file-ArePlanned expected planned out sound h r
