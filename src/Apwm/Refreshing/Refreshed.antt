-- ===== src/Apwm/Refreshing/Refreshed.antt =====
-- What a refresh plans keeps the locked checksums, in whatever order the tasks end.
use archipelago_xl.Base.{
  ℕ, zero, suc, ◌≡◌, ◌≢◌, inl, inr, refl, sym, ◌∙◌, String, Bool, true, false, Option, some, List,
  [], ◌∷◌, All, arith, Bool-cases, subst, some-injective,
}
use archipelago_xl.Apwm.Semver.{Semver}
use archipelago_xl.Apwm.Maps as Versions
use archipelago_xl.Apwm.Keyed.{names, versions, get, is_distinct}
use archipelago_xl.Apwm.Keyed.Laws.{AllOf, AllOf-of_get}
use archipelago_xl.Apwm.Worlds.{WorldOrigin, is_supported, World, ok, ok-injective}
use archipelago_xl.Apwm.Files.{Files, >>=-eq-ok}
use archipelago_xl.Apwm.Locks.{IndexLock, get_checksum}
use archipelago_xl.Apwm.Refreshing.{
  DownloadTask, Disk, is_skipped, Planned, plan_release, plan_versions, plan_worlds, pick,
  reordered, then_reordered, behind,
}
use archipelago_xl.Apwm.Refreshing.Kept.{IsSound, ArePlanned, Listed, the_task, release-ArePlanned}

module _ (v : Semver) (files : Files) (disk : Disk v files) (old_lock : IndexLock v.Version) where
  open v use {Version}
  open files use {Bytes}

  not_supported :
      (w : World Version) (u : Version) (o : WorldOrigin)
      → Listed v files disk old_lock w u o
      → is_supported o ≡ false
      → Versions.get v u w.versions ≢ some WorldOrigin.supported
  not_supported w u o l n e = ground (arith, some-injective _ _ (sym l ∙ e))

  unskipped :
      (precise : Option (String × Version)) (name : String) (w : World Version) (u : Version)
      (o : WorldOrigin)
      → is_skipped v files disk precise name w u o ≡ false
      → is_supported o ≡ false
  unskipped precise name w u o h = ground arith

  versions-ArePlanned :
      (precise : Option (String × Version)) (only_new : Bool) (destination name : String)
      (w : World Version) (more : List (Version × WorldOrigin)) (planned out : Planned v files disk)
      → AllOf (versions v) (Listed v files disk old_lock w) more
      → ArePlanned v files disk old_lock planned
      → (plan_versions v files disk precise only_new destination old_lock name w more
          planned).result
        ≡ ok out
      → ArePlanned v files disk old_lock out
  versions-ArePlanned precise only_new destination name w [] planned out ls h r =
      subst (ArePlanned v files disk old_lock) (ok-injective _ _ r) h
  versions-ArePlanned precise only_new destination name w ((u, o) ∷ more) planned out (l, ls) h r =
      elim (Bool-cases (is_skipped v files disk precise name w u o)) [
        | inl s ↦
            versions-ArePlanned precise only_new destination name w more planned out ls h
              (rw s at r)
        | inr s ↦
            let expected = get_checksum v old_lock name u in
            let one =
              >>=-eq-ok (plan_release v files disk only_new destination w name u expected planned) _
                out (rw s at r) in
            let sound : IsSound v files disk old_lock
                (the_task v files disk old_lock destination name w u expected) =
              (refl, not_supported w u o l (unskipped precise name w u o s)) in
            versions-ArePlanned precise only_new destination name w more one.0 out ls
              (release-ArePlanned v files disk old_lock destination name w u only_new expected
                planned one.0 sound h one.1)
              one.2
      ]

  -- no version of the world twice
  abbrev pub HasDistinctVersions : String → World Version → Type 0
  HasDistinctVersions name w = is_distinct (versions v) w.versions ≡ true

  same_get :
      (u : Version) (m : List (Version × WorldOrigin)) → get (versions v) u m ≡ Versions.get v u m
  same_get u [] = refl
  same_get u (e ∷ m) = ground (arith, same_get u m)

  pub worlds-ArePlanned :
      (precise : Option (String × Version)) (only_new : Bool) (destination : String)
      (worlds : List (String × World Version)) (planned out : Planned v files disk)
      → AllOf names HasDistinctVersions worlds
      → ArePlanned v files disk old_lock planned
      → (plan_worlds v files disk precise only_new destination old_lock worlds planned).result
        ≡ ok out
      → ArePlanned v files disk old_lock out
  worlds-ArePlanned precise only_new destination [] planned out ds h r =
      subst (ArePlanned v files disk old_lock) (ok-injective _ _ r) h
  worlds-ArePlanned precise only_new destination ((name, w) ∷ worlds) planned out (d, ds) h r =
      let one =
        >>=-eq-ok
          (plan_versions v files disk precise only_new destination old_lock name w w.versions
            planned)
          _ out r in
      worlds-ArePlanned precise only_new destination worlds one.0 out ds
        (versions-ArePlanned precise only_new destination name w w.versions planned one.0
          (AllOf-of_get (versions v) (Listed v files disk old_lock w) w.versions d
            (λ u o e. sym (same_get u w.versions) ∙ e))
          h one.1)
        one.2

  behind-IsSound :
      (t : DownloadTask Version) (ts : List (DownloadTask Version))
      → IsSound v files disk old_lock t
      → All (IsSound v files disk old_lock) ts
      → All (IsSound v files disk old_lock) (behind v files disk t ts)
  behind-IsSound t [] h hs = (h, tt)
  behind-IsSound t (u ∷ ts) h (g, hs) = (g, (h, hs))

  pick-IsSound :
      (n : ℕ) (t : DownloadTask Version) (ts : List (DownloadTask Version))
      → All (IsSound v files disk old_lock) (t ∷ ts)
      → All (IsSound v files disk old_lock) (pick v files disk n t ts)
  pick-IsSound zero t ts h = h
  pick-IsSound (suc n) t [] h = h
  pick-IsSound (suc n) t (u ∷ ts) (h, hs) =
      behind-IsSound t (pick v files disk n u ts) h (pick-IsSound n u ts hs)

  then_reordered-IsSound :
      (rest : List (DownloadTask Version) → List (DownloadTask Version))
      (ts : List (DownloadTask Version))
      → ((us : List (DownloadTask Version))
          → All (IsSound v files disk old_lock) us
          → All (IsSound v files disk old_lock) (rest us))
      → All (IsSound v files disk old_lock) ts
      → All (IsSound v files disk old_lock) (then_reordered v files disk rest ts)
  then_reordered-IsSound rest [] h hs = tt
  then_reordered-IsSound rest (t ∷ ts) h (g, hs) = (g, h ts hs)

  pub reordered-IsSound :
      (ns : List ℕ) (ts : List (DownloadTask Version))
      → All (IsSound v files disk old_lock) ts
      → All (IsSound v files disk old_lock) (reordered v files disk ns ts)
  reordered-IsSound [] ts h = h
  reordered-IsSound (n ∷ ns) [] h = tt
  reordered-IsSound (n ∷ ns) (t ∷ ts) h =
      then_reordered-IsSound (reordered v files disk ns) (pick v files disk n t ts)
        (reordered-IsSound ns) (pick-IsSound n t ts h)
