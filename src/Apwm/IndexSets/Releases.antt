-- ===== src/Apwm/IndexSets/Releases.antt =====
-- The index of all releases.
use archipelago_xl.Base.{
  ◌≡◌, refl, String, Bool, true, false, ◌||◌, Option, none, some, unwrap_or, List, [], ◌∷◌, any,
  all, arith,
}
use archipelago_xl.Apwm.Semver.{Semver}
use archipelago_xl.Apwm.Keyed.{names, versions, get, contains, insert, is_distinct}
use archipelago_xl.Apwm.Keyed.Laws.{contains-get, get-insert}
use archipelago_xl.Apwm.Worlds.{WorldOrigin, World}
use archipelago_xl.Apwm.Manifests.{Index}
use archipelago_xl.Apwm.IndexSets.{
  IndexSet, legacy, or_insert, merge_world, merge_worlds, merge_bases, all_releases,
}

module _ (v : Semver) where
  open v use {Version, Req, eq, eq_iff}

  abbrev pub offers : Option (World Version) → Version → Bool
  offers none u = false
  offers (some w) u = contains (versions v) u w.versions

  abbrev pub offered : List (String × World Version) → String → Version → Bool
  offered worlds name u = offers (get names name worlds) u

  contains-or_insert :
      (u : Version) (more merged : List (Version × WorldOrigin))
      → contains (versions v) u (or_insert v more merged)
        ≡ (contains (versions v) u more || contains (versions v) u merged)
  contains-or_insert u [] merged = refl
  contains-or_insert u ((w, o) ∷ more) merged = ground (
    arith,
    contains-or_insert u more
        (insert (versions v) w (unwrap_or (get (versions v) w merged) o) merged),
    contains-get (versions v) u merged,
    contains-get (versions v) u
        (insert (versions v) w (unwrap_or (get (versions v) w merged) o) merged),
    get-insert (versions v) u w (unwrap_or (get (versions v) w merged) o) merged,
  )

  offers-merge_world :
      (u : Version) (o : Option (World Version)) (w : World Version)
      → offers (some (merge_world v o w)) u ≡ (offers o u || offers (some w) u)
  offers-merge_world u none w = ground (arith, contains-or_insert u w.versions w.versions)
  offers-merge_world u (some merged) w =
      ground (arith, contains-or_insert u w.versions merged.versions)

  offered-merge_worlds :
      (name : String) (u : Version) (worlds merged : List (String × World Version))
      → is_distinct names worlds ≡ true
      → offered (merge_worlds v worlds merged) name u
        ≡ (offered worlds name u || offered merged name u)
  offered-merge_worlds name u [] merged d = refl
  offered-merge_worlds name u ((n, w) ∷ worlds) merged d = ground (
    arith,
    offered-merge_worlds name u worlds
        (insert names n (merge_world v (get names n merged) w) merged),
    get-insert names name n (merge_world v (get names n merged) w) merged,
    offers-merge_world u (get names n merged) w,
    contains-get names n worlds,
    names.eq_iff n name,
  )

  abbrev pub are_distinct : List (Version × Index Version) → Bool
  are_distinct views = all (λ (e : Version × Index Version). is_distinct names (e.1).worlds) views

  -- some base's view has the version
  abbrev pub offered_by : List (Version × Index Version) → String → Version → Bool
  offered_by views name u = any (λ (e : Version × Index Version). offered (e.1).worlds name u) views

  offered-merge_bases :
      (name : String) (u : Version) (views : List (Version × Index Version))
      (merged : List (String × World Version))
      → are_distinct views ≡ true
      → offered (merge_bases v views merged) name u
        ≡ (offered_by views name u || offered merged name u)
  offered-merge_bases name u [] merged d = refl
  offered-merge_bases name u ((b, i) ∷ views) merged d = ground (
    arith,
    offered-merge_bases name u views (merge_worlds v i.worlds merged),
    offered-merge_worlds name u i.worlds merged,
  )

  offered-legacy :
      (name : String) (u b : Version) (views : List (Version × Index Version)) (i : Index Version)
      → get (versions v) b views ≡ some i
      → offered i.worlds name u ≡ true
      → offered_by views name u ≡ true
  offered-legacy name u b [] i h k = ground arith
  offered-legacy name u b ((a, j) ∷ views) i h k = ground (arith, offered-legacy name u b views i)

  -- If the legacy base has a view and no base's view has two worlds of one name, the index of all
  -- releases exists, and it has a version of a world just if some base's view has it.
  pub all_releases-offered :
      (s : IndexSet Version Req) (i : Index Version)
      → legacy v s ≡ some i
      → are_distinct s.bases ≡ true
      → (merged : Index Version) × (all_releases v s ≡ some merged)
        × ((name : String) (u : Version) → offered merged.worlds name u ≡ offered_by s.bases name u)
  unfolding all_releases
  all_releases-offered s i h d = rw h (
    _,
    refl,
    λ name u. ground (
      arith,
      offered-merge_bases name u s.bases i.worlds,
      offered-legacy name u s.legacy_base s.bases i h,
    ),
  )
