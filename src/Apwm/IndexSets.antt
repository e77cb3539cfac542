-- ===== src/Apwm/IndexSets.antt =====
-- apwm/src/index/mod.rs: the bases of an index, the view that each base has of its worlds, and
-- the index of all their releases.
pub mod Built
pub mod Releases
use archipelago_xl.Base.{
  ◌≡◌, String, Bool, true, false, not, Option, none, some, unwrap_or, List, [], ◌∷◌, ◌++◌, any,
  if◌then◌else◌,
}
use archipelago_xl.Apwm.Semver.{Semver}
use archipelago_xl.Apwm.Keyed.{names, versions, get, keys, insert}
use archipelago_xl.Apwm.Worlds.{WorldOrigin, WorldDef, World, Fallible, ok, fails, for_base}
use archipelago_xl.Apwm.Manifests.{Index}

-- `index.toml`: its keys that a view does not only copy
pub record IndexFile (V : Type 0) : Type 0 where
  pub archipelago_version : V
  pub bases : List V

pub record IndexSet (V Q : Type 0) : Type 0 where
  pub legacy_base : V
  pub bases : List (V × Index V)
  pub world_defs : List (String × WorldDef V Q)

module _ (v : Semver) where
  open v use {Version, Req, eq}

  abbrev pub add_world :
      String
      → Option (World Version)
      → List (String × World Version)
      → List (String × World Version)
  add_world name none done = done
  add_world name (some w) done = insert names name w done

  abbrev pub add_view :
      String
      → Fallible (Option (World Version))
      → Fallible (List (String × World Version))
      → Fallible (List (String × World Version))
  add_view name fails done = fails
  add_view name (ok w) fails = fails
  add_view name (ok w) (ok done) = ok (add_world name w done)

  -- the loop over the world files, which ends at the first error
  abbrev pub worlds_seen :
      Version
      → List (String × WorldDef Version Req)
      → Fallible (List (String × World Version))
      → Fallible (List (String × World Version))
  worlds_seen base [] done = done
  worlds_seen base ((name, w) ∷ defs) done =
      worlds_seen base defs (add_view name (for_base v w base) done)

  abbrev pub with_worlds :
      Version → Fallible (List (String × World Version)) → Fallible (Index Version)
  with_worlds base fails = fails
  with_worlds base (ok worlds) = ok (record { archipelago_version = base; worlds = worlds })

  unfoldable pub view_for_base : IndexSet Version Req → Version → Fallible (Index Version)
  view_for_base s base = with_worlds base (worlds_seen base s.world_defs (ok []))

  abbrev pub bases : IndexSet Version Req → List Version
  bases s = keys (versions v) s.bases

  abbrev pub get_base : IndexSet Version Req → Version → Option (Index Version)
  get_base s base = get (versions v) base s.bases

  -- `none` is the panic of the indexing
  abbrev pub legacy : IndexSet Version Req → Option (Index Version)
  legacy s = get_base s s.legacy_base

  abbrev pub base_versions : IndexFile Version → List Version
  base_versions f =
      if any (λ (b : Version). eq b f.archipelago_version) f.bases
      then f.bases
      else f.bases ++ (f.archipelago_version ∷ [])

  abbrev pub insert_view :
      IndexSet Version Req → Version → Fallible (Index Version) → Fallible (IndexSet Version Req)
  insert_view s base fails = fails
  insert_view s base (ok index) = ok (record s { bases = insert (versions v) base index s.bases })

  -- the loop over the bases
  abbrev pub with_views :
      List Version → Fallible (IndexSet Version Req) → Fallible (IndexSet Version Req)
  with_views [] s = s
  with_views (base ∷ rest) fails = fails
  with_views (base ∷ rest) (ok s) = with_views rest (insert_view s base (view_for_base s base))

  -- what follows once `index.toml` and the world files are read
  unfoldable pub new_set :
      IndexFile Version → List (String × WorldDef Version Req) → Fallible (IndexSet Version Req)
  new_set f defs =
      with_views (base_versions f)
        (ok (record { legacy_base = f.archipelago_version; bases = []; world_defs = defs }))

  -- `entry(version).or_insert_with(..)`
  abbrev pub or_insert :
      List (Version × WorldOrigin) → List (Version × WorldOrigin) → List (Version × WorldOrigin)
  or_insert [] all = all
  or_insert ((version, o) ∷ more) all =
      or_insert more (insert (versions v) version (unwrap_or (get (versions v) version all) o) all)

  abbrev pub merge_world : Option (World Version) → World Version → World Version
  merge_world none w = record w { versions = or_insert w.versions w.versions }
  merge_world (some all) w = record all { versions = or_insert w.versions all.versions }

  abbrev pub merge_worlds :
      List (String × World Version) → List (String × World Version) → List (String × World Version)
  merge_worlds [] all = all
  merge_worlds ((name, w) ∷ worlds) all =
      merge_worlds worlds (insert names name (merge_world (get names name all) w) all)

  abbrev pub merge_bases :
      List (Version × Index Version) → List (String × World Version) → List (String × World Version)
  merge_bases [] all = all
  merge_bases ((_, index) ∷ more) all = merge_bases more (merge_worlds index.worlds all)

  abbrev pub with_all :
      Option (Index Version) → List (Version × Index Version) → Option (Index Version)
  with_all none views = none
  with_all (some index) views = some (record index { worlds = merge_bases views index.worlds })

  unfoldable pub all_releases : IndexSet Version Req → Option (Index Version)
  all_releases s = with_all (legacy s) s.bases
