-- ===== src/Apwm/Lint/Worlds.antt =====
-- apwm/src/lint.rs: the lint of a world file, and of a whole index.
use Prim.Native.String
use archipelago_xl.Base.{
  String, Bool, true, false, not, ◌&&◌, ◌||◌, Option, none, some, is_some, unwrap_or, List, [], ◌∷◌,
  ◌++◌, any, length, ltb, if◌then◌else◌,
}
use archipelago_xl.Apwm.Semver.{Semver}
use archipelago_xl.Apwm.Maps as Versions
use archipelago_xl.Apwm.Keyed.{names, get}
use archipelago_xl.Apwm.Worlds.{
  WorldOrigin, VersionReq, disabled, latest, latest_supported, specific, Release, BaseOverride,
  WorldDef, World, Fallible, ok, fails, runs_on,
}
use archipelago_xl.Apwm.Manifests.{Index}
use archipelago_xl.Apwm.IndexSets.{IndexSet, bases, get_base}
use archipelago_xl.Apwm.Lint.{
  error, warning, offered_by_older_lobbies, nothing_in_versions, default_not_available,
  default_not_supported, should_be_table, several_keys, ignored_key, runs_nowhere, changes_nothing,
  only_in_releases, matches_no_base, Problem, Toml, world_keys, version_keys, release_keys,
  base_override_keys, Reported, push, push_if, is_known, unknown_keys, table_at, lint_index_file,
  in_table,
}

module _ (v : Semver) (toml : Toml) where
  open v use {Version, Req, le}
  open toml use {Value, as_table}

  abbrev pub lint_entry_keys : String → List (String × Value) → Reported v toml → Reported v toml
  lint_entry_keys version [] r = r
  lint_entry_keys version ((key, _) ∷ entry) r =
      lint_entry_keys version entry
        (push_if v toml (not (is_known v toml version_keys key)) error (ignored_key key version) r)

  abbrev pub lint_version_entry :
      String → Option (List (String × Value)) → Reported v toml → Reported v toml
  lint_version_entry version none r = push v toml warning (should_be_table version) r
  lint_version_entry version (some entry) r =
      let by_key = lint_entry_keys version entry r in
      if ltb 1 (length entry)
      then push v toml error (several_keys version (length entry)) r
      else by_key

  abbrev pub lint_version_entries : List (String × Value) → Reported v toml → Reported v toml
  lint_version_entries [] r = r
  lint_version_entries ((version, value) ∷ more) r =
      lint_version_entries more (lint_version_entry version (as_table value) r)

  abbrev pub lint_versions_table : List (String × Value) → Reported v toml → Reported v toml
  lint_versions_table raw r =
      in_table v toml lint_version_entries (table_at v toml "versions" raw) r

  -- the unknown keys of the tables in a table
  abbrev pub lint_inner_keys :
      List String → (String → String) → List (String × Value) → Reported v toml → Reported v toml
  lint_inner_keys known location [] r = r
  lint_inner_keys known location ((name, value) ∷ more) r = lint_inner_keys known location more (
      in_table v toml
        (λ (entry : List (String × Value)) (r : Reported v toml).
          unknown_keys v toml entry known (location name) r)
        (as_table value) r)

  abbrev pub lint_bounds :
      Version → Option Version → Option Version → Reported v toml → Reported v toml
  lint_bounds version (some min) (some max) r =
      push_if v toml (not (le min max)) error (runs_nowhere version min max) r
  lint_bounds version min max r = r

  abbrev pub lint_release :
      WorldDef Version Req → Version → Version → Release Version → Reported v toml → Reported v toml
  lint_release w legacy_base version release r =
      let in_versions = Versions.contains v version w.versions in
      let constrained = is_some release.min_ap_version || is_some release.max_ap_version in
      let has_origin = is_some release.url || is_some release.local in
      push_if v toml (not in_versions && not w.disabled && runs_on v release legacy_base) warning
        (only_in_releases version legacy_base)
        (push_if v toml (in_versions && not constrained && not has_origin) warning
          (changes_nothing version)
          (lint_bounds version release.min_ap_version release.max_ap_version r))

  abbrev pub lint_releases :
      WorldDef Version Req
      → Version
      → List (Version × Release Version)
      → Reported v toml
      → Reported v toml
  lint_releases w legacy_base [] r = r
  lint_releases w legacy_base ((version, release) ∷ more) r =
      lint_releases w legacy_base more (lint_release w legacy_base version release r)

  abbrev pub lint_releases_table :
      List (String × Value) → WorldDef Version Req → Version → Reported v toml → Reported v toml
  lint_releases_table raw w legacy_base r = lint_releases w legacy_base w.releases (
      in_table v toml
        (lint_inner_keys release_keys
          (λ (version : String). String.◌++◌ "of " (String.◌++◌ version " in `[releases]`")))
        (table_at v toml "releases" raw) r)

  abbrev pub lint_requirements :
      List Version → List (Req × BaseOverride Version) → Reported v toml → Reported v toml
  lint_requirements bs [] r = r
  lint_requirements bs ((requirement, _) ∷ more) r = lint_requirements bs more (
      push_if v toml (not (any (λ (b : Version). v.matches requirement b) bs)) warning
        (matches_no_base requirement) r)

  abbrev pub lint_base_tables :
      List (String × Value)
      → WorldDef Version Req
      → List Version
      → Reported v toml
      → Reported v toml
  lint_base_tables raw w bs r = lint_requirements bs w.base_overrides (
      in_table v toml
        (lint_inner_keys base_override_keys
          (λ (requirement : String). String.◌++◌ "of `[base.\"" (String.◌++◌ requirement "\"]`")))
        (table_at v toml "base" raw) r)

  -- the loop over `[versions]`
  abbrev pub lint_if_released :
      Version → Version → Option (Release Version) → Reported v toml → Reported v toml
  lint_if_released version legacy_base none r = r
  lint_if_released version legacy_base (some release) r =
      push_if v toml (not (runs_on v release legacy_base)) error
        (offered_by_older_lobbies version legacy_base) r

  abbrev pub lint_listed :
      WorldDef Version Req
      → Version
      → List (Version × WorldOrigin)
      → Reported v toml
      → Reported v toml
  lint_listed w legacy_base [] r = r
  lint_listed w legacy_base ((version, _) ∷ more) r =
      lint_listed w legacy_base more
        (lint_if_released version legacy_base (Versions.get v version w.releases) r)

  abbrev pub is_empty : {A : Type 0} → List A → Bool
  is_empty [] = true
  is_empty (_ ∷ _) = false

  abbrev pub lint_default_version :
      Version → World Version → VersionReq Version → Reported v toml → Reported v toml
  lint_default_version base w (specific version) r =
      push_if v toml (not (Versions.contains v version w.versions)) error
        (default_not_available version base) r
  lint_default_version base w latest_supported r =
      push_if v toml (not w.supported) error (default_not_supported base) r
  lint_default_version base w latest r = r
  lint_default_version base w disabled r = r

  abbrev pub lint_default : Version → Option (World Version) → Reported v toml → Reported v toml
  lint_default base none r = r
  lint_default base (some w) r = lint_default_version base w w.default_version r

  abbrev pub world_in : Option (Index Version) → String → Option (World Version)
  world_in none apworld_name = none
  world_in (some i) apworld_name = get names apworld_name i.worlds

  -- the loop over the bases
  abbrev pub lint_defaults :
      IndexSet Version Req → String → List Version → Reported v toml → Reported v toml
  lint_defaults s apworld_name [] r = r
  lint_defaults s apworld_name (base ∷ more) r =
      lint_defaults s apworld_name more
        (lint_default base (world_in (get_base v s base) apworld_name) r)

  -- the tables as they are written
  abbrev pub lint_tables :
      String → WorldDef Version Req → IndexSet Version Req → List (String × Value) → Reported v toml
  lint_tables file w s raw = lint_base_tables raw w (bases v s) (
      lint_releases_table raw w s.legacy_base (
        lint_versions_table raw (
          unknown_keys v toml raw world_keys "of a world" (record { file = file; problems = [] }))))

  unfoldable pub lint_world :
      String
      → String
      → WorldDef Version Req
      → IndexSet Version Req
      → List (String × Value)
      → List (Problem Version Req)
  lint_world file apworld_name w s raw =
      let listed = lint_listed w s.legacy_base w.versions (lint_tables file w s raw) in
      let offered =
        push_if v toml (is_empty w.versions && not w.supported && not w.disabled) error
          nothing_in_versions listed in
      (lint_defaults s apworld_name (bases v s) offered).problems

  abbrev pub relative : String → String → String
  relative root path = unwrap_or (toml.strip_prefix path root) path

  abbrev pub and_more :
      Fallible (List (Problem Version Req))
      → Fallible (List (Problem Version Req))
      → Fallible (List (Problem Version Req))
  and_more fails more = fails
  and_more (ok problems) fails = fails
  and_more (ok problems) (ok more) = ok (problems ++ more)

  abbrev pub lint_table :
      (List (String × Value) → List (Problem Version Req))
      → Fallible (List (String × Value))
      → Fallible (List (Problem Version Req))
  lint_table lint fails = fails
  lint_table lint (ok raw) = ok (lint raw)

  -- the loop over the world files
  abbrev pub lint_worlds :
      String
      → IndexSet Version Req
      → List (String × WorldDef Version Req)
      → Fallible (List (Problem Version Req))
  lint_worlds root s [] = ok []
  lint_worlds root s ((apworld_name, w) ∷ defs) =
      and_more
        (lint_table (lint_world (relative root w.path) apworld_name w s) (toml.read_table w.path))
        (lint_worlds root s defs)

  -- what follows once the index set is built
  unfoldable pub lint : String → IndexSet Version Req → Fallible (List (Problem Version Req))
  lint index_path s = elim (toml.parent index_path) [
    | none ↦ fails
    | some root ↦
        and_more
          (lint_table (lint_index_file v toml (relative root index_path) s)
            (toml.read_table index_path))
          (lint_worlds root s s.world_defs)
  ]
