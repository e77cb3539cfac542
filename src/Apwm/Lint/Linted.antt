-- ===== src/Apwm/Lint/Linted.antt =====
-- What holds of a world that the lint finds no error in.
use Prim.Native.String
use archipelago_xl.Base.{◌≡◌, ◌∙◌, String, true, false, not, ◌&&◌, List, [], arith}
use archipelago_xl.Apwm.Semver.{Semver}
use archipelago_xl.Apwm.Worlds.{WorldDef}
use archipelago_xl.Apwm.IndexSets.{IndexSet, bases}
use archipelago_xl.Apwm.Lint.{
  error, Toml, push_if, unknown_keys, in_table, table_at, base_override_keys, release_keys,
  world_keys, nothing_in_versions,
}
use archipelago_xl.Apwm.Lint.Worlds.{
  lint_versions_table, lint_inner_keys, lint_listed, lint_world, lint_tables, is_empty,
}
use archipelago_xl.Apwm.Lint.Clean.{
  has_error, failed, failed-push_if, bad_defaults, failed-lint_defaults, bad_listed,
  failed-lint_listed, any_nowhere, failed-lint_releases, failed-lint_requirements, in_table-Keeps,
  inner_keys-Keeps,
}

module _ (v : Semver) (toml : Toml) where
  open v use {Version, Req, le}
  open toml use {Value, as_table}

  -- What a world without errors has: every default version is there, every listed release runs on
  -- the legacy base, every release runs somewhere, and older lobbies find a release.
  pub record IsClean (name : String) (w : WorldDef Version Req) (s : IndexSet Version Req)
      : Type 0 where
    pub defaults : bad_defaults v toml s name (bases v s) ≡ false
    pub listed : bad_listed v toml w s.legacy_base w.versions ≡ false
    pub bounds : any_nowhere v toml w.releases ≡ false
    pub offered : (is_empty v toml w.versions && not w.supported && not w.disabled) ≡ false

  any_nowhere-failed :
      (file : String) (w : WorldDef Version Req) (s : IndexSet Version Req)
      (raw : List (String × Value))
      → any_nowhere v toml w.releases ≡ true
      → failed v toml (lint_tables v toml file w s raw) ≡ true
  any_nowhere-failed file w s raw h =
      failed-lint_requirements v toml (bases v s) w.base_overrides _
      ∙ in_table-Keeps v toml (lint_inner_keys v toml base_override_keys _)
          (table_at v toml "base" raw) (inner_keys-Keeps v toml base_override_keys _) _
          (ground (
            arith,
            failed-lint_releases v toml w s.legacy_base w.releases (
                in_table v toml
                  (lint_inner_keys v toml release_keys (λ (version : String).
                    String.◌++◌ "of " (String.◌++◌ version " in `[releases]`")))
                  (table_at v toml "releases" raw)
                  (lint_versions_table v toml raw (
                    unknown_keys v toml raw world_keys "of a world"
                      (record { file = file; problems = [] })))),
          ))

  -- If the lint of a world reports no error, then on every base of the index where the world is, its
  -- default version is there; every version that is listed and has a release runs on the legacy
  -- base; no release has a minimum above its maximum; and the world lists a version unless it is
  -- supported or disabled.
  pub lint_world-IsClean :
      (file name : String) (w : WorldDef Version Req) (s : IndexSet Version Req)
      (raw : List (String × Value))
      → has_error v toml (lint_world v toml file name w s raw) ≡ false
      → IsClean name w s
  unfolding lint_world
  lint_world-IsClean file name w s raw clean =
      let listed =
        lint_listed v toml w s.legacy_base w.versions (lint_tables v toml file w s raw) in
      let nothing = is_empty v toml w.versions && not w.supported && not w.disabled in
      let offered = push_if v toml nothing error nothing_in_versions listed in
      let last = failed-lint_defaults v toml s name (bases v s) offered in
      let before = failed-push_if v toml nothing error nothing_in_versions listed in
      let first =
        failed-lint_listed v toml w s.legacy_base w.versions (lint_tables v toml file w s raw) in
      let nowhere = any_nowhere-failed file w s raw in
      record {
        defaults = ground (arith, last, clean);
        listed = ground (arith, last, before, first, clean);
        bounds = ground (arith, last, before, first, nowhere, clean);
        offered = ground (arith, last, before, clean);
      }
