-- ===== src/Apwm/Lint.antt =====
-- apwm/src/lint.rs: what is wrong with an index that parses. A message is the kind of it with the
-- values that its text shows.
pub mod Worlds
pub mod Clean
pub mod Linted
pub mod Resolving
use Prim.Native.String
use archipelago_xl.Base.{
  ℕ, ◌≡◌, String, Bool, true, false, not, ◌&&◌, ◌||◌, Option, none, some, is_some, unwrap_or, List,
  [], ◌∷◌, ◌++◌, any, length, ltb, str_eq, if◌then◌else◌,
}
use archipelago_xl.Apwm.Semver.{Semver}
use archipelago_xl.Apwm.Maps as Versions
use archipelago_xl.Apwm.Keyed.{names, get}
use archipelago_xl.Apwm.Worlds.{
  WorldOrigin, VersionReq, disabled, latest, latest_supported, specific, Release, BaseOverride,
  WorldDef, World, Fallible, ok, fails, runs_on,
}
use archipelago_xl.Apwm.Manifests.{Index}
use archipelago_xl.Apwm.IndexSets.{IndexFile, IndexSet, bases, get_base, new_set}

pub data Severity : Type 0 where
  error warning : Severity

pub data Message (V Q : Type 0) : Type 0 where
  unknown_key : (key location : String) → Message V Q
  legacy_base_not_listed : V → Message V Q
  offered_by_older_lobbies : (version legacy_base : V) → Message V Q
  nothing_in_versions : Message V Q
  default_not_available : (version base : V) → Message V Q
  default_not_supported : (base : V) → Message V Q
  should_be_table : (version : String) → Message V Q
  several_keys : (version : String) → ℕ → Message V Q
  ignored_key : (key version : String) → Message V Q
  runs_nowhere : (version min max : V) → Message V Q
  changes_nothing : (version : V) → Message V Q
  only_in_releases : (version legacy_base : V) → Message V Q
  matches_no_base : Q → Message V Q

pub record Problem (V Q : Type 0) : Type 0 where
  pub severity : Severity
  pub file : String
  pub message : Message V Q

pub record Report (V Q : Type 0) : Type 0 where
  pub file : String
  pub problems : List (Problem V Q)

-- The parser of TOML files, which may fail, the tables among its values, and the paths.
pub record Toml : Type 1 where
  pub Value : Type 0
  pub as_table : Value → Option (List (String × Value))
  pub read_table : String → Fallible (List (String × Value))
  pub parent : String → Option String
  pub strip_prefix : String → String → Option String

abbrev pub index_keys : List String
index_keys =
    "archipelago_repo" ∷ "archipelago_version" ∷ "index_homepage" ∷ "index_dir" ∷ "bases" ∷ []

abbrev pub world_keys : List String
world_keys =
    "name" ∷ "display_name" ∷ "default_url" ∷ "default_version" ∷ "home" ∷ "versions" ∷ "releases"
    ∷ "disabled" ∷ "supported" ∷ "tags" ∷ "base" ∷ []

abbrev pub version_keys : List String
version_keys = "url" ∷ "local" ∷ []

abbrev pub release_keys : List String
release_keys = "min_ap_version" ∷ "max_ap_version" ∷ "url" ∷ "local" ∷ []

abbrev pub base_override_keys : List String
base_override_keys = "supported" ∷ "disabled" ∷ "default_version" ∷ []

module _ (v : Semver) (toml : Toml) where
  open v use {Version, Req, le}
  open toml use {Value, as_table}

  abbrev pub Reported : Type 0
  Reported = Report Version Req

  abbrev pub push : Severity → Message Version Req → Reported → Reported
  push severity message r = record r {
    problems =
        r.problems ++ (record { severity = severity; file = r.file; message = message } ∷ []);
  }

  abbrev pub push_if : Bool → Severity → Message Version Req → Reported → Reported
  push_if b severity message r = if b then push severity message r else r

  abbrev pub is_known : List String → String → Bool
  is_known known key = any (λ (k : String). str_eq k key) known

  abbrev pub unknown_keys : List (String × Value) → List String → String → Reported → Reported
  unknown_keys [] known location r = r
  unknown_keys ((key, _) ∷ table) known location r =
      unknown_keys table known location
        (push_if (not (is_known known key)) error (unknown_key key location) r)

  -- `raw.get(key).and_then(as_table)`
  abbrev pub table_at : String → List (String × Value) → Option (List (String × Value))
  table_at key raw = elim (get names key raw) [ none ↦ none | some value ↦ as_table value ]

  abbrev pub in_table :
      (List (String × Value) → Reported → Reported)
      → Option (List (String × Value))
      → Reported
      → Reported
  in_table lint none r = r
  in_table lint (some table) r = lint table r

  abbrev pub lint_bases : String → Version → Option (List (String × Value)) → Reported → Reported
  lint_bases legacy_text legacy_base none r = r
  lint_bases legacy_text legacy_base (some []) r = r
  lint_bases legacy_text legacy_base (some (b ∷ bs)) r =
      push_if (not (is_some (get names legacy_text (b ∷ bs)))) warning
        (legacy_base_not_listed legacy_base) r

  unfoldable pub lint_index_file :
      String → IndexSet Version Req → List (String × Value) → List (Problem Version Req)
  lint_index_file file s raw =
      (lint_bases (v.to_string s.legacy_base) s.legacy_base (table_at "bases" raw) (
        unknown_keys raw index_keys "of the index"
          (record { file = file; problems = [] }))).problems
