-- ===== src/Lobby/ManifestEditor.antt =====
-- lobby/src/views/manifest_editor.rs: the form in which a room's manifest is edited.
pub mod Forms
pub mod Outcomes
pub mod Shown
pub mod Editing
use archipelago_xl.Base.{
  ◌≡◌, String, Bool, true, false, Option, none, some, is_some, List, [], ◌∷◌, str_eq, if◌then◌else◌,
}
use archipelago_xl.Apwm.Semver.{Semver}
use archipelago_xl.Apwm.Keyed.{names, insert, str_le}
use archipelago_xl.Apwm.Worlds.{
  WorldOrigin, is_supported, VersionReq, disabled, latest, latest_supported, specific, World,
}
use archipelago_xl.Apwm.Manifests.{
  NewApworldPolicy, enable, disable, Manifest, Index, ResolveError, get_named, parse_version_req,
  get_version_req, is_enabled, resolve_with,
}

-- The hash maps are lists of entries with the names as keys.
pub record ManifestForm : Type 0 where
  pub new_apworld_policy : String
  pub enabled : List (String × Bool)
  pub version : List (String × String)

pub record ManifestFormRow (V : Type 0) : Type 0 where
  pub apworld_name : String
  pub world : World V
  pub enabled : Bool
  pub current_version : VersionReq V
  pub valid_versions : List (VersionReq V)

pub data FormError : Type 0 where
  no_version unreadable_version unresolved : FormError

pub data Formed (V : Type 0) : Type 0 where
  formed : Manifest V → Formed V
  rejected : FormError → Formed V

module _ (v : Semver) where
  open v use {Version}

  abbrev pub option_of : Version × WorldOrigin → VersionReq Version
  option_of (version, origin) = if is_supported origin then latest_supported else specific version

  abbrev pub options_of : List (Version × WorldOrigin) → List (VersionReq Version)
  options_of [] = []
  options_of (e ∷ versions) = option_of e ∷ options_of versions

  -- `none` is the panic of the `expect`
  abbrev pub valid_options_for_apworld : Index Version → String → Option (List (VersionReq Version))
  valid_options_for_apworld index apworld_name = elim (get_named apworld_name index.worlds) [
    | none ↦ none
    | some w ↦ some (latest ∷ options_of w.versions)
  ]

  abbrev pub row_with :
      Index Version
      → Manifest Version
      → String
      → World Version
      → Option (List (VersionReq Version))
      → Option (ManifestFormRow Version)
  row_with index m apworld_name w none = none
  row_with index m apworld_name w (some options) = some (record {
    apworld_name = apworld_name;
    world = w;
    enabled = is_enabled v m apworld_name;
    current_version = get_version_req v m apworld_name index;
    valid_versions = options;
  })

  abbrev pub push_row :
      Option (ManifestFormRow Version)
      → Option (List (ManifestFormRow Version))
      → Option (List (ManifestFormRow Version))
  push_row none rest = none
  push_row (some row) none = none
  push_row (some row) (some rest) = some (row ∷ rest)

  abbrev pub rows_of :
      Index Version
      → Manifest Version
      → List (String × World Version)
      → Option (List (ManifestFormRow Version))
  rows_of index m [] = some []
  rows_of index m ((name, w) ∷ worlds) =
      push_row (row_with index m name w (valid_options_for_apworld index name))
        (rows_of index m worlds)

  -- the stable `sort_by_key`, by the worlds' display names
  abbrev pub put_row :
      ManifestFormRow Version → List (ManifestFormRow Version) → List (ManifestFormRow Version)
  put_row row [] = row ∷ []
  put_row row (r ∷ rows) =
      let rest = put_row row rows in
      if str_le (row.world).display_name (r.world).display_name then row ∷ r ∷ rows else r ∷ rest

  abbrev pub sort_rows : List (ManifestFormRow Version) → List (ManifestFormRow Version)
  sort_rows [] = []
  sort_rows (row ∷ rows) = put_row row (sort_rows rows)

  abbrev pub sorted :
      Option (List (ManifestFormRow Version)) → Option (List (ManifestFormRow Version))
  sorted none = none
  sorted (some rows) = some (sort_rows rows)

  unfoldable pub rows : Index Version → Manifest Version → Option (List (ManifestFormRow Version))
  rows index m = sorted (rows_of index m index.worlds)

  -- `Manifest::add_version_req`
  unfoldable pub add_version_req : String → VersionReq Version → Manifest Version → Manifest Version
  add_version_req apworld_name req m = record m { worlds = insert names apworld_name req m.worlds }

  abbrev pub policy_of : String → NewApworldPolicy
  policy_of text = if str_eq text "disable" then disable else enable

  abbrev pub with_req : String → Manifest Version → Option (VersionReq Version) → Formed Version
  with_req name m none = rejected unreadable_version
  with_req name m (some req) = formed (add_version_req name req m)

  abbrev pub with_text : String → Manifest Version → Option String → Formed Version
  with_text name m none = rejected no_version
  with_text name m (some text) = with_req name m (parse_version_req v text)

  -- one round of the loop over the worlds
  unfoldable pub set_world : ManifestForm → String → Manifest Version → Formed Version
  set_world form name m =
      if is_some (get_named name form.enabled)
      then with_text name m (get_named name form.version)
      else formed (add_version_req name disabled m)

  abbrev pub and_then : Formed Version → (Manifest Version → Formed Version) → Formed Version
  and_then (formed m) f = f m
  and_then (rejected e) f = rejected e

  abbrev pub set_worlds :
      ManifestForm → List (String × World Version) → Manifest Version → Formed Version
  set_worlds form [] m = formed m
  set_worlds form ((name, w) ∷ worlds) m = and_then (set_world form name m) (set_worlds form worlds)

  abbrev pub unless_errors : List (ResolveError Version) → Manifest Version → Formed Version
  unless_errors [] m = formed m
  unless_errors (e ∷ errors) m = rejected unresolved

  abbrev pub new_manifest : ManifestForm → Manifest Version
  new_manifest form = record { worlds = []; new_apworld_policy = policy_of form.new_apworld_policy }

  unfoldable pub manifest_from_form : ManifestForm → Index Version → Formed Version
  manifest_from_form form index =
      and_then (set_worlds form index.worlds (new_manifest form))
        (λ m. unless_errors ((resolve_with v m index).1) m)
