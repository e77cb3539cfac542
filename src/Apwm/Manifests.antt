-- ===== src/Apwm/Manifests.antt =====
-- apwm/src/manifest.rs: which version of a world a room's manifest gives.
pub mod Resolving
pub mod Updating
use archipelago_xl.Base.{
  ◌≡◌, String, Bool, true, false, Option, none, some, unwrap_or, List, [], ◌∷◌, str_eq,
  if◌then◌else◌,
}
use archipelago_xl.Apwm.Semver.{Semver}
use archipelago_xl.Apwm.Maps.{get, contains}
use archipelago_xl.Apwm.Worlds.{
  WorldOrigin, VersionReq, disabled, latest, latest_supported, specific, World, get_latest_release,
  get_latest_supported_release, get_version,
}

pub data NewApworldPolicy : Type 0 where
  enable disable : NewApworldPolicy

pub record Manifest (V : Type 0) : Type 0 where
  pub worlds : List (String × VersionReq V)
  pub new_apworld_policy : NewApworldPolicy

-- The fields of an index that a manifest reads.
pub record Index (V : Type 0) : Type 0 where
  pub archipelago_version : V
  pub worlds : List (String × World V)

pub data ResolveError (V : Type 0) : Type 0 where
  world_not_found : String → ResolveError V
  version_not_found : String → VersionReq V → ResolveError V
  world_disabled : String → ResolveError V

pub data Resolved (V A : Type 0) : Type 0 where
  ok : A → Resolved V A
  err : ResolveError V → Resolved V A

-- `BTreeMap`s whose keys are texts: their entries in the order of the keys
abbrev pub get_named : {A : Type 0} → String → List (String × A) → Option A
get_named k [] = none
get_named k ((j, a) ∷ m) = let rest = get_named k m in if str_eq j k then some a else rest

module _ (v : Semver) where
  open v use {Version}

  unfoldable pub parse_version_req : String → Option (VersionReq Version)
  parse_version_req s =
      if str_eq s "Latest"
      then some latest
      else if str_eq s "Latest Supported"
      then some latest_supported
      else if str_eq s "Disabled"
      then some disabled
      else of_version (v.parse s)
    where
      of_version : Option Version → Option (VersionReq Version)
      of_version none = none
      of_version (some version) = some (specific version)

  unfoldable pub version_req_to_string : VersionReq Version → String
  version_req_to_string latest = "Latest"
  version_req_to_string latest_supported = "Latest Supported"
  version_req_to_string (specific version) = v.to_string version
  version_req_to_string disabled = "Disabled"

  -- `Index::get_world_by_name`: by the name of the game
  unfoldable pub get_world_by_name : List (String × World Version) → String → Option (World Version)
  get_world_by_name [] game_name = none
  get_world_by_name ((_, w) ∷ worlds) game_name =
      let rest = get_world_by_name worlds game_name in
      if str_eq w.name game_name then some w else rest

  abbrev pub default_version_of : Option (World Version) → VersionReq Version
  default_version_of none = latest
  default_version_of (some w) = w.default_version

  abbrev pub new_world_req : NewApworldPolicy → Option (World Version) → VersionReq Version
  new_world_req enable w = default_version_of w
  new_world_req disable w = disabled

  unfoldable pub get_version_req : Manifest Version → String → Index Version → VersionReq Version
  get_version_req m apworld_name index =
      unwrap_or (get_named apworld_name m.worlds)
        (new_world_req m.new_apworld_policy (get_world_by_name index.worlds apworld_name))

  abbrev pub is_disabled : VersionReq Version → Bool
  is_disabled disabled = true
  is_disabled _ = false

  abbrev pub enabled_or : Bool → Option (VersionReq Version) → Bool
  enabled_or fallback none = fallback
  enabled_or fallback (some req) = if is_disabled req then false else true

  unfoldable pub is_enabled : Manifest Version → String → Bool
  is_enabled m apworld_name = elim m.new_apworld_policy [
    | enable ↦ enabled_or true (get_named apworld_name m.worlds)
    | disable ↦ enabled_or false (get_named apworld_name m.worlds)
  ]

  abbrev pub version_of : Version → Option WorldOrigin → Option Version
  version_of version none = none
  version_of version (some o) = some version

  abbrev pub first_of : Option (Version × WorldOrigin) → Option Version
  first_of none = none
  first_of (some (version, o)) = some version

  abbrev pub or_latest : World Version → Option Version → Option Version
  or_latest w none = first_of (get_latest_release v w)
  or_latest w (some version) = some version

  -- what `Latest` stands for in a world: its default version
  abbrev pub by_default : World Version → VersionReq Version → Option Version
  by_default w latest = first_of (get_latest_release v w)
  by_default w latest_supported = first_of (get_latest_supported_release v w)
  by_default w (specific version) = version_of version (get_version v w version)
  by_default w disabled = none

  abbrev pub found_or :
      World Version
      → VersionReq Version
      → Option Version
      → Resolved Version (World Version × Version)
  found_or w req none = err (version_not_found w.name req)
  found_or w req (some version) = ok (w, version)

  unfoldable pub resolve_world_version :
      World Version → VersionReq Version → Resolved Version (World Version × Version)
  resolve_world_version w latest_supported =
      found_or w latest_supported (first_of (get_latest_supported_release v w))
  resolve_world_version w latest = found_or w w.default_version (by_default w w.default_version)
  resolve_world_version w (specific version) =
      found_or w (specific version) (or_latest w (version_of version (get_version v w version)))
  resolve_world_version w disabled = err (world_disabled w.display_name)

  abbrev pub find_game : String → List (String × World Version) → Option (String × World Version)
  find_game game_name [] = none
  find_game game_name ((apworld_name, w) ∷ worlds) =
      let rest = find_game game_name worlds in
      if str_eq w.name game_name then some (apworld_name, w) else rest

  unfoldable pub resolve_from_game_name :
      Manifest Version → String → Index Version → Resolved Version (World Version × Version)
  resolve_from_game_name m game_name index = elim (find_game game_name index.worlds) [
    | none ↦ err (world_not_found game_name)
    | some (apworld_name, w) ↦ resolve_world_version w (get_version_req m apworld_name index)
  ]

  -- the two results of `resolve_with`
  abbrev pub Resolution : Type 0
  Resolution = List (String × (World Version × Version)) × List (ResolveError Version)

  abbrev pub add_resolved :
      String → Resolved Version (World Version × Version) → Resolution → Resolution
  add_resolved name (ok r) (found, errors) = ((name, r) ∷ found, errors)
  add_resolved name (err e) (found, errors) = (found, e ∷ errors)

  abbrev pub resolve_one : String → World Version → VersionReq Version → Resolution → Resolution
  resolve_one name w req rest =
      if is_disabled req then rest else add_resolved name (resolve_world_version w req) rest

  abbrev pub resolve_each :
      Manifest Version → Index Version → List (String × World Version) → Resolution
  resolve_each m index [] = ([], [])
  resolve_each m index ((name, w) ∷ worlds) =
      resolve_one name w (get_version_req m name index) (resolve_each m index worlds)

  unfoldable pub resolve_with : Manifest Version → Index Version → Resolution
  resolve_with m index = resolve_each m index index.worlds

  abbrev pub requirements :
      Manifest Version
      → Index Version
      → List (String × World Version)
      → List (String × VersionReq Version)
  requirements m index [] = []
  requirements m index ((name, w) ∷ worlds) =
      (name, get_version_req m name index) ∷ requirements m index worlds

  unfoldable pub updated_with_index : Manifest Version → Index Version → Manifest Version
  updated_with_index m index = record {
    worlds = requirements m index index.worlds;
    new_apworld_policy = m.new_apworld_policy;
  }
