-- ===== src/Apwm/Freezing.antt =====
-- apwm/src/manifest.rs: manifests made from an index, and `freeze`.
pub mod Laws
use archipelago_xl.Base.{
  ◌≡◌, String, Bool, true, false, Option, none, some, List, [], ◌∷◌, str_eq, if◌then◌else◌,
}
use archipelago_xl.Apwm.Semver.{Semver}
use archipelago_xl.Apwm.Worlds.{
  WorldOrigin, VersionReq, disabled, latest, latest_supported, specific, World, get_latest_release,
}
use archipelago_xl.Apwm.Manifests.{Manifest, Index, NewApworldPolicy, enable, get_named}

abbrev pub cons_to : {A : Type 0} → A → Option (List A) → Option (List A)
cons_to a none = none
cons_to a (some l) = some (a ∷ l)

module _ (v : Semver) where
  open v use {Version}

  abbrev enabled_with : Option (List (String × VersionReq Version)) → Option (Manifest Version)
  enabled_with none = none
  enabled_with (some worlds) = some (record { worlds = worlds; new_apworld_policy = enable })

  abbrev with_default :
      Option (Version × WorldOrigin)
      → String
      → VersionReq Version
      → Option (List (String × VersionReq Version))
      → Option (List (String × VersionReq Version))
  with_default none name req rest = none
  with_default (some release) name req rest = cons_to (name, req) rest

  abbrev each_with :
      (World Version → VersionReq Version)
      → List (String × World Version)
      → Option (List (String × VersionReq Version))
  each_with req [] = some []
  each_with req ((name, w) ∷ worlds) =
      with_default (get_latest_release v w) name (req w) (each_with req worlds)

  -- `none` is the error for a world without a release
  unfoldable pub from_index_with_latest_versions : Index Version → Option (Manifest Version)
  from_index_with_latest_versions index = enabled_with (each_with (λ w. latest) index.worlds)

  unfoldable pub from_index_with_default_versions : Index Version → Option (Manifest Version)
  from_index_with_default_versions index =
      enabled_with (each_with (λ w. w.default_version) index.worlds)

  -- `none` is the panic of the `unwrap`
  abbrev pub pinned : Option (Version × WorldOrigin) → Option (VersionReq Version)
  pinned none = none
  pinned (some (version, o)) = some (specific version)

  abbrev pub freeze_req : Option (World Version) → VersionReq Version → Option (VersionReq Version)
  freeze_req (some w) latest = pinned (get_latest_release v w)
  freeze_req none latest = some latest
  freeze_req w latest_supported = some latest_supported
  freeze_req w (specific version) = some (specific version)
  freeze_req w disabled = some disabled

  abbrev pub cons_req :
      String
      → Option (VersionReq Version)
      → Option (List (String × VersionReq Version))
      → Option (List (String × VersionReq Version))
  cons_req name none rest = none
  cons_req name (some req) rest = cons_to (name, req) rest

  abbrev pub freeze_each :
      Index Version
      → List (String × VersionReq Version)
      → Option (List (String × VersionReq Version))
  freeze_each index [] = some []
  freeze_each index ((name, req) ∷ worlds) =
      cons_req name (freeze_req (get_named name index.worlds) req) (freeze_each index worlds)

  abbrev pub with_worlds :
      Manifest Version → Option (List (String × VersionReq Version)) → Option (Manifest Version)
  with_worlds m none = none
  with_worlds m (some worlds) = some (record m { worlds = worlds })

  unfoldable pub freeze : Manifest Version → Index Version → Option (Manifest Version)
  freeze m index = with_worlds m (freeze_each index m.worlds)
