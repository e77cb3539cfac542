-- ===== src/Apwm/Manifests/Updating.antt =====
-- Updating a manifest with an index.
use archipelago_xl.Base.{
  ◌≡◌, refl, ap, ◌∙◌, String, Bool, true, false, ◌||◌, some, List, [], ◌∷◌, arith, str_eq, eq_refl,
  eq_iff,
}
use archipelago_xl.Apwm.Semver.{Semver}
use archipelago_xl.Apwm.Worlds.{VersionReq, disabled, latest, latest_supported, specific, World}
use archipelago_xl.Apwm.Manifests.{
  Manifest, Index, get_named, get_version_req, requirements, updated_with_index, resolve_each,
  resolve_with, resolve_one, parse_version_req, version_req_to_string,
}

abbrev pub is_named : {A : Type 0} → String → List (String × A) → Bool
is_named k [] = false
is_named k ((j, a) ∷ m) = str_eq j k || is_named k m

module _ (v : Semver) where
  open v use {Version}

  get_named-requirements :
      (m : Manifest Version) (index : Index Version) (name : String)
      (worlds : List (String × World Version))
      → is_named name worlds ≡ true
      → get_named name (requirements v m index worlds) ≡ some (get_version_req v m name index)
  get_named-requirements m index name [] h = ground arith
  get_named-requirements m index name ((j, w) ∷ worlds) h =
      ground (arith, eq_iff j name, get_named-requirements m index name worlds)

  pub stated_req :
      (m : Manifest Version) (index : Index Version) (name : String) (req : VersionReq Version)
      → get_named name m.worlds ≡ some req
      → get_version_req v m name index ≡ req
  unfolding get_version_req
  stated_req m index name req h = rw h refl

  same_req :
      (m : Manifest Version) (index : Index Version) (name : String)
      → is_named name index.worlds ≡ true
      → get_version_req v (updated_with_index v m index) name index ≡ get_version_req v m name index
  unfolding updated_with_index
  same_req m index name h =
      stated_req (updated_with_index v m index) index name (get_version_req v m name index)
        (get_named-requirements m index name index.worlds h)

  -- Two manifests that ask for the same version of every world of a list resolve them alike.
  pub resolve_each-agrees :
      (k m : Manifest Version) (index : Index Version) (worlds : List (String × World Version))
      → ((name : String)
          → is_named name worlds ≡ true
          → get_version_req v k name index ≡ get_version_req v m name index)
      → resolve_each v k index worlds ≡ resolve_each v m index worlds
  resolve_each-agrees k m index [] h = refl
  resolve_each-agrees k m index ((name, w) ∷ worlds) h =
      ap (λ req. resolve_one v name w req (resolve_each v k index worlds))
        (h name (ground (arith, eq_refl name)))
      ∙ ap (resolve_one v name w (get_version_req v m name index))
          (resolve_each-agrees k m index worlds (λ n i. h n (ground arith)))

  -- Writing out the requirement of every world of an index does not change what the manifest
  -- resolves to with that index, the worlds it leaves out and the errors included, and each of
  -- these worlds has the same requirement in both manifests.
  pub updated_with_index-resolves :
      (m : Manifest Version) (index : Index Version)
      → (resolve_with v (updated_with_index v m index) index ≡ resolve_with v m index)
        × ((name : String)
            → is_named name index.worlds ≡ true
            → get_version_req v (updated_with_index v m index) name index
              ≡ get_version_req v m name index)
  unfolding resolve_with
  updated_with_index-resolves m index = (
    resolve_each-agrees (updated_with_index v m index) m index index.worlds (same_req m index),
    same_req m index,
  )

  -- A requirement that is written out as a text reads back as itself.
  pub parse_version_req-to_string :
      (req : VersionReq Version) → parse_version_req v (version_req_to_string v req) ≡ some req
  unfolding parse_version_req version_req_to_string
  parse_version_req-to_string disabled = refl
  parse_version_req-to_string latest = refl
  parse_version_req-to_string latest_supported = refl
  parse_version_req-to_string (specific version) = ground (
    arith,
    v.parse-to_string version,
    v.parse-word.0,
    v.parse-word.1,
    v.parse-word.2,
    eq_iff (v.to_string version) "Latest",
    eq_iff (v.to_string version) "Latest Supported",
    eq_iff (v.to_string version) "Disabled",
  )
