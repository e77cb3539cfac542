-- ===== src/Apwm/Worlds.antt =====
-- apwm/src/index/world.rs: releases, worlds as the index has them and as one base sees them.
pub mod Views
use archipelago_xl.Base.{
  ◌≡◌, refl, ◌⊎◌, inl, inr, String, Bool, true, false, ◌&&◌, Option, none, some, unwrap_or, List,
  [], ◌∷◌, arith, if◌then◌else◌,
}
use archipelago_xl.Apwm.Semver.{Semver}
use archipelago_xl.Apwm.Maps.{get, contains, insert, entry_or, max_by_key}

pub data WorldOrigin : Type 0 where
  url local : String → WorldOrigin
  supported default : WorldOrigin

abbrev pub is_supported : WorldOrigin → Bool
is_supported supported = true
is_supported _ = false

pub data WorldTag : Type 0 where
  after_dark : WorldTag

pub data VersionReq (V : Type 0) : Type 0 where
  disabled latest latest_supported : VersionReq V
  specific : V → VersionReq V

pub record Release (V : Type 0) : Type 0 where
  pub min_ap_version : Option V
  pub max_ap_version : Option V
  pub url : Option String
  pub local : Option String

pub record BaseOverride (V : Type 0) : Type 0 where
  pub supported : Option Bool
  pub disabled : Option Bool
  pub default_version : Option (VersionReq V)

-- A world file; the tables that are read before the overrides are parsed are left out.
pub record WorldDef (V Q : Type 0) : Type 0 where
  pub path : String
  pub name : String
  pub display_name : String
  pub default_url : Option String
  pub default_version : VersionReq V
  pub home : Option String
  pub versions : List (V × WorldOrigin)
  pub releases : List (V × Release V)
  pub disabled : Bool
  pub supported : Bool
  pub tags : List WorldTag
  pub base_overrides : List (Q × BaseOverride V)

pub record World (V : Type 0) : Type 0 where
  pub path : String
  pub name : String
  pub display_name : String
  pub default_url : Option String
  pub default_version : VersionReq V
  pub home : Option String
  pub versions : List (V × WorldOrigin)
  pub disabled : Bool
  pub supported : Bool
  pub tags : List WorldTag

-- an operation of the index that may end in an error, whose text is left out
pub data Fallible {ℓ} (A : Type ℓ) : Type ℓ where
  ok : A → Fallible A
  fails : Fallible A

pub Fallible-cases {ℓ} : {A : Type ℓ} (out : Fallible A) → (out ≡ fails) ⊎ ((a : A) × (out ≡ ok a))
Fallible-cases fails = inl refl
Fallible-cases (ok a) = inr (a, refl)

pub ok-injective {ℓ} : {A : Type ℓ} (a b : A) → ok a ≡ ok b → a ≡ b
ok-injective a b e = ground arith

module _ (v : Semver) where
  open v use {Version, Req, le}

  abbrev pub none_or : {A : Type 0} → Option A → (A → Bool) → Bool
  none_or none f = true
  none_or (some a) f = f a

  unfoldable pub runs_on : Release Version → Version → Bool
  runs_on r base =
      none_or r.min_ap_version (λ min. le min base) && none_or r.max_ap_version (λ max. le base max)

  abbrev origin_or : Option String → Option String → Option WorldOrigin
  origin_or (some u) l = some (url u)
  origin_or none (some l) = some (local l)
  origin_or none none = none

  unfoldable pub origin : Release Version → Option WorldOrigin
  origin r = origin_or r.url r.local

  abbrev matching : Version → List (Req × BaseOverride Version) → List (BaseOverride Version)
  matching base [] = []
  matching base ((requirement, o) ∷ os) =
      let rest = matching base os in if v.matches requirement base then o ∷ rest else rest

  -- the first override that matches, if no second one does
  abbrev only : List (BaseOverride Version) → Fallible (Option (BaseOverride Version))
  only [] = ok none
  only (o ∷ []) = ok (some o)
  only (o ∷ o' ∷ os) = fails

  unfoldable pub override_for :
      WorldDef Version Req → Version → Fallible (Option (BaseOverride Version))
  override_for w base = only (matching base w.base_overrides)

  -- what an override gives, if there is one
  abbrev pub overridden :
      {A : Type 0} → Option (BaseOverride Version) → (BaseOverride Version → Option A) → A → A
  overridden none field fallback = fallback
  overridden (some o) field fallback = unwrap_or (field o) fallback

  abbrev pub runs_in : List (Version × Release Version) → Version → Version → Bool
  runs_in releases base version = none_or (get v version releases) (λ r. runs_on r base)

  -- the loop over `[versions]`
  abbrev pub kept_versions :
      List (Version × Release Version)
      → Version
      → List (Version × WorldOrigin)
      → List (Version × WorldOrigin)
      → List (Version × WorldOrigin)
  kept_versions releases base [] done = done
  kept_versions releases base ((version, o) ∷ versions) done =
      kept_versions releases base versions
        (if runs_in releases base version then insert v version o done else done)

  abbrev pub add_release :
      Version → Option WorldOrigin → List (Version × WorldOrigin) → List (Version × WorldOrigin)
  add_release version (some o) done = insert v version o done
  add_release version none done = entry_or v version default done

  -- the loop over `[releases]`
  abbrev pub add_releases :
      Version
      → List (Version × Release Version)
      → List (Version × WorldOrigin)
      → List (Version × WorldOrigin)
  add_releases base [] done = done
  add_releases base ((version, r) ∷ releases) done =
      add_releases base releases
        (if runs_on r base then add_release version (origin r) done else done)

  abbrev pub add_supported :
      Bool → Version → List (Version × WorldOrigin) → List (Version × WorldOrigin)
  add_supported true base done = insert v base supported done
  add_supported false base done = done

  abbrev pub versions_on : WorldDef Version Req → Version → Bool → List (Version × WorldOrigin)
  versions_on w base supported_here =
      add_supported supported_here base
        (add_releases base w.releases (kept_versions w.releases base w.versions []))

  -- `None` if no release is left
  abbrev pub world_if_any :
      WorldDef Version Req
      → (disabled_here supported_here : Bool) → VersionReq Version
      → List (Version × WorldOrigin)
      → Option (World Version)
  world_if_any w disabled_here supported_here default_version [] = none
  world_if_any w disabled_here supported_here default_version (e ∷ versions) = some (record {
    path = w.path;
    name = w.name;
    display_name = w.display_name;
    default_url = w.default_url;
    default_version = default_version;
    home = w.home;
    versions = e ∷ versions;
    disabled = disabled_here;
    supported = supported_here;
    tags = w.tags;
  })

  abbrev pub view_with :
      WorldDef Version Req
      → Version
      → Fallible (Option (BaseOverride Version))
      → Fallible (Option (World Version))
  view_with w base fails = fails
  view_with w base (ok o) =
      let disabled_here = overridden o (λ o. o.disabled) w.disabled in
      let supported_here = overridden o (λ o. o.supported) w.supported in
      ok (
        if disabled_here
        then none
        else world_if_any w disabled_here supported_here
            (overridden o (λ o. o.default_version) w.default_version)
            (versions_on w base supported_here))

  unfoldable pub for_base : WorldDef Version Req → Version → Fallible (Option (World Version))
  for_base w base = view_with w base (override_for w base)

  abbrev pub get_latest_release : World Version → Option (Version × WorldOrigin)
  get_latest_release w = max_by_key v w.versions

  abbrev pub find_supported : List (Version × WorldOrigin) → Option (Version × WorldOrigin)
  find_supported [] = none
  find_supported (e ∷ m) =
      let rest = find_supported m in if is_supported (e.1) then some e else rest

  abbrev pub get_latest_supported_release : World Version → Option (Version × WorldOrigin)
  get_latest_supported_release w = find_supported w.versions

  abbrev pub get_version : World Version → Version → Option WorldOrigin
  get_version w version = get v version w.versions
