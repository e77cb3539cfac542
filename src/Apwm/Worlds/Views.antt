-- ===== src/Apwm/Worlds/Views.antt =====
-- Which releases the view of a world on a base has.
use archipelago_xl.Base.{
  ◌⊎◌, ◌≡◌, refl, sym, Bool, true, false, ◌&&◌, ◌||◌, Option, none, some, List, [], ◌∷◌, arith, inl,
  inr,
}
use archipelago_xl.Apwm.Semver.{Semver}
use archipelago_xl.Apwm.Maps.{contains, insert, contains-insert, contains-entry_or}
use archipelago_xl.Apwm.Worlds.{
  WorldOrigin, Release, BaseOverride, WorldDef, World, VersionReq, Fallible, ok, runs_on, origin,
  runs_in, kept_versions, add_release, add_releases, versions_on, world_if_any, overridden,
  override_for, for_base,
}

module _ (v : Semver) where
  open v use {Version, Req, eq}

  -- a listed version that its release, if it has one, lets run on the base
  abbrev pub is_listed :
      List (Version × Release Version) → Version → Version → List (Version × WorldOrigin) → Bool
  is_listed releases base u [] = false
  is_listed releases base u ((w, o) ∷ versions) =
      (eq w u && runs_in v releases base w) || is_listed releases base u versions

  -- a release that runs on the base
  abbrev pub is_released : Version → Version → List (Version × Release Version) → Bool
  is_released base u [] = false
  is_released base u ((w, r) ∷ releases) =
      (eq w u && runs_on v r base) || is_released base u releases

  contains-kept :
      (releases : List (Version × Release Version)) (base u : Version)
      (versions done : List (Version × WorldOrigin))
      → contains v u (kept_versions v releases base versions done)
        ≡ (is_listed releases base u versions || contains v u done)
  contains-kept releases base u [] done = refl
  contains-kept releases base u ((w, o) ∷ versions) done = ground (
    arith,
    contains-kept releases base u versions (insert v w o done),
    contains-kept releases base u versions done,
    contains-insert v u w o done,
  )

  contains-add_release :
      (u w : Version) (o : Option WorldOrigin) (done : List (Version × WorldOrigin))
      → contains v u (add_release v w o done) ≡ (eq w u || contains v u done)
  contains-add_release u w (some o) done = contains-insert v u w o done
  contains-add_release u w none done = contains-entry_or v u w WorldOrigin.default done

  contains-add_releases :
      (base u : Version) (releases : List (Version × Release Version))
      (done : List (Version × WorldOrigin))
      → contains v u (add_releases v base releases done)
        ≡ (is_released base u releases || contains v u done)
  contains-add_releases base u [] done = refl
  contains-add_releases base u ((w, r) ∷ releases) done = ground (
    arith,
    contains-add_releases base u releases (add_release v w (origin v r) done),
    contains-add_releases base u releases done,
    contains-add_release u w (origin v r) done,
  )

  -- the versions of a world that a base has
  abbrev pub is_offered : WorldDef Version Req → Version → Bool → Version → Bool
  is_offered w base supported_here u =
      is_listed w.releases base u w.versions
      || is_released base u w.releases
      || (supported_here && eq base u)

  contains-versions_on :
      (w : WorldDef Version Req) (base : Version) (supported_here : Bool) (u : Version)
      → contains v u (versions_on v w base supported_here) ≡ is_offered w base supported_here u
  contains-versions_on w base true u = ground (
    arith,
    contains-insert v u base WorldOrigin.supported
        (add_releases v base w.releases (kept_versions v w.releases base w.versions [])),
    contains-add_releases base u w.releases (kept_versions v w.releases base w.versions []),
    contains-kept w.releases base u w.versions [],
  )
  contains-versions_on w base false u = ground (
    arith,
    contains-add_releases base u w.releases (kept_versions v w.releases base w.versions []),
    contains-kept w.releases base u w.versions [],
  )

  abbrev pub Views :
      WorldDef Version Req → Version → Bool → Fallible (Option (World Version)) → Type 0
  Views w base supported_here out =
      ((out ≡ ok none) × ((u : Version) → is_offered w base supported_here u ≡ false))
      ⊎ ((x : World Version) × (out ≡ ok (some x))
          × (x.name ≡ w.name)
          × ((u : Version) → contains v u x.versions ≡ is_offered w base supported_here u))

  any_world-Views :
      (w : WorldDef Version Req) (base : Version) (d s : Bool) (req : VersionReq Version)
      (versions : List (Version × WorldOrigin))
      → ((u : Version) → contains v u versions ≡ is_offered w base s u)
      → Views w base s (ok (world_if_any v w d s req versions))
  any_world-Views w base d s req [] h = inl (refl, λ u. sym (h u))
  any_world-Views w base d s req (e ∷ versions) h = inr (_, refl, refl, h)

  enabled :
      (w : WorldDef Version Req) (base : Version) (o : Option (BaseOverride Version))
      → override_for v w base ≡ ok o
      → overridden v o (λ o. o.disabled) w.disabled ≡ false
      → for_base v w base
        ≡ ok (
            world_if_any v w false
              (overridden v o (λ o. o.supported) w.supported)
              (overridden v o (λ o. o.default_version) w.default_version)
              (versions_on v w base (overridden v o (λ o. o.supported) w.supported)))
  unfolding for_base
  enabled w base o found on = ground arith

  -- A world that is not disabled on a base, by its file or by the one override that matches the
  -- base, is seen there just if the base has a version of it. The versions of the view are: the
  -- listed ones whose release, if they have one, runs on the base; the releases that run on it;
  -- and the base's own version, where the world is supported.
  pub for_base-Views :
      (w : WorldDef Version Req) (base : Version) (o : Option (BaseOverride Version))
      → override_for v w base ≡ ok o
      → overridden v o (λ o. o.disabled) w.disabled ≡ false
      → Views w base (overridden v o (λ o. o.supported) w.supported) (for_base v w base)
  for_base-Views w base o found on =
      let supported_here = overridden v o (λ o. o.supported) w.supported in
      rw (enabled w base o found on) (
        any_world-Views w base false supported_here
          (overridden v o (λ o. o.default_version) w.default_version)
          (versions_on v w base supported_here) (contains-versions_on w base supported_here))
