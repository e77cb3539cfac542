-- ===== src/Apwm/Freezing/Laws.antt =====
-- What freezing a manifest does to what it resolves to.
use archipelago_xl.Base.{
  ◌≡◌, refl, ap, sym, ◌∙◌, subst, String, true, Option, none, some, is_some, unwrap_or, List, [],
  ◌∷◌, eq_iff, arith, Option-cases, inl, inr,
}
use archipelago_xl.Apwm.Semver.{Semver}
use archipelago_xl.Apwm.Maps.{contains-get, max_by_key-contained}
use archipelago_xl.Apwm.Worlds.{
  WorldOrigin, VersionReq, disabled, latest, latest_supported, specific, World, get_latest_release,
  get_version,
}
use archipelago_xl.Apwm.Manifests.{
  Manifest, Index, ok, get_named, get_version_req, resolve_world_version,
}
use archipelago_xl.Apwm.Manifests.Updating.{stated_req}
use archipelago_xl.Apwm.Freezing.{pinned, freeze_req, cons_req, freeze_each, with_worlds, freeze}

module _ (v : Semver) where
  open v use {Version}

  abbrev IsFrozen :
      String → World Version → VersionReq Version → List (String × VersionReq Version) → Type 0
  IsFrozen name w req worlds =
      (get_named name worlds ≡ freeze_req v (some w) req)
      × (is_some (freeze_req v (some w) req) ≡ true)

  -- one entry, whose frozen requirement and the frozen rest are given
  entry-IsFrozen :
      (index : Index Version) (name j : String) (w : World Version) (req r : VersionReq Version)
      (worlds frozen : List (String × VersionReq Version)) (o : Option (VersionReq Version))
      (rest : Option (List (String × VersionReq Version)))
      → get_named name index.worlds ≡ some w
      → freeze_req v (get_named j index.worlds) r ≡ o
      → cons_req v j o rest ≡ some frozen
      → get_named name ((j, r) ∷ worlds) ≡ some req
      → ((fs : List (String × VersionReq Version))
          → rest ≡ some fs
          → get_named name worlds ≡ some req
          → IsFrozen name w req fs)
      → IsFrozen name w req frozen
  entry-IsFrozen index name j w req r worlds frozen none rest i f e n h = ground arith
  entry-IsFrozen index name j w req r worlds frozen (some r') none i f e n h = ground arith
  entry-IsFrozen index name j w req r worlds frozen (some r') (some fs) i f e n h =
      subst (IsFrozen name w req) (ap (λ o. unwrap_or o []) e)
        (ground (arith, h fs refl, eq_iff j name, ap (λ k. get_named k index.worlds)))

  named-IsFrozen :
      (index : Index Version) (name : String) (w : World Version) (req : VersionReq Version)
      (worlds frozen : List (String × VersionReq Version))
      → get_named name index.worlds ≡ some w
      → freeze_each v index worlds ≡ some frozen
      → get_named name worlds ≡ some req
      → IsFrozen name w req frozen
  named-IsFrozen index name w req [] frozen i e n = ground arith
  named-IsFrozen index name w req ((j, r) ∷ worlds) frozen i e n =
      entry-IsFrozen index name j w req r worlds frozen (freeze_req v (get_named j index.worlds) r)
        (freeze_each v index worlds) i refl e n
        (λ fs e' n'. named-IsFrozen index name w req worlds fs i e' n')

  pinned_resolves :
      (w : World Version) (u : Version) (g : Option WorldOrigin)
      → get_version v w u ≡ g
      → is_some g ≡ true
      → resolve_world_version v w (specific u) ≡ ok (w, u)
  unfolding resolve_world_version
  pinned_resolves w u none e h = ground arith
  pinned_resolves w u (some o) e h = rw e refl

  latest_resolves :
      (w : World Version) (u : Version) (o : WorldOrigin)
      → w.default_version ≡ latest
      → get_latest_release v w ≡ some (u, o)
      → resolve_world_version v w latest ≡ ok (w, u)
  unfolding resolve_world_version
  latest_resolves w u o d h = rw d (rw h refl)

  release_is_some :
      (w : World Version) (u : Version) (o : WorldOrigin)
      → get_latest_release v w ≡ some (u, o)
      → is_some (get_version v w u) ≡ true
  release_is_some w u o h =
      sym (contains-get v u w.versions) ∙ max_by_key-contained v w.versions (u, o) h

  req_resolves :
      (w : World Version) (req req' : VersionReq Version) (release : Option (Version × WorldOrigin))
      → w.default_version ≡ latest
      → get_latest_release v w ≡ release
      → freeze_req v (some w) req ≡ some req'
      → resolve_world_version v w req' ≡ resolve_world_version v w req
  req_resolves w latest req' none d h f = ground (arith, ap (pinned v) h)
  req_resolves w latest req' (some (u, o)) d h f =
      ap (λ r. resolve_world_version v w (unwrap_or r latest)) (sym f ∙ ap (pinned v) h)
      ∙ pinned_resolves w u (get_version v w u) refl (release_is_some w u o h)
      ∙ sym (latest_resolves w u o d h)
  req_resolves w latest_supported req' release d h f =
      ap (λ r. resolve_world_version v w (unwrap_or r latest)) (sym f)
  req_resolves w (specific u) req' release d h f =
      ap (λ r. resolve_world_version v w (unwrap_or r latest)) (sym f)
  req_resolves w disabled req' release d h f =
      ap (λ r. resolve_world_version v w (unwrap_or r latest)) (sym f)

  frozen_worlds :
      (m frozen : Manifest Version) (o : Option (List (String × VersionReq Version)))
      → with_worlds v m o ≡ some frozen
      → o ≡ some frozen.worlds
  frozen_worlds m frozen none h = ground arith
  frozen_worlds m frozen (some worlds) h = ap (λ o. some (unwrap_or o m).worlds) h

  -- Freezing a manifest, if it does not panic, keeps what the manifest resolves a world of the
  -- index to, for each world that the manifest names and whose default version is the latest.
  pub freeze-resolves :
      (m frozen : Manifest Version) (index : Index Version) (name : String) (w : World Version)
      (req : VersionReq Version)
      → freeze v m index ≡ some frozen
      → get_named name index.worlds ≡ some w
      → get_named name m.worlds ≡ some req
      → w.default_version ≡ latest
      → resolve_world_version v w (get_version_req v frozen name index)
        ≡ resolve_world_version v w (get_version_req v m name index)
  unfolding freeze
  freeze-resolves m frozen index name w req f i n d =
      let e =
        named-IsFrozen index name w req m.worlds frozen.worlds i
          (frozen_worlds m frozen (freeze_each v index m.worlds) f) n in
      elim (Option-cases (freeze_req v (some w) req)) [
        | inl panics ↦ ground (arith, e.1)
        | inr (req', g) ↦
            ap (resolve_world_version v w) (stated_req v frozen index name req' (e.0 ∙ g))
            ∙ req_resolves w req req' (get_latest_release v w) d refl g
            ∙ ap (resolve_world_version v w) (sym (stated_req v m index name req n))
      ]
