-- ===== src/Apwm/Lint/Resolving.antt =====
-- In an index without errors, the default version of every world resolves on every base.
use archipelago_xl.Base.{
  ◌≡◌, ◌≢◌, refl, inl, inr, String, Bool, true, false, Option, none, some, is_some, List, [], ◌∷◌,
  any, arith, Bool-cases, ap, sym, ◌∙◌, subst, some-injective,
}
use archipelago_xl.Apwm.Semver.{Semver}
use archipelago_xl.Apwm.Maps as Versions
use archipelago_xl.Apwm.Keyed.{names, versions, get, contains, keys}
use archipelago_xl.Apwm.Keyed.Laws.{contains-get, AllOf, AllOf-insert, AllOf-get}
use archipelago_xl.Apwm.Worlds.{
  WorldOrigin, supported, VersionReq, disabled, latest, latest_supported, specific, WorldDef, World,
  Fallible, Fallible-cases, ok, fails, ok-injective, for_base, override_for, overridden, view_with,
  versions_on, world_if_any, find_supported, get_latest_release,
}
use archipelago_xl.Apwm.Manifests.{
  Index, Resolved, first_of, version_of, by_default, found_or, resolve_world_version,
}
use archipelago_xl.Apwm.IndexSets.{IndexSet, bases, get_base, view_for_base, add_view, worlds_seen}
use archipelago_xl.Apwm.IndexSets.Built.{IsBuilt}
use archipelago_xl.Apwm.Lint.{Toml}
use archipelago_xl.Apwm.Lint.Worlds.{world_in, lint_world}
use archipelago_xl.Apwm.Lint.Clean.{bad_version, bad_default, bad_defaults, has_error}
use archipelago_xl.Apwm.Lint.Linted.{lint_world-IsClean}

module _ (v : Semver) where
  open v use {Version, Req, eq, eq_iff}

  -- a world that has a version, and a supported one if it is supported
  abbrev IsUsable : World Version → Type 0
  IsUsable w =
      (is_some (get_latest_release v w) ≡ true)
      × (w.supported ≡ true → is_some (find_supported v w.versions) ≡ true)

  find_supported-insert :
      (u : Version) (m : List (Version × WorldOrigin))
      → is_some (find_supported v (Versions.insert v u supported m)) ≡ true
  find_supported-insert u [] = refl
  find_supported-insert u ((w, o) ∷ m) = ground (arith, find_supported-insert u m)

  supported_on :
      (w : WorldDef Version Req) (base : Version) (s : Bool)
      → s ≡ true
      → is_some (find_supported v (versions_on v w base s)) ≡ true
  supported_on w base true h = find_supported-insert base _
  supported_on w base false h = ground arith

  any-IsUsable :
      (w : WorldDef Version Req) (d s : Bool) (req : VersionReq Version)
      (m : List (Version × WorldOrigin)) (x : World Version)
      → (s ≡ true → is_some (find_supported v m) ≡ true)
      → world_if_any v w d s req m ≡ some x
      → IsUsable x
  unfolding Versions.max_by_key
  any-IsUsable w d s req [] x h e = ground arith
  any-IsUsable w d s req (o ∷ m) x h e = subst IsUsable (some-injective _ _ e) (refl, h)

  view_with-IsUsable :
      (w : WorldDef Version Req) (base : Version) (o : Fallible _) (x : World Version)
      → view_with v w base o ≡ ok (some x)
      → IsUsable x
  view_with-IsUsable w base fails x e = ground arith
  view_with-IsUsable w base (ok o) x e =
      elim (Bool-cases (overridden v o (λ o. o.disabled) w.disabled)) [
        | inl d ↦ ground (arith, ok-injective _ _ (rw d at e))
        | inr d ↦
            any-IsUsable w false (overridden v o (λ o. o.supported) w.supported)
              (overridden v o (λ o. o.default_version) w.default_version)
              (versions_on v w base (overridden v o (λ o. o.supported) w.supported)) x
              (supported_on w base (overridden v o (λ o. o.supported) w.supported))
              (ok-injective _ _ (rw d at e))
      ]

  abbrev AreUsable : Fallible (List (String × World Version)) → Type 0
  AreUsable fails = Unit
  AreUsable (ok worlds) = AllOf names (λ (_ : String). IsUsable) worlds

  add_view-AreUsable :
      (name : String) (w : Fallible (Option (World Version)))
      (done : Fallible (List (String × World Version)))
      → ((x : World Version) → w ≡ ok (some x) → IsUsable x)
      → AreUsable done
      → AreUsable (add_view v name w done)
  add_view-AreUsable name fails done h hs = tt
  add_view-AreUsable name (ok w) fails h hs = tt
  add_view-AreUsable name (ok none) (ok done) h hs = hs
  add_view-AreUsable name (ok (some x)) (ok done) h hs =
      AllOf-insert names (λ (_ : String). IsUsable) name x done (h x refl) hs

  worlds_seen-AreUsable :
      (base : Version) (defs : List (String × WorldDef Version Req))
      (done : Fallible (List (String × World Version)))
      → AreUsable done
      → AreUsable (worlds_seen v base defs done)
  unfolding for_base
  worlds_seen-AreUsable base [] done hs = hs
  worlds_seen-AreUsable base ((name, w) ∷ defs) done hs = worlds_seen-AreUsable base defs _ (
      add_view-AreUsable name (for_base v w base) done
        (view_with-IsUsable w base (override_for v w base)) hs)

  view-AreUsable :
      (s : IndexSet Version Req) (base : Version) (i : Index Version)
      → view_for_base v s base ≡ ok i
      → AllOf names (λ (_ : String). IsUsable) i.worlds
  unfolding view_for_base
  view-AreUsable s base i e = elim (Fallible-cases (worlds_seen v base s.world_defs (ok []))) [
    | inl k ↦ ground (arith, rw k at e)
    | inr (worlds, k) ↦
        subst (λ (j : Index Version). AllOf names (λ (_ : String). IsUsable) j.worlds)
          (ok-injective _ _ (rw k at e))
          (subst AreUsable k (worlds_seen-AreUsable base s.world_defs (ok []) tt))
  ]

  found_or-ok :
      (w : World Version) (req : VersionReq Version) (o : Option Version)
      → is_some o ≡ true
      → (version : Version) × (found_or v w req o ≡ Resolved.ok (w, version))
  found_or-ok w req none h = ground arith
  found_or-ok w req (some version) h = (version, refl)

  some-first_of :
      (o : Option (Version × WorldOrigin)) → is_some o ≡ true → is_some (first_of v o) ≡ true
  some-first_of none h = h
  some-first_of (some e) h = refl

  some-version_of :
      (u : Version) (w : World Version)
      → Versions.contains v u w.versions ≡ true
      → is_some (version_of v u (Versions.get v u w.versions)) ≡ true
  some-version_of u w h = ground (arith, Versions.contains-get v u w.versions)

  default-some :
      (toml : Toml) (w : World Version) (req : VersionReq Version)
      → IsUsable w
      → req ≢ disabled
      → bad_version v toml w req ≡ false
      → is_some (by_default v w req) ≡ true
  default-some toml w disabled (some_release, some_supported) n h = absurd (n refl)
  default-some toml w latest (some_release, some_supported) n h = some-first_of _ some_release
  default-some toml w latest_supported (some_release, some_supported) n h =
      some-first_of _ (some_supported (ground arith))
  default-some toml w (specific u) (some_release, some_supported) n h =
      some-version_of u w (ground arith)

  bad_default-in :
      (toml : Toml) (s : IndexSet Version Req) (name : String) (b : Version) (bs : List Version)
      → bad_defaults v toml s name bs ≡ false
      → any (λ (a : Version). eq a b) bs ≡ true
      → bad_default v toml (world_in v toml (get_base v s b) name) ≡ false
  bad_default-in toml s name b [] h k = ground arith
  bad_default-in toml s name b (a ∷ bs) h k = elim (Bool-cases (eq a b)) [
    | inl e ↦
        subst (λ (c : Version). bad_default v toml (world_in v toml (get_base v s c) name) ≡ false)
          ((eq_iff a b).0 e) (ground arith)
    | inr e ↦ bad_default-in toml s name b bs (ground arith) (ground arith)
  ]

  in_keys :
      (b : Version) (m : List (Version × Index Version))
      → contains (versions v) b m ≡ any (λ (a : Version). eq a b) (keys (versions v) m)
  in_keys b [] = refl
  in_keys b (e ∷ m) = ground (arith, in_keys b m)

  -- If the lint of a world in a built index reports no error, then for every base that sees the
  -- world, the requirement `Latest` resolves to a version there, unless the world's default version
  -- is `disabled`.
  pub lint_world-resolves :
      (toml : Toml) (file name : String) (w : WorldDef Version Req) (s : IndexSet Version Req)
      (raw : List (String × toml.Value)) (base : Version) (i : Index Version) (x : World Version)
      → IsBuilt v s
      → has_error v toml (lint_world v toml file name w s raw) ≡ false
      → get_base v s base ≡ some i
      → get names name i.worlds ≡ some x
      → x.default_version ≢ disabled
      → (version : Version) × (resolve_world_version v x latest ≡ Resolved.ok (x, version))
  unfolding resolve_world_version
  lint_world-resolves toml file name w s raw base i x built clean at_base at_name n =
      let c = lint_world-IsClean v toml file name w s raw clean in
      let here = bad_default-in toml s name base (bases v s) c.defaults (
        sym (in_keys base s.bases)
        ∙ contains-get (versions v) base s.bases
        ∙ ap (is_some {0}) at_base) in
      let usable =
        AllOf-get names (λ (_ : String). IsUsable) name x i.worlds at_name
          (view-AreUsable s base i (built base i at_base)) in
      found_or-ok x x.default_version (by_default v x x.default_version)
        (default-some toml x x.default_version usable n (rw (at_base, at_name) at here))
