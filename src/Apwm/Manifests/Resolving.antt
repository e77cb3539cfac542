-- ===== src/Apwm/Manifests/Resolving.antt =====
-- What a manifest resolves to is a version that the world has.
use archipelago_xl.Base.{
  ◌≡◌, refl, ap, String, Bool, true, false, Option, none, some, is_some, List, [], ◌∷◌, All, arith,
  if◌then◌else◌,
}
use archipelago_xl.Apwm.Semver.{Semver}
use archipelago_xl.Apwm.Maps.{
  get, contains, contains-get, max_by_key-contained, max_by_key-greatest,
}
use archipelago_xl.Apwm.Worlds.{
  WorldOrigin, VersionReq, disabled, latest, latest_supported, specific, World, get_latest_release,
  get_latest_supported_release, get_version, find_supported,
}
use archipelago_xl.Apwm.Manifests.{
  Manifest, Index, Resolved, ok, err, version_of, first_of, or_latest, by_default, found_or,
  resolve_world_version, resolve_each, resolve_with, add_resolved, get_version_req, is_disabled,
  Resolution,
}

module _ (v : Semver) where
  open v use {Version, eq_iff as version_eq_iff}

  abbrev IsOfWorld : World Version → Option Version → Type 0
  IsOfWorld w o = (version : Version) → o ≡ some version → contains v version w.versions ≡ true

  find_supported-contained :
      (m : List (Version × WorldOrigin)) (e : Version × WorldOrigin)
      → find_supported v m ≡ some e
      → contains v (e.0) m ≡ true
  find_supported-contained [] e h = ground arith
  find_supported-contained (x ∷ m) e h =
      ground (arith, version_eq_iff (x.0) (e.0), find_supported-contained m e)

  first-IsOfWorld :
      (w : World Version) (o : Option (Version × WorldOrigin))
      → ((e : Version × WorldOrigin) → o ≡ some e → contains v (e.0) w.versions ≡ true)
      → IsOfWorld w (first_of v o)
  first-IsOfWorld w none h version e = ground arith
  first-IsOfWorld w (some (u, o)) h version e = ground (arith, h (u, o) refl)

  latest-IsOfWorld : (w : World Version) → IsOfWorld w (first_of v (get_latest_release v w))
  latest-IsOfWorld w =
      first-IsOfWorld w (get_latest_release v w) (max_by_key-contained v w.versions)

  supported-IsOfWorld :
      (w : World Version) → IsOfWorld w (first_of v (get_latest_supported_release v w))
  supported-IsOfWorld w =
      first-IsOfWorld w (get_latest_supported_release v w) (find_supported-contained w.versions)

  some_version :
      (w : World Version) (u version : Version) (o : Option WorldOrigin)
      → get v u w.versions ≡ o
      → version_of v u o ≡ some version
      → contains v version w.versions ≡ true
  some_version w u version none e h = ground arith
  some_version w u version (some o) e h =
      ground (arith, contains-get v u w.versions, ap (is_some {0}) e)

  specific-IsOfWorld :
      (w : World Version) (u : Version) → IsOfWorld w (version_of v u (get_version v w u))
  specific-IsOfWorld w u version h = some_version w u version (get_version v w u) refl h

  or_latest-IsOfWorld :
      (w : World Version) (o : Option Version) → IsOfWorld w o → IsOfWorld w (or_latest v w o)
  or_latest-IsOfWorld w none h = latest-IsOfWorld w
  or_latest-IsOfWorld w (some u) h = h

  by_default-IsOfWorld :
      (w : World Version) (req : VersionReq Version) → IsOfWorld w (by_default v w req)
  by_default-IsOfWorld w latest = latest-IsOfWorld w
  by_default-IsOfWorld w latest_supported = supported-IsOfWorld w
  by_default-IsOfWorld w (specific u) = specific-IsOfWorld w u
  by_default-IsOfWorld w disabled = λ version h. ground arith

  abbrev pub IsAvailable : World Version → Resolved Version (World Version × Version) → Type 0
  IsAvailable w (ok (x, version)) = (x ≡ w) × (contains v version w.versions ≡ true)
  IsAvailable w (err e) = Unit

  found_or-IsAvailable :
      (w : World Version) (req : VersionReq Version) (o : Option Version)
      → IsOfWorld w o
      → IsAvailable w (found_or v w req o)
  found_or-IsAvailable w req none h = tt
  found_or-IsAvailable w req (some version) h = (refl, h version refl)

  -- Whatever a requirement asks for, what a world resolves it to is a version that the world has.
  pub resolve_world_version-IsAvailable :
      (w : World Version) (req : VersionReq Version) → IsAvailable w (resolve_world_version v w req)
  unfolding resolve_world_version
  resolve_world_version-IsAvailable w latest_supported =
      found_or-IsAvailable w latest_supported _ (supported-IsOfWorld w)
  resolve_world_version-IsAvailable w latest =
      found_or-IsAvailable w w.default_version _ (by_default-IsOfWorld w w.default_version)
  resolve_world_version-IsAvailable w (specific u) =
      found_or-IsAvailable w (specific u) _ (or_latest-IsOfWorld w _ (specific-IsOfWorld w u))
  resolve_world_version-IsAvailable w disabled = tt

  -- The latest release of a world is a version that it has, and no version that it has is later.
  pub get_latest_release-greatest :
      (w : World Version) (e : Version × WorldOrigin)
      → get_latest_release v w ≡ some e
      → (contains v (e.0) w.versions ≡ true)
        × ((u : Version) → contains v u w.versions ≡ true → v.le u (e.0) ≡ true)
  get_latest_release-greatest w e h =
      (max_by_key-contained v w.versions e h, λ u c. max_by_key-greatest v w.versions e u h c)

  abbrev pub AreAvailable : List (String × (World Version × Version)) → Type 0
  AreAvailable found = All (λ r. contains v ((r.1).1) ((r.1).0).versions ≡ true) found

  added :
      (name : String) (w : World Version) (r : Resolved Version (World Version × Version))
      (rest : Resolution v)
      → IsAvailable w r
      → AreAvailable (rest.0)
      → AreAvailable ((add_resolved v name r rest).0)
  added name w (ok (x, version)) (found, errors) (same, has) h = (rw same has, h)
  added name w (err e) (found, errors) i h = h

  one :
      (name : String) (w : World Version) (req : VersionReq Version) (b : Bool)
      (rest : Resolution v)
      → AreAvailable (rest.0)
      → AreAvailable
          ((if b then rest else add_resolved v name (resolve_world_version v w req) rest).0)
  one name w req true rest h = h
  one name w req false rest h =
      added name w (resolve_world_version v w req) rest (resolve_world_version-IsAvailable w req) h

  each-AreAvailable :
      (m : Manifest Version) (index : Index Version) (worlds : List (String × World Version))
      → AreAvailable ((resolve_each v m index worlds).0)
  each-AreAvailable m index [] = tt
  each-AreAvailable m index ((name, w) ∷ worlds) =
      one name w (get_version_req v m name index) (is_disabled v (get_version_req v m name index))
        (resolve_each v m index worlds) (each-AreAvailable m index worlds)

  -- Every version that a manifest resolves to with an index is one that its world has there.
  pub resolve_with-AreAvailable :
      (m : Manifest Version) (index : Index Version) → AreAvailable ((resolve_with v m index).0)
  unfolding resolve_with
  resolve_with-AreAvailable m index = each-AreAvailable m index index.worlds
