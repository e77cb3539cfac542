-- ===== src/Lobby/ManifestEditor/Outcomes.antt =====
-- Which manifest a form gives, and when it is refused.
use archipelago_xl.Base.{
  ◌≡◌, ◌⊎◌, refl, ap, ◌∙◌, sym, String, true, Option, none, some, is_some, List, [], ◌∷◌, arith,
  inl, inr,
}
use archipelago_xl.Apwm.Semver.{Semver}
use archipelago_xl.Apwm.Worlds.{VersionReq}
use archipelago_xl.Apwm.Manifests.{
  Manifest, Index, ResolveError, get_named, get_version_req, resolve_with,
}
use archipelago_xl.Apwm.Manifests.Updating.{is_named, stated_req}
use archipelago_xl.Lobby.ManifestEditor.Forms.{chosen, Refused, AreSet, set_worlds-AreSet}
use archipelago_xl.Lobby.ManifestEditor.{
  ManifestForm, unresolved, Formed, formed, rejected, policy_of, set_worlds, and_then,
  unless_errors, new_manifest, manifest_from_form,
}

module _ (v : Semver) where
  open v use {Version}

  -- the requirements are the form's, and so is the policy
  abbrev pub StandsFor : ManifestForm → Index Version → Manifest Version → Type 0
  StandsFor form index k =
      (k.new_apworld_policy ≡ policy_of v form.new_apworld_policy)
      × ((name : String)
          → is_named name index.worlds ≡ true
          → chosen v form name ≡ some (get_version_req v k name index))

  abbrev pub IsOutcome : ManifestForm → Index Version → Formed Version → Type 0
  IsOutcome form index (formed k) = StandsFor form index k × ((resolve_with v k index).1 ≡ [])
  IsOutcome form index (rejected e) =
      ((name : String) × (is_named name index.worlds ≡ true) × Refused v form name e)
      ⊎ ((e ≡ unresolved)
          × ((k : Manifest Version) × StandsFor form index k × ¬ ((resolve_with v k index).1 ≡ [])))

  chosen_req :
      (form : ManifestForm) (index : Index Version) (name : String) (k : Manifest Version)
      (o : Option (VersionReq Version))
      → chosen v form name ≡ o
      → is_some o ≡ true
      → get_named name k.worlds ≡ o
      → chosen v form name ≡ some (get_version_req v k name index)
  chosen_req form index name k none e i g = ground arith
  chosen_req form index name k (some req) e i g =
      e ∙ ap (λ r. some r) (sym (stated_req v k index name req g))

  pub AreSet-StandsFor :
      (form : ManifestForm) (index : Index Version) (k : Manifest Version)
      → AreSet v form index.worlds (new_manifest v form) (formed k)
      → StandsFor form index k
  AreSet-StandsFor form index k (policy, (gets, are)) = (
    policy,
    λ name i.
        chosen_req form index name k (chosen v form name) refl (are name i) (gets name ∙ rw i refl),
  )

  unless_errors-IsOutcome :
      (form : ManifestForm) (index : Index Version) (k : Manifest Version)
      (errors : List (ResolveError Version))
      → StandsFor form index k
      → (resolve_with v k index).1 ≡ errors
      → IsOutcome form index (unless_errors v errors k)
  unless_errors-IsOutcome form index k [] s e = (s, e)
  unless_errors-IsOutcome form index k (x ∷ errors) s e = inr (refl, (k, s, λ h. ground arith))

  set-IsOutcome :
      (form : ManifestForm) (index : Index Version) (r : Formed Version)
      → AreSet v form index.worlds (new_manifest v form) r
      → IsOutcome form index (and_then v r (λ m. unless_errors v ((resolve_with v m index).1) m))
  set-IsOutcome form index (formed k) set =
      unless_errors-IsOutcome form index k ((resolve_with v k index).1)
        (AreSet-StandsFor form index k set) refl
  set-IsOutcome form index (rejected e) why = inl why

  -- A form is refused just for one of three reasons: a world of the index that is ticked has no
  -- version, or one whose text is no requirement, or the manifest that the form stands for has
  -- errors when it is resolved with the index. Otherwise that manifest is formed: it has the form's
  -- policy, and for each world of the index the requirement that the text gives if the world is
  -- ticked, and `Disabled` if not.
  pub manifest_from_form-IsOutcome :
      (form : ManifestForm) (index : Index Version)
      → IsOutcome form index (manifest_from_form v form index)
  unfolding manifest_from_form
  manifest_from_form-IsOutcome form index =
      set-IsOutcome form index (set_worlds v form index.worlds (new_manifest v form))
        (set_worlds-AreSet v form index.worlds (new_manifest v form))
