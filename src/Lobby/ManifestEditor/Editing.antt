-- ===== src/Lobby/ManifestEditor/Editing.antt =====
-- Sending the form back as it was shown.
use archipelago_xl.Base.{
  ◌≡◌, refl, ap, ◌∙◌, sym, String, true, false, Option, none, some, unwrap_or, List, [], arith, inl,
  inr, Bool-cases, some-injective,
}
use archipelago_xl.Apwm.Semver.{Semver}
use archipelago_xl.Apwm.Worlds.{VersionReq, disabled, latest, latest_supported, specific, World}
use archipelago_xl.Apwm.Manifests.{
  NewApworldPolicy, enable, disable, Manifest, Index, get_named, get_version_req, is_enabled,
  resolve_with, enabled_or, new_world_req, get_world_by_name,
}
use archipelago_xl.Apwm.Manifests.Updating.{
  is_named, resolve_each-agrees, parse_version_req-to_string,
}
use archipelago_xl.Lobby.ManifestEditor.{
  ManifestForm, ManifestFormRow, Formed, formed, rejected, rows_of, rows, policy_of, set_worlds,
  and_then, unless_errors, new_manifest, manifest_from_form,
}
use archipelago_xl.Lobby.ManifestEditor.Forms.{chosen, Refused-none, AreSet, set_worlds-AreSet}
use archipelago_xl.Lobby.ManifestEditor.Outcomes.{AreSet-StandsFor}
use archipelago_xl.Lobby.ManifestEditor.Shown.{IsSubmitted, Agrees, sorted-agree}

module _ (v : Semver) where
  open v use {Version}

  -- a world that is not enabled is required to be disabled
  disabled_req :
      (policy : NewApworldPolicy) (o : Option (VersionReq Version)) (w : Option (World Version))
      → (elim policy [ enable ↦ enabled_or v true o | disable ↦ enabled_or v false o ]) ≡ false
      → unwrap_or o (new_world_req v policy w) ≡ disabled
  disabled_req enable none w h = ground arith
  disabled_req disable none w h = refl
  disabled_req enable (some disabled) w h = refl
  disabled_req disable (some disabled) w h = refl
  disabled_req enable (some latest) w h = ground arith
  disabled_req disable (some latest) w h = ground arith
  disabled_req enable (some latest_supported) w h = ground arith
  disabled_req disable (some latest_supported) w h = ground arith
  disabled_req enable (some (specific u)) w h = ground arith
  disabled_req disable (some (specific u)) w h = ground arith

  pub not_enabled-disabled :
      (m : Manifest Version) (index : Index Version) (name : String)
      → is_enabled v m name ≡ false
      → get_version_req v m name index ≡ disabled
  unfolding is_enabled get_version_req
  not_enabled-disabled m index name h =
      disabled_req m.new_apworld_policy (get_named name m.worlds)
        (get_world_by_name v index.worlds name) h

  sent_choice :
      (form : ManifestForm) (index : Index Version) (m : Manifest Version) (name : String)
      → Agrees v form index m name
      → chosen v form name ≡ some (get_version_req v m name index)
  sent_choice form index m name (ticked, text) = elim (Bool-cases (is_enabled v m name)) [
    | inl e ↦
        rw ticked
          (rw e (rw (text e) (parse_version_req-to_string v (get_version_req v m name index))))
    | inr e ↦ rw ticked (rw e (ap (λ r. some r) (sym (not_enabled-disabled m index name e))))
  ]

  -- the manifest that is formed gives the same worlds and versions, and has the same policy
  abbrev pub Keeps : Index Version → Manifest Version → Formed Version → Type 0
  Keeps index m r =
      (k : Manifest Version) × (r ≡ formed k)
      × (k.new_apworld_policy ≡ m.new_apworld_policy)
      × (resolve_with v k index ≡ resolve_with v m index)

  module _ (form : ManifestForm) (index : Index Version) (m : Manifest Version)
      (agree : (name : String)
        → is_named name index.worlds ≡ true
        → Agrees v form index m name) where
    same_req :
        (k : Manifest Version) (name : String)
        → AreSet v form index.worlds (new_manifest v form) (formed k)
        → is_named name index.worlds ≡ true
        → get_version_req v k name index ≡ get_version_req v m name index
    same_req k name set i = some-injective _ _ (
        sym ((AreSet-StandsFor v form index k set).1 name i)
        ∙ sent_choice form index m name (agree name i))

    same_resolution :
        (k : Manifest Version)
        → AreSet v form index.worlds (new_manifest v form) (formed k)
        → resolve_with v k index ≡ resolve_with v m index
    unfolding resolve_with
    same_resolution k set =
        resolve_each-agrees v k m index index.worlds (λ name i. same_req k name set i)

    set-Keeps :
        (r : Formed Version)
        → AreSet v form index.worlds (new_manifest v form) r
        → policy_of v form.new_apworld_policy ≡ m.new_apworld_policy
        → (resolve_with v m index).1 ≡ []
        → Keeps index m (and_then v r (λ k. unless_errors v ((resolve_with v k index).1) k))
    set-Keeps (formed k) set policy no_errors = (
      k,
      rw (same_resolution k set) (rw no_errors refl),
      (AreSet-StandsFor v form index k set).0 ∙ policy,
      same_resolution k set,
    )
    set-Keeps (rejected e) (name, i, why) policy no_errors =
        ground (arith, sent_choice form index m name (agree name i), Refused-none v form name e why)

  -- If the manifest shown in the form resolves without an error, and the form that is sent has what
  -- its rows show (the policy, the ticks, and the text of each ticked world's current version),
  -- then a manifest is formed, with the same policy, and it resolves to the same versions of the
  -- same worlds.
  pub manifest_from_form-Keeps :
      (index : Index Version) (m : Manifest Version) (form : ManifestForm)
      (rs : List (ManifestFormRow Version))
      → rows v index m ≡ some rs
      → IsSubmitted v form m rs
      → (resolve_with v m index).1 ≡ []
      → Keeps index m (manifest_from_form v form index)
  unfolding rows manifest_from_form
  manifest_from_form-Keeps index m form rs shown (policy, sent) no_errors =
      set-Keeps form index m
        (sorted-agree v form index m (rows_of v index m index.worlds) rs refl shown sent)
        (set_worlds v form index.worlds (new_manifest v form))
        (set_worlds-AreSet v form index.worlds (new_manifest v form)) policy no_errors
