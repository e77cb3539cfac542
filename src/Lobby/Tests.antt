-- ===== src/Lobby/Tests.antt =====
-- The theorems on small indexes.
use archipelago_xl.Base.{ℕ, ◌≡◌, refl, String, true, false, some, arith, List, [], ◌∷◌}
use archipelago_xl.Apwm.Worlds.{World, VersionReq, disabled, latest, latest_supported, specific}
use archipelago_xl.Apwm.Manifests.{
  Manifest, Index, disable, version_req_to_string, get_version_req, is_enabled, resolve_with,
  resolve_world_version,
}
use archipelago_xl.Apwm.Tests.{numbers, world}
use archipelago_xl.Lobby.ManifestEditor.{ManifestForm, ManifestFormRow, rows, manifest_from_form}
use archipelago_xl.Lobby.ManifestEditor.Outcomes.{IsOutcome, manifest_from_form-IsOutcome}
use archipelago_xl.Lobby.ManifestEditor.Shown.{IsSubmitted}
use archipelago_xl.Lobby.ManifestEditor.Editing.{Keeps, manifest_from_form-Keeps}

abbrev without_worlds : Index ℕ
without_worlds = record { archipelago_version = 6; worlds = [] }

abbrev games : List String
games = "Hollow Knight" ∷ "Celeste" ∷ "Hollow Knight" ∷ []

abbrev celeste : World ℕ
celeste = record world { name = "Celeste"; display_name = "Celeste" }

abbrev two_worlds : Index ℕ
two_worlds = record { archipelago_version = 5; worlds = ("hk", world) ∷ ("ce", celeste) ∷ [] }

abbrev edited : Manifest ℕ
edited = record { worlds = ("hk", latest_supported) ∷ []; new_apworld_policy = disable }

abbrev form : ManifestForm
form = record {
  new_apworld_policy = "disable";
  enabled = ("hk", true) ∷ [];
  version = ("ce", "Latest") ∷ ("hk", "Latest Supported") ∷ [];
}

abbrev options : List (VersionReq ℕ)
options = latest ∷ specific 3 ∷ latest_supported ∷ []

abbrev shown : List (ManifestFormRow ℕ)
shown =
    record {
      apworld_name = "ce";
      world = celeste;
      enabled = false;
      current_version = disabled;
      valid_versions = options;
    }
    ∷ record {
      apworld_name = "hk";
      world = world;
      enabled = true;
      current_version = latest_supported;
      valid_versions = options;
    }
    ∷ []

rows_of_two : rows numbers two_worlds edited ≡ some shown
unfolding rows is_enabled get_version_req
rows_of_two = refl

form-IsSubmitted : IsSubmitted numbers form edited shown
unfolding version_req_to_string
form-IsSubmitted = (refl, ((refl, λ h. ground arith), ((refl, λ h. refl), tt)))

edited_resolves : (resolve_with numbers edited two_worlds).1 ≡ []
unfolding resolve_with resolve_world_version get_version_req
edited_resolves = refl

manifest_from_form-Keeps_example :
    Keeps numbers two_worlds edited (manifest_from_form numbers form two_worlds)
manifest_from_form-Keeps_example =
    manifest_from_form-Keeps numbers two_worlds edited form shown rows_of_two form-IsSubmitted
      edited_resolves

manifest_from_form-IsOutcome_example :
    IsOutcome numbers form two_worlds (manifest_from_form numbers form two_worlds)
manifest_from_form-IsOutcome_example = manifest_from_form-IsOutcome numbers form two_worlds
