-- ===== src/Apwm/Tests.antt =====
-- The theorems on a small index, whose versions are numbers.
use Prim.Native.Char.{code}
use archipelago_xl.Base.{
  ℕ, zero, suc, ◌≡◌, ◌⊎◌, refl, ap, String, true, false, ◌&&◌, Option, none, some, [], ◌∷◌, leb,
  ◌==◌, ==_iff, if◌then◌else◌, arith,
}
use archipelago_xl.Rules.Text.{is_empty}
use archipelago_xl.Apwm.Semver.{Semver}
use archipelago_xl.Apwm.Maps.{max_by_key}
use archipelago_xl.Apwm.Worlds.{
  World, WorldDef, latest, specific, url, supported, BaseOverride, override_for, for_base,
}
use archipelago_xl.Apwm.Retries.{Try, value, transient, with_retries}
use archipelago_xl.Apwm.Retries.Laws.{IsRun, with_retries-IsRun}
use archipelago_xl.Apwm.Worlds.Views.{Views, for_base-Views}
use archipelago_xl.Apwm.Manifests.{
  Manifest, Index, enable, get_version_req, resolve_world_version, resolve_with, updated_with_index,
}
use archipelago_xl.Apwm.Manifests.Resolving.{AreAvailable, resolve_with-AreAvailable}
use archipelago_xl.Apwm.Freezing.{freeze}
use archipelago_xl.Apwm.Freezing.Laws.{freeze-resolves}
use archipelago_xl.Apwm.Manifests.Updating.{is_named, updated_with_index-resolves}

abbrev pub strokes : ℕ → String
strokes zero = String.◌∷◌ "0" String.[]
strokes (suc n) = String.◌∷◌ "1" (strokes n)

abbrev pub one_more : Option ℕ → Option ℕ
one_more none = none
one_more (some n) = some (suc n)

abbrev pub count : String → Option ℕ
count String.[] = none
count (String.◌∷◌ c s) =
    let more = count s in
    if code c == 49 then one_more more else if code c == 48 && is_empty s then some 0 else none

pub count-strokes : (n : ℕ) → count (strokes n) ≡ some n
count-strokes zero = refl
count-strokes (suc n) = ap one_more (count-strokes n)

pub leb_refl : (a : ℕ) → leb a a ≡ true
leb_refl a = ground arith

pub leb_total : (a b : ℕ) → (leb a b ≡ true) ⊎ (leb b a ≡ true)
leb_total a b = ground arith

pub leb_trans : (a b c : ℕ) → leb a b ≡ true → leb b c ≡ true → leb a c ≡ true
leb_trans a b c h k = ground arith

abbrev pub numbers : Semver
numbers = record {
  Version = ℕ;
  Req = ℕ;
  le = leb;
  le_refl = leb_refl;
  le_total = leb_total;
  le_trans = leb_trans;
  eq = ◌==◌;
  eq_iff = ==_iff;
  matches = ◌==◌;
  to_string = strokes;
  parse = count;
  parse-to_string = count-strokes;
  parse-word = (refl, refl, refl);
}

abbrev pub hollow : WorldDef ℕ ℕ
hollow = record {
  path = "hk.toml";
  name = "Hollow Knight";
  display_name = "Hollow Knight";
  default_url = none;
  default_version = latest;
  home = none;
  versions = (3, url "https://example.org/3") ∷ (4, url "https://example.org/4") ∷ [];
  releases =
      (4, record { min_ap_version = some 6; max_ap_version = none; url = none; local = none }) ∷ [];
  disabled = false;
  supported = false;
  tags = [];
  base_overrides =
      (5, record { supported = some true; disabled = none; default_version = none }) ∷ [];
}

abbrev on_base_5 : Option (BaseOverride ℕ)
on_base_5 = some (record { supported = some true; disabled = none; default_version = none })

for_base-Views_example : Views numbers hollow 5 true (for_base numbers hollow 5)
unfolding override_for
for_base-Views_example = for_base-Views numbers hollow 5 on_base_5 refl refl

abbrev pub world : World ℕ
world = record {
  path = "hk.toml";
  name = "Hollow Knight";
  display_name = "Hollow Knight";
  default_url = none;
  default_version = latest;
  home = none;
  versions = (3, url "https://example.org/3") ∷ (5, supported) ∷ [];
  disabled = false;
  supported = true;
  tags = [];
}

abbrev pub index : Index ℕ
index = record { archipelago_version = 5; worlds = ("hk", world) ∷ [] }

abbrev pub manifest : Manifest ℕ
manifest = record { worlds = []; new_apworld_policy = enable }

resolve_with-AreAvailable_example : AreAvailable numbers ((resolve_with numbers manifest index).0)
resolve_with-AreAvailable_example = resolve_with-AreAvailable numbers manifest index

updated_with_index-resolves_example :
    (resolve_with numbers (updated_with_index numbers manifest index) index
      ≡ resolve_with numbers manifest index)
    × ((name : String)
        → is_named name index.worlds ≡ true
        → get_version_req numbers (updated_with_index numbers manifest index) name index
          ≡ get_version_req numbers manifest name index)
updated_with_index-resolves_example = updated_with_index-resolves numbers manifest index

abbrev unwell : ℕ → Try String
unwell n = if leb 2 n then value "body" else transient "502"

with_retries-IsRun_example : IsRun unwell 3 0 (with_retries unwell 3)
with_retries-IsRun_example = with_retries-IsRun unwell 3

abbrev following : Manifest ℕ
following = record { worlds = ("hk", latest) ∷ []; new_apworld_policy = enable }

abbrev frozen : Manifest ℕ
frozen = record { worlds = ("hk", specific 5) ∷ []; new_apworld_policy = enable }

freeze-resolves_example :
    resolve_world_version numbers world (get_version_req numbers frozen "hk" index)
    ≡ resolve_world_version numbers world (get_version_req numbers following "hk" index)
unfolding freeze max_by_key
freeze-resolves_example =
    freeze-resolves numbers following frozen index "hk" world latest refl refl refl refl
