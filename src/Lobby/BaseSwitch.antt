-- ===== src/Lobby/BaseSwitch.antt =====
-- lobby/src/base_switch.rs: what moving a room to another Archipelago version does to its YAMLs.
pub mod Report
use Prim.Native.String.{compare}
use text.Mathlib.Text.{is_lt}
use archipelago_xl.Base.{
  ℕ, suc, ◌+◌, String, Bool, true, false, Option, none, some, List, [], ◌∷◌, str_eq, if◌then◌else◌,
}
use archipelago_xl.Apwm.Semver.{Semver}
use archipelago_xl.Apwm.Maps.{contains}
use archipelago_xl.Apwm.Worlds.{VersionReq, disabled, latest, latest_supported, specific, World}
use archipelago_xl.Apwm.Manifests.{
  Manifest, Index, Resolved, ok, err, find_game, get_version_req, resolve_from_game_name,
}

pub data ChangeKind (V : Type 0) : Type 0 where
  lost : (old : V) → ChangeKind V
  pin_not_available : (pinned to : V) → ChangeKind V
  moved : (old to : V) → ChangeKind V
  gained : (to : V) → ChangeKind V

pub record WorldChange (V : Type 0) : Type 0 where
  pub game : String
  pub yamls : ℕ
  pub kind : ChangeKind V

pub record SwitchReport (V : Type 0) : Type 0 where
  pub warnings : List (WorldChange V)
  pub changes : List (WorldChange V)
  pub unchanged : ℕ

-- `*entry(game).or_default() += 1`
abbrev pub count_one : String → List (String × ℕ) → List (String × ℕ)
count_one game [] = (game, 1) ∷ []
count_one game ((g, n) ∷ counts) =
    let rest = count_one game counts in
    if str_eq g game
    then (g, suc n) ∷ counts
    else if is_lt (compare game g)
    then (game, 1) ∷ (g, n) ∷ counts
    else (g, n) ∷ rest

abbrev pub count_each : List String → List (String × ℕ) → List (String × ℕ)
count_each [] counts = counts
count_each (game ∷ games) counts = count_each games (count_one game counts)

unfoldable pub yamls_per_game : List String → List (String × ℕ)
yamls_per_game games = count_each games []

-- What the move does to one game.
pub data Effect (V : Type 0) : Type 0 where
  same unsupported : Effect V
  change : ChangeKind V → Effect V

module _ (v : Semver) where
  open v use {Version, eq}

  abbrev pub version_of_result : Resolved Version (World Version × Version) → Option Version
  version_of_result (ok (w, version)) = some version
  version_of_result (err e) = none

  abbrev pub pin_missing : World Version → VersionReq Version → Option Version
  pin_missing w (specific pinned) = if contains v pinned w.versions then none else some pinned
  pin_missing w _ = none

  unfoldable pub unavailable_pin : Manifest Version → Index Version → String → Option Version
  unavailable_pin manifest index game = elim (find_game v game index.worlds) [
    | none ↦ none
    | some (apworld_name, w) ↦ pin_missing w (get_version_req v manifest apworld_name index)
  ]

  abbrev pub move_kind : Version → Version → Option Version → ChangeKind Version
  move_kind from_ to none = moved from_ to
  move_kind from_ to (some pinned) = pin_not_available pinned to

  abbrev pub effect : Option Version → Option Version → Option Version → Effect Version
  effect none none pin = unsupported
  effect (some from_) none pin = change (lost from_)
  effect none (some to) pin = change (gained to)
  effect (some from_) (some to) pin = if eq from_ to then same else change (move_kind from_ to pin)

  abbrev pub record_change : WorldChange Version → SwitchReport Version → SwitchReport Version
  record_change c r = elim c.kind [
    | lost _ ↦ record r { warnings = c ∷ r.warnings }
    | pin_not_available _ _ ↦ record r { warnings = c ∷ r.warnings }
    | moved _ _ ↦ record r { changes = c ∷ r.changes }
    | gained _ ↦ record r { changes = c ∷ r.changes }
  ]

  abbrev pub record_effect :
      String → ℕ → Effect Version → SwitchReport Version → SwitchReport Version
  record_effect game yamls same r = record r { unchanged = suc r.unchanged }
  record_effect game yamls unsupported r = r
  record_effect game yamls (change kind) r =
      record_change (record { game = game; yamls = yamls; kind = kind }) r

  abbrev pub version_on : Manifest Version → Index Version → String → Option Version
  version_on manifest index game = version_of_result (resolve_from_game_name v manifest game index)

  abbrev pub effect_on : Manifest Version → Index Version → Index Version → String → Effect Version
  effect_on manifest current target game =
      effect (version_on manifest current game) (version_on manifest target game)
        (unavailable_pin manifest target game)

  unfoldable pub report_each :
      Manifest Version → Index Version → Index Version → List (String × ℕ) → SwitchReport Version
  report_each manifest current target [] = record { warnings = []; changes = []; unchanged = 0 }
  report_each manifest current target ((game, yamls) ∷ counts) =
      record_effect game yamls (effect_on manifest current target game)
        (report_each manifest current target counts)

  unfoldable pub switch_report :
      Manifest Version → Index Version → Index Version → List String → SwitchReport Version
  switch_report manifest current target games =
      report_each manifest current target (yamls_per_game games)
