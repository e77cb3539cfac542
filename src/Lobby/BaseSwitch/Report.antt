-- ===== src/Lobby/BaseSwitch/Report.antt =====
-- What the report says of each game.
use archipelago_xl.Base.{
  ℕ, suc, ◌+◌, ◌≡◌, ap, ◌∙◌, String, Bool, true, false, none, some, List, [], ◌∷◌, All, length,
  arith,
}
use archipelago_xl.Apwm.Semver.{Semver}
use archipelago_xl.Apwm.Manifests.{Manifest, Index}
use archipelago_xl.Lobby.BaseSwitch.{
  ChangeKind, lost, pin_not_available, moved, gained, WorldChange, SwitchReport, count_one,
  count_each, yamls_per_game, Effect, same, unsupported, change, unavailable_pin, record_effect,
  version_on, effect_on, report_each, switch_report,
}

abbrev total : List (String × ℕ) → ℕ
total [] = 0
total ((g, n) ∷ counts) = n + total counts

total-count_one :
    (game : String) (counts : List (String × ℕ))
    → total (count_one game counts) ≡ suc (total counts)
total-count_one game [] = omega arith
total-count_one game ((g, n) ∷ counts) = ground (arith, total-count_one game counts)

total-count_each :
    (games : List String) (counts : List (String × ℕ))
    → total (count_each games counts) ≡ length games + total counts
total-count_each [] counts = omega arith
total-count_each (game ∷ games) counts =
    total-count_each games (count_one game counts)
    ∙ ap (λ n. length games + n) (total-count_one game counts)
    ∙ omega arith

module _ (v : Semver) where
  open v use {Version, eq}

  abbrev pub yamls_of : List (WorldChange Version) → ℕ
  yamls_of [] = 0
  yamls_of (c ∷ cs) = c.yamls + yamls_of cs

  abbrev pub is_warning : ChangeKind Version → Bool
  is_warning (lost _) = true
  is_warning (pin_not_available _ _) = true
  is_warning (moved _ _) = false
  is_warning (gained _) = false

  module _ (manifest : Manifest Version) (current target : Index Version) where
    -- what a kind of change says of a game
    abbrev pub IsKindOf : String → ChangeKind Version → Type 0
    IsKindOf game (lost old) =
        (version_on v manifest current game ≡ some old) × (version_on v manifest target game ≡ none)
    IsKindOf game (gained to) =
        (version_on v manifest current game ≡ none) × (version_on v manifest target game ≡ some to)
    IsKindOf game (moved old to) =
        (version_on v manifest current game ≡ some old)
        × (version_on v manifest target game ≡ some to)
        × (eq old to ≡ false)
        × (unavailable_pin v manifest target game ≡ none)
    IsKindOf game (pin_not_available pinned to) =
        ((old : Version) × (version_on v manifest current game ≡ some old) × (eq old to ≡ false))
        × (version_on v manifest target game ≡ some to)
        × (unavailable_pin v manifest target game ≡ some pinned)

    abbrev pub IsRight : Bool → WorldChange Version → Type 0
    IsRight warning c = IsKindOf c.game c.kind × (is_warning c.kind ≡ warning)

    abbrev IsEffectOf : String → Effect Version → Type 0
    IsEffectOf game same = Unit
    IsEffectOf game unsupported = Unit
    IsEffectOf game (change kind) = IsKindOf game kind

    abbrev pub IsRightReport : SwitchReport Version → Type 0
    IsRightReport r = All (IsRight true) r.warnings × All (IsRight false) r.changes

    abbrev pub quiet_of : ℕ → Effect Version → ℕ
    quiet_of yamls (change _) = 0
    quiet_of yamls same = yamls
    quiet_of yamls unsupported = yamls

    -- the YAMLs of the games that keep their release, or are unsupported before and after
    abbrev pub quiet_yamls : List (String × ℕ) → ℕ
    quiet_yamls [] = 0
    quiet_yamls ((game, yamls) ∷ counts) =
        quiet_of yamls (effect_on v manifest current target game) + quiet_yamls counts

    abbrev pub reported : SwitchReport Version → ℕ
    reported r = yamls_of r.warnings + yamls_of r.changes

    reported-record_effect :
        (game : String) (yamls : ℕ) (e : Effect Version) (r : SwitchReport Version)
        → reported (record_effect v game yamls e r) + quiet_of yamls e ≡ yamls + reported r
    reported-record_effect game yamls same r = omega arith
    reported-record_effect game yamls unsupported r = omega arith
    reported-record_effect game yamls (change (lost old)) r = omega arith
    reported-record_effect game yamls (change (pin_not_available pinned to)) r = omega arith
    reported-record_effect game yamls (change (moved old to)) r = omega arith
    reported-record_effect game yamls (change (gained to)) r = omega arith

    reported-each :
        (counts : List (String × ℕ))
        → reported (report_each v manifest current target counts) + quiet_yamls counts
          ≡ total counts
    unfolding report_each
    reported-each [] = omega arith
    reported-each ((game, yamls) ∷ counts) = omega (
      arith,
      reported-each counts,
      reported-record_effect game yamls (effect_on v manifest current target game)
          (report_each v manifest current target counts),
    )

    -- Every YAML of the room is counted once: in the warnings, in the changes, or among the games
    -- that keep their release or are unsupported before and after.
    pub switch_report-counts :
        (games : List String)
        → yamls_of (switch_report v manifest current target games).warnings
            + yamls_of (switch_report v manifest current target games).changes
            + quiet_yamls (yamls_per_game games)
          ≡ length games
    unfolding switch_report yamls_per_game
    switch_report-counts games =
        reported-each (yamls_per_game games) ∙ total-count_each games [] ∙ omega arith
