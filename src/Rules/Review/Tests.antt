-- ===== src/Rules/Review/Tests.antt =====
-- The theorem on the review of a YAML, on a small one.
use archipelago_xl.Base.{◌≡◌, refl, String, Option, none, some, [], ◌∷◌, All, arith}
use archipelago_xl.Base.Int.{ℤ, pos}
use archipelago_xl.Rules.Random.{ok}
use archipelago_xl.Rules.Checks.{Cache}
use archipelago_xl.Rules.Predicates.Caching.{IsCache}
use archipelago_xl.Rules.Builtin.{builtin_rules}
use archipelago_xl.Rules.Triggers.{Loader}
use archipelago_xl.Rules.Triggers.Tests.{loader}
use archipelago_xl.Rules.Review.{BulkYamlInfo, Analysis, YamlEvalResult, evaluate_single_yaml}
use archipelago_xl.Rules.Review.Games.{
  IsFoundedIn, AreReported, games_of, reviewed, evaluate_single_yaml-reports,
}
use archipelago_xl.Rules.Tests.{Node, crates, yaml, rule, room}

-- every text is the one YAML
abbrev loads : Loader crates
loads = record loader { load_from_str = λ text. some (yaml ∷ []) }

abbrev info : BulkYamlInfo
info = record {
  id = "1";
  player_name = "Ann";
  discord_handle = "ann";
  discord_id = "11";
  game = "Game";
  content = "Game: ...";
  created_at = "today";
  last_edited_by_name = none;
  last_edited_at = none;
}

abbrev analysis : Option Analysis
analysis = some (record { total_checks = pos 9; starting_checks = pos 2; gen_ms = pos 40 })

abbrev insert_integer : Node → String → String → ℤ → Node
insert_integer n game key i = n

evaluate_single_yaml-reports_example :
    (result : YamlEvalResult) × (c : Cache crates) × (evaluate_single_yaml crates loads
        insert_integer info
        (rule ∷ [])
        (builtin_rules crates)
        room
        analysis
        []
      ≡ (ok result, c))
    × IsCache crates c
    × All
        (IsFoundedIn crates loads insert_integer
          (rule ∷ [])
          (builtin_rules crates)
          "Ann"
          room
          (reviewed crates loads insert_integer info analysis yaml)
          (games_of crates loads insert_integer info yaml))
        result.results
    × AreReported crates loads insert_integer
        (rule ∷ [])
        (builtin_rules crates)
        "Ann"
        room
        (reviewed crates loads insert_integer info analysis yaml)
        (games_of crates loads insert_integer info yaml)
        result.results
evaluate_single_yaml-reports_example =
    evaluate_single_yaml-reports crates loads insert_integer info (rule ∷ []) (builtin_rules crates)
      room analysis [] yaml refl (tt, omega arith)
