-- ===== src/Rules/Review.antt =====
-- community-ap-tools/src/review/api/evaluate.rs: the review of one YAML of a room.
pub mod Reported
pub mod Games
mod Tests
use Prim.Native.String
use archipelago_xl.Base.{
  ℕ, ◌≡◌, String, Bool, true, false, not, ◌||◌, Option, none, some, unwrap_or, List, [], ◌∷◌, ◌++◌,
  any, length, ltb, str_eq, if◌then◌else◌,
}
use archipelago_xl.Base.Int.{ℤ, pos, eqb_ℤ}
use archipelago_xl.Rules.Text.{i64_to_string}
use archipelago_xl.Rules.Values.{Crates}
use archipelago_xl.Rules.Syntax.{
  Predicate, Rule, RuleResult, Outcome, pass, fail, skipped, not_present, error, Severity,
}
use archipelago_xl.Rules.Random.{ok}
use archipelago_xl.Rules.Checks.{Eval, and_then}
use archipelago_xl.Rules.Predicates.{evaluate_rules_for_yaml}
use archipelago_xl.Rules.Builtin.{RoomYaml, BuiltinRule}
use archipelago_xl.Rules.Triggers.{Loader}
use archipelago_xl.Rules.Triggers.Rewriting.{last}
use archipelago_xl.Rules.Triggers.Rounds.{resolve_triggers}

pub record BulkYamlInfo : Type 0 where
  pub id : String
  pub player_name : String
  pub discord_handle : String
  pub discord_id : String
  pub game : String
  pub content : String
  pub created_at : String
  pub last_edited_by_name : Option String
  pub last_edited_at : Option String

pub record RuleResultResponse : Type 0 where
  pub rule_name : String
  pub outcome : Outcome
  pub severity : Severity
  pub detail : Option String
  pub builtin : Bool
  pub condition : Option Predicate
  pub predicate : Option Predicate

pub record YamlEvalResult : Type 0 where
  pub yaml_id : String
  pub player_name : String
  pub discord_handle : String
  pub discord_id : String
  pub game : String
  pub games : List String
  pub created_at : String
  pub results : List RuleResultResponse

-- the numbers of `YamlAnalysisStatus` that the review reads
pub record Analysis : Type 0 where
  pub total_checks : ℤ
  pub starting_checks : ℤ
  pub gen_ms : ℤ

abbrev pub is_reported : Outcome → Bool
is_reported fail = true
is_reported error = true
is_reported pass = false
is_reported skipped = false
is_reported not_present = false

-- the detail, with the game before it if there are several
abbrev pub label : Bool → String → Option String → Option String
label true game_name (some d) = some (String.◌++◌ "[" (String.◌++◌ game_name (String.◌++◌ "] " d)))
label true game_name none = some (String.◌++◌ "[" (String.◌++◌ game_name "]"))
label false game_name d = d

abbrev pub condition_of : Outcome → Rule → Option Predicate
condition_of fail rule = rule.when
condition_of _ rule = none

abbrev pub predicate_of : Outcome → Rule → Option Predicate
predicate_of fail rule = some rule.then_
predicate_of _ rule = none

abbrev pub custom_response : Bool → String → RuleResult → Rule → RuleResultResponse
custom_response multi_game game_name r rule = record {
  rule_name = r.rule_name;
  outcome = r.outcome;
  severity = r.severity;
  detail = label multi_game game_name r.detail;
  builtin = false;
  condition = condition_of r.outcome rule;
  predicate = predicate_of r.outcome rule;
}

-- the results zipped with their rules, of which the failures and the errors are kept
abbrev pub custom_responses : Bool → String → List RuleResult → List Rule → List RuleResultResponse
custom_responses multi_game game_name [] rules = []
custom_responses multi_game game_name (r ∷ rs) [] = []
custom_responses multi_game game_name (r ∷ rs) (rule ∷ rules) =
    let rest = custom_responses multi_game game_name rs rules in
    if is_reported r.outcome then custom_response multi_game game_name r rule ∷ rest else rest

module _ (y : Crates) (loader : Loader y) where
  open y use {Value, as_str, as_mapping, as_mapping_get, as_integer}

  abbrev pub is_weighted : Option ℤ → Bool
  is_weighted none = false
  is_weighted (some weight) = not (eqb_ℤ weight (pos 0))

  abbrev pub cons_name : Option String → List String → List String
  cons_name none names = names
  cons_name (some name) names = name ∷ names

  abbrev pub weighted_names : List (Value × Value) → List String
  weighted_names [] = []
  weighted_names ((key, weight) ∷ entries) =
      let rest = weighted_names entries in
      if is_weighted (as_integer weight) then cons_name (as_str key) rest else rest

  abbrev pub names_of : Value → List String
  names_of game_val = elim (as_str game_val) [
    | some name ↦ name ∷ []
    | none ↦ elim (as_mapping game_val) [ none ↦ [] | some entries ↦ weighted_names entries ]
  ]

  unfoldable pub extract_game_names : Value → List String
  extract_game_names yaml = elim (as_mapping_get yaml "game") [
    | none ↦ []
    | some game_val ↦ names_of game_val
  ]

  abbrev pub builtin_responses :
      Bool
      → String
      → Value
      → String
      → List RoomYaml
      → List (BuiltinRule y)
      → List RuleResultResponse
  builtin_responses multi_game game_name yaml player_name room_yamls [] = []
  builtin_responses multi_game game_name yaml player_name room_yamls (rule ∷ rules) =
      let rest = builtin_responses multi_game game_name yaml player_name room_yamls rules in
      let br = rule.evaluate yaml game_name player_name room_yamls in
      if is_reported br.outcome
      then record {
        rule_name = br.rule_name;
        outcome = br.outcome;
        severity = br.severity;
        detail = label multi_game game_name br.detail;
        builtin = true;
        condition = none;
        predicate = none;
      }
        ∷ rest
      else rest

  -- `active_builtins`
  abbrev pub active : List String → List (BuiltinRule y) → List (BuiltinRule y)
  active enabled [] = []
  active enabled (rule ∷ rules) =
      let rest = active enabled rules in
      if any (λ (id : String). str_eq id rule.id) enabled then rule ∷ rest else rest

  -- what the review adds to a game's section: `insert_integer yaml game key n`
  module _ (insert_integer : Value → String → String → ℤ → Value) where
    abbrev pub with_analysis : Analysis → List String → Value → Value
    with_analysis a [] yaml = yaml
    with_analysis a (name ∷ names) yaml = with_analysis a names (
        insert_integer
          (insert_integer (insert_integer yaml name "_checks" a.total_checks) name
            "_starting_checks" a.starting_checks)
          name "_gen_ms" a.gen_ms)

    abbrev pub analysed : Option Analysis → List String → Value → Value
    analysed none names yaml = yaml
    analysed (some a) names yaml = with_analysis a names yaml

    -- the loop over the games
    unfoldable pub review_games :
        List Rule
        → List (BuiltinRule y)
        → String
        → List RoomYaml
        → Value
        → Bool
        → List String
        → Eval y (List RuleResultResponse)
    review_games custom_rules active_builtins player_name room_yamls yaml multi_game [] cache =
        (ok [], cache)
    review_games custom_rules active_builtins player_name room_yamls yaml multi_game (name ∷ names)
          cache =
        and_then y (evaluate_rules_for_yaml y custom_rules yaml name cache) (λ rs c.
          and_then y
            (review_games custom_rules active_builtins player_name room_yamls yaml multi_game names
              c)
            (λ rest. λ c'. (
              ok (
                  custom_responses multi_game name rs custom_rules
                  ++ (builtin_responses multi_game name yaml player_name room_yamls active_builtins
                      ++ rest)),
              c',
            )))

    abbrev pub or_game : String → List String → List String
    or_game game [] = game ∷ []
    or_game game (name ∷ names) = name ∷ names

    unfoldable pub display_game : String → List String → String
    unfolding i64_to_string
    display_game game [] = game
    display_game game (name ∷ []) = name
    display_game game (name ∷ other ∷ names) =
        String.◌++◌ "Random ("
          (String.◌++◌ (i64_to_string (pos (length (name ∷ other ∷ names)))) ")")

    abbrev pub eval_result :
        BulkYamlInfo → String → List String → List RuleResultResponse → YamlEvalResult
    eval_result info game games results = record {
      yaml_id = info.id;
      player_name = info.player_name;
      discord_handle = info.discord_handle;
      discord_id = info.discord_id;
      game = game;
      games = games;
      created_at = info.created_at;
      results = results;
    }

    abbrev pub parse_error : RuleResultResponse
    parse_error = record {
      rule_name = "YAML Parse";
      outcome = error;
      severity = Severity.error;
      detail = some "Failed to parse YAML";
      builtin = false;
      condition = none;
      predicate = none;
    }

    abbrev pub is_multi : List String → Bool
    is_multi names = ltb 1 (length names)

    abbrev pub review_parsed :
        BulkYamlInfo
        → List Rule
        → List (BuiltinRule y)
        → List RoomYaml
        → Option Analysis
        → Value
        → List String
        → Eval y YamlEvalResult
    review_parsed info custom_rules active_builtins room_yamls analysis resolved names cache =
        and_then y
          (review_games custom_rules active_builtins info.player_name room_yamls
            (analysed analysis names resolved) (is_multi names) names cache)
          (λ results. λ c. (
            ok (
                eval_result info (display_game info.game names)
                  (if is_multi names then names else []) results),
            c,
          ))

    abbrev pub parsed : String → Option Value
    parsed content = elim (loader.load_from_str content) [
      | none ↦ none
      | some docs ↦ last y loader docs
    ]

    abbrev pub review_content :
        BulkYamlInfo
        → List Rule
        → List (BuiltinRule y)
        → List RoomYaml
        → Option Analysis
        → Option Value
        → Eval y YamlEvalResult
    review_content info custom_rules active_builtins room_yamls analysis none cache =
        (ok (eval_result info info.game [] (parse_error ∷ [])), cache)
    review_content info custom_rules active_builtins room_yamls analysis (some yaml) cache =
        let resolved = resolve_triggers y loader yaml in
        review_parsed info custom_rules active_builtins room_yamls analysis resolved
          (or_game info.game (extract_game_names resolved)) cache

    unfoldable pub evaluate_single_yaml :
        BulkYamlInfo
        → List Rule
        → List (BuiltinRule y)
        → List RoomYaml
        → Option Analysis
        → Eval y YamlEvalResult
    evaluate_single_yaml info custom_rules active_builtins room_yamls analysis =
        review_content info custom_rules active_builtins room_yamls analysis (parsed info.content)
