-- ===== src/Rules/Builtin.antt =====
-- community-ap-tools/src/review/builtin.rs: the rule against plando for other players.
pub mod Plando
use Prim.Native.String
use archipelago_xl.Base.{
  ◌≡◌, String, Bool, true, false, not, Option, none, some, List, [], ◌∷◌, ◌++◌, any, str_eq,
  if◌then◌else◌,
}
use archipelago_xl.Rules.Values.{Crates}
use archipelago_xl.Rules.Syntax.{RuleResult, Outcome, pass, fail, skipped, Severity}

pub record RoomYaml : Type 0 where
  pub player_name : String

-- A rule of the trait `BuiltinRule`: what it says of itself, and its `evaluate`.
pub record BuiltinRule (y : Crates) : Type 0 where
  pub id : String
  pub name : String
  pub description : String
  pub evaluate : y.Value → String → String → List RoomYaml → RuleResult

pub record BuiltinRuleInfo : Type 0 where
  pub id : String
  pub name : String
  pub description : String

-- `join(", ")`
abbrev pub join : List String → String
join [] = String.[]
join (s ∷ []) = s
join (s ∷ t ∷ rest) = String.◌++◌ s (String.◌++◌ ", " (join (t ∷ rest)))

module _ (y : Crates) where
  open y use {Value, as_str, as_sequence, as_mapping, as_mapping_get}

  abbrev pub contains_name : List String → String → Bool
  contains_name names name = any (λ (n : String). str_eq n name) names

  -- the test of one value, wherever it stands
  abbrev pub check_name : Option String → String → List String → List String → List String
  check_name none field_name other_names violations = violations
  check_name (some name) field_name other_names violations =
      if contains_name other_names name
      then violations ++ (String.◌++◌ field_name (String.◌++◌ ": " name) ∷ [])
      else violations

  abbrev pub check_items : List Value → String → List String → List String → List String
  check_items [] field_name other_names violations = violations
  check_items (item ∷ items) field_name other_names violations =
      check_items items field_name other_names
        (check_name (as_str item) field_name other_names violations)

  abbrev pub check_keys : List (Value × Value) → String → List String → List String → List String
  check_keys [] field_name other_names violations = violations
  check_keys ((key, _) ∷ entries) field_name other_names violations =
      check_keys entries field_name other_names
        (check_name (as_str key) field_name other_names violations)

  abbrev pub check_sequence : Option (List Value) → String → List String → List String → List String
  check_sequence none field_name other_names violations = violations
  check_sequence (some items) field_name other_names violations =
      check_items items field_name other_names violations

  abbrev pub check_mapping :
      Option (List (Value × Value)) → String → List String → List String → List String
  check_mapping none field_name other_names violations = violations
  check_mapping (some entries) field_name other_names violations =
      check_keys entries field_name other_names violations

  unfoldable pub check_value_for_player_names :
      Value → String → List String → List String → List String
  check_value_for_player_names val field_name other_names violations =
      check_mapping (as_mapping val) field_name other_names (
        check_sequence (as_sequence val) field_name other_names
          (check_name (as_str val) field_name other_names violations))

  abbrev pub check_field : Option Value → String → List String → List String → List String
  check_field none field other_names violations = violations
  check_field (some val) field other_names violations =
      check_value_for_player_names val field other_names violations

  abbrev pub check_fields : Value → List String → List String → List String → List String
  check_fields entry [] other_names violations = violations
  check_fields entry (field ∷ fields) other_names violations =
      check_fields entry fields other_names
        (check_field (as_mapping_get entry field) field other_names violations)

  abbrev pub plando_fields : List String
  plando_fields = "from_player" ∷ "to_player" ∷ "world" ∷ []

  unfoldable pub check_plando_entry_for_cross_refs : Value → List String → List String → List String
  check_plando_entry_for_cross_refs entry other_names violations =
      check_fields entry plando_fields other_names violations

  abbrev pub check_entries : List Value → List String → List String → List String
  check_entries [] other_names violations = violations
  check_entries (entry ∷ entries) other_names violations =
      check_entries entries other_names
        (check_plando_entry_for_cross_refs entry other_names violations)

  abbrev pub other_names : List RoomYaml → String → List String
  other_names [] player_name = []
  other_names (r ∷ room) player_name =
      let rest = other_names room player_name in
      if str_eq r.player_name player_name then rest else r.player_name ∷ rest

  abbrev pub plando_result : Outcome → Option String → RuleResult
  plando_result outcome detail = record {
    rule_name = "No cross-player plando";
    outcome = outcome;
    severity = Severity.error;
    detail = detail;
  }

  abbrev pub result_of : List String → RuleResult
  result_of [] = plando_result pass none
  result_of (violation ∷ violations) =
      plando_result fail
        (some (String.◌++◌ "Plando references other players: " (join (violation ∷ violations))))

  abbrev pub violations_of : Option (List Value) → List String → List String
  violations_of none names = []
  violations_of (some entries) names = check_entries entries names []

  abbrev pub evaluate_plando : Option Value → List String → RuleResult
  evaluate_plando none names = plando_result pass none
  evaluate_plando (some plando) names = result_of (violations_of (as_sequence plando) names)

  abbrev pub evaluate_section : Option Value → List String → RuleResult
  evaluate_section none names = plando_result skipped none
  evaluate_section (some game_section) names =
      evaluate_plando (as_mapping_get game_section "plando_items") names

  -- `NoCrossPlando::evaluate`
  unfoldable pub no_cross_plando : Value → String → String → List RoomYaml → RuleResult
  no_cross_plando yaml game_name player_name room_yamls =
      evaluate_section (as_mapping_get yaml game_name) (other_names room_yamls player_name)

  unfoldable pub builtin_rules : List (BuiltinRule y)
  builtin_rules =
      record {
        id = "no_cross_plando";
        name = "No cross-player plando";
        description = "Checks that plando sections don't reference other players' slot names";
        evaluate = no_cross_plando;
      }
      ∷ []

  abbrev infos : List (BuiltinRule y) → List BuiltinRuleInfo
  infos [] = []
  infos (r ∷ rules) = record { id = r.id; name = r.name; description = r.description } ∷ infos rules

  unfoldable pub builtin_rule_info : List BuiltinRuleInfo
  builtin_rule_info = infos builtin_rules
