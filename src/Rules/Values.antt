-- ===== src/Rules/Values.antt =====
-- What rules.rs uses of its crates: the values of `saphyr`, the expressions of `regex`, and
-- `str::to_lowercase`, with the Unicode tables that it reads.
use archipelago_xl.Base.{String, Bool, Option, none, some, is_some, List, ◌⊎◌}
use archipelago_xl.Base.Int.{ℤ}
use archipelago_xl.Rules.Text.{i64_to_string}

pub record Crates : Type 1 where
  pub Value : Type 0
  pub as_bool : Value → Option Bool
  pub as_integer : Value → Option ℤ
  pub as_str : Value → Option String
  pub as_sequence : Value → Option (List Value)
  pub as_mapping : Value → Option (List (Value × Value))
  pub as_mapping_get : Value → String → Option Value
  pub to_lowercase : String → String
  pub Regex : Type 0
  -- `RegexBuilder::build` with the size limit: the expression, or the error's text
  pub build : String → Regex ⊎ String
  -- `Regex::new(pattern).is_ok()`
  pub is_pattern : String → Bool
  pub is_match : Regex → String → Bool

abbrev bool_to_string : Bool → String
bool_to_string Bool.true = "true"
bool_to_string Bool.false = "false"

module _ (y : Crates) where
  abbrev text_or : Option String → Option Bool → Option ℤ → Option String
  text_or (some s) b i = some s
  text_or none (some b) i = some (bool_to_string b)
  text_or none none (some i) = some (i64_to_string i)
  text_or none none none = none

  -- review/mod.rs: `yaml_value_as_string`
  unfoldable pub yaml_value_as_string : y.Value → Option String
  unfolding i64_to_string
  yaml_value_as_string val = text_or (y.as_str val) (y.as_bool val) (y.as_integer val)

  abbrev pub is_mapping : y.Value → Bool
  is_mapping val = is_some (y.as_mapping val)
