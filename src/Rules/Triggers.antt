-- ===== src/Rules/Triggers.antt =====
-- community-ap-tools/src/review/triggers.rs: the triggers of a YAML, and the rounds that apply them.
pub mod Rewriting
pub mod Rounds
pub mod Heights
pub mod Settling
pub mod Tests
use Prim.Native.Char.{code}
use Prim.Native.String
use archipelago_xl.Base.{
  ℕ, ◌≡◌, String, Bool, true, false, not, ◌||◌, Option, none, some, is_some, unwrap_or, List, [],
  ◌∷◌, ◌++◌, All, ◌<◌, ◌==◌, str_eq, if◌then◌else◌,
}
use archipelago_xl.Base.Int.{ℤ, pos}
use archipelago_xl.Rules.Values.{Crates, yaml_value_as_string}

infixl 5 ◌>>=◌
abbrev pub ◌>>=◌ : {A B : Type 0} → Option A → (A → Option B) → Option B
none >>= f = none
some a >>= f = f a

-- Besides the accessors: the loader of YAML texts, whose result is the documents, the texts of
-- floating-point numbers, the equality of values, in which order a `HashMap` gives its entries, and
-- the height of a value, which is a finite tree.
pub record Loader (y : Crates) : Type 0 where
  pub load_from_str : String → Option (List y.Value)
  pub as_floating_point : y.Value → Option String
  pub value_eq : y.Value → y.Value → Bool
  pub hash_order : List (String × y.Value) → List (String × y.Value)
  pub height : y.Value → ℕ
  pub lower :
      (v : y.Value) (m : List (y.Value × y.Value))
      → y.as_mapping v ≡ some m
      → All (λ (e : y.Value × y.Value). height (e.1) < height v) m

abbrev is_zero : Option ℤ → Bool
is_zero none = true
is_zero (some (pos n)) = n == 0
is_zero (some _) = false

module _ (y : Crates) where
  open y use {Value, as_str, as_sequence, as_mapping, as_mapping_get, as_integer}

  pub record TriggerOption : Type 0 where
    pub game : String
    pub key : String
    pub value : Value
    pub is_additive : Bool

  pub record Trigger : Type 0 where
    pub option_category : String
    pub option_name : String
    pub option_result : String
    pub options : List TriggerOption

  abbrev pub is_text : Option String → String → Bool
  is_text none s = false
  is_text (some t) s = str_eq t s

  unfoldable pub is_trueish_match : Value → String → Bool
  is_trueish_match option_val trigger_result =
      is_text (yaml_value_as_string y option_val) trigger_result

  abbrev pub any_weighted : List (Value × Value) → String → Bool
  any_weighted [] trigger_result = false
  any_weighted ((key, weight) ∷ entries) trigger_result =
      let rest = any_weighted entries trigger_result in
      if not (is_zero (as_integer weight))
      then if is_trueish_match key trigger_result then true else rest
      else rest

  unfoldable pub value_can_match : Value → String → Bool
  value_can_match val trigger_result =
      if is_trueish_match val trigger_result then true else elim (as_mapping val) [
        | none ↦ false
        | some entries ↦ any_weighted entries trigger_result
      ]

  -- a key with a plus sign is additive, under the name that follows the sign
  abbrev pub trigger_option : String → String → Value → TriggerOption
  trigger_option game String.[] value = record {
    game = game;
    key = String.[];
    value = value;
    is_additive = false;
  }
  trigger_option game (String.◌∷◌ c rest) value =
      if code c == 43
      then record { game = game; key = rest; value = value; is_additive = true }
      else record { game = game; key = String.◌∷◌ c rest; value = value; is_additive = false }

  abbrev pub parse_inner :
      String → List (Value × Value) → List TriggerOption → Option (List TriggerOption)
  parse_inner game [] options = some options
  parse_inner game ((opt_key, opt_val) ∷ inner) options = as_str opt_key >>= (λ raw_key.
      parse_inner game inner (options ++ (trigger_option game raw_key opt_val ∷ [])))

  abbrev pub parse_game :
      String → Option (List (Value × Value)) → List TriggerOption → Option (List TriggerOption)
  parse_game game none options = some options
  parse_game game (some inner) options = parse_inner game inner options

  abbrev pub parse_outer : List (Value × Value) → List TriggerOption → Option (List TriggerOption)
  parse_outer [] options = some options
  parse_outer ((game_key, game_opts) ∷ outer) options =
      as_str game_key
      >>= (λ game. parse_game game (as_mapping game_opts) options >>= parse_outer outer)

  abbrev pub parse_options : Option (List (Value × Value)) → Option (List TriggerOption)
  parse_options none = some []
  parse_options (some outer) = parse_outer outer []

  unfoldable pub parse_trigger : Value → Option Trigger
  parse_trigger trigger_yaml = do
    category ← as_mapping_get trigger_yaml "option_category" >>= as_str
    name ← as_mapping_get trigger_yaml "option_name" >>= as_str
    result ← as_mapping_get trigger_yaml "option_result" >>= yaml_value_as_string y
    options_map ← as_mapping_get trigger_yaml "options"
    options ← parse_options (as_mapping options_map)
    some (record {
      option_category = category;
      option_name = name;
      option_result = result;
      options = options;
    })

  abbrev pub cons_some : Option Trigger → List Trigger → List Trigger
  cons_some none triggers = triggers
  cons_some (some t) triggers = t ∷ triggers

  -- `filter_map(parse_trigger)`
  abbrev pub parse_each : List Value → List Trigger
  parse_each [] = []
  parse_each (v ∷ vs) = cons_some (parse_trigger v) (parse_each vs)

  abbrev pub parse_triggers_from : Option Value → List Trigger
  parse_triggers_from none = []
  parse_triggers_from (some val) = elim (as_sequence val) [ none ↦ [] | some vs ↦ parse_each vs ]

  abbrev pub is_reserved : String → Bool
  is_reserved key =
      str_eq key "triggers" || str_eq key "game" || str_eq key "name" || str_eq key "description"

  abbrev pub section_triggers : Option String → Value → List Trigger
  section_triggers none game_section = []
  section_triggers (some key) game_section =
      if is_reserved key then [] else parse_triggers_from (as_mapping_get game_section "triggers")

  abbrev pub each_section : List (Value × Value) → List Trigger
  each_section [] = []
  each_section ((key, game_section) ∷ entries) =
      section_triggers (as_str key) game_section ++ each_section entries

  abbrev pub sections_triggers : Option (List (Value × Value)) → List Trigger
  sections_triggers none = []
  sections_triggers (some entries) = each_section entries

  unfoldable pub collect_triggers : Value → List Trigger
  collect_triggers yaml =
      parse_triggers_from (as_mapping_get yaml "triggers") ++ sections_triggers (as_mapping yaml)
