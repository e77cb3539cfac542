-- ===== src/Rules/Triggers/Rounds.antt =====
-- triggers.rs: the rounds of `resolve_triggers`.
use archipelago_xl.Base.{
  ℕ, zero, suc, String, Bool, true, false, not, ◌&&◌, Option, none, some, List, [], ◌∷◌, str_eq,
  if◌then◌else◌,
}
use archipelago_xl.Base.Int.{eqb_ℤ}
use archipelago_xl.Rules.Values.{Crates}
use archipelago_xl.Rules.Triggers.{
  Loader, TriggerOption, Trigger, value_can_match, collect_triggers, ◌>>=◌,
}
use archipelago_xl.Rules.Triggers.Rewriting.{Change, merge_additive, set_yaml_values}

abbrev same_bool : Bool → Bool → Bool
same_bool true b = b
same_bool false b = not b

module _ (y : Crates) (loader : Loader y) where
  open y use {Value, as_str, as_integer, as_bool, as_mapping_get}

  abbrev both : {A : Type 0} → (A → A → Bool) → Option A → Option A → Option Bool
  both same none b = none
  both same (some a) none = none
  both same (some a) (some b) = some (same a b)

  abbrev first_of : List (Option Bool) → Bool
  first_of [] = false
  first_of (none ∷ rest) = first_of rest
  first_of (some b ∷ rest) = b

  unfoldable pub yaml_values_equal : Value → Value → Bool
  yaml_values_equal a b = first_of (
      both str_eq (as_str a) (as_str b)
      ∷ both eqb_ℤ (as_integer a) (as_integer b)
      ∷ both same_bool (as_bool a) (as_bool b)
      ∷ [])

  -- `HashMap::insert`
  abbrev pub put : String → String → Value → List (Change y loader) → List (Change y loader)
  put game key value [] = ((game, key), value) ∷ []
  put game key value (((g, k), v) ∷ changes) =
      let rest = put game key value changes in
      if str_eq g game && str_eq k key then ((g, k), value) ∷ changes else ((g, k), v) ∷ rest

  -- whether an option has the value that the trigger gives it
  abbrev pub is_same : Bool → Option Value → Value → Bool
  is_same additive none value = false
  is_same true (some existing) value = loader.value_eq existing value
  is_same false (some existing) value = yaml_values_equal existing value

  abbrev pub new_value : TriggerOption y → Option Value → Value
  new_value o existing = if o.is_additive then merge_additive y loader existing o.value else o.value

  abbrev pub change_in :
      TriggerOption y → Option Value → List (Change y loader) → List (Change y loader)
  change_in o existing changes =
      if is_same o.is_additive existing (new_value o existing)
      then changes
      else put o.game o.key (new_value o existing) changes

  abbrev pub option_change :
      TriggerOption y → Option Value → List (Change y loader) → List (Change y loader)
  option_change o none changes = changes
  option_change o (some game_section) changes =
      change_in o (as_mapping_get game_section o.key) changes

  -- the loop over the options of a trigger
  abbrev pub option_changes :
      Value → List (TriggerOption y) → List (Change y loader) → List (Change y loader)
  option_changes current [] changes = changes
  option_changes current (o ∷ options) changes =
      option_changes current options (option_change o (as_mapping_get current o.game) changes)

  abbrev pub option_val : Value → Trigger y → Option Value
  option_val current t =
      as_mapping_get current t.option_category >>= (λ game. as_mapping_get game t.option_name)

  abbrev pub matches : Option Value → String → Bool
  matches none result = false
  matches (some val) result = value_can_match y val result

  abbrev pub trigger_changes : Value → Trigger y → List (Change y loader) → List (Change y loader)
  trigger_changes current t changes =
      if matches (option_val current t) t.option_result
      then option_changes current t.options changes
      else changes

  -- the loop over the triggers
  abbrev pub all_changes :
      Value → List (Trigger y) → List (Change y loader) → List (Change y loader)
  all_changes current [] changes = changes
  all_changes current (t ∷ triggers) changes =
      all_changes current triggers (trigger_changes current t changes)

  -- what one round changes
  abbrev pub changes_in : Value → List (Change y loader)
  changes_in current = all_changes current (collect_triggers y current) []

  -- the rounds that are left
  unfoldable pub rounds : ℕ → Value → Value
  rounds zero current = current
  rounds (suc n) current =
      let next = rounds n (set_yaml_values y loader current (changes_in current)) in
      elim (changes_in current) [ [] ↦ current | c ∷ changes ↦ next ]

  abbrev pub if_any : List (Trigger y) → Value → Value → Value
  if_any [] yaml resolved = yaml
  if_any (t ∷ triggers) yaml resolved = resolved

  unfoldable pub resolve_triggers : Value → Value
  resolve_triggers yaml = if_any (collect_triggers y yaml) yaml (rounds 50 yaml)
