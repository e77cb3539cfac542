-- ===== src/Rules/Triggers/Settling.antt =====
-- When the triggers of a YAML come to rest.
use archipelago_xl.Base.{
  ℕ, zero, suc, ◌≤◌, ◌<◌, ◌≡◌, ◌⊎◌, Bool, true, false, not, ◌||◌, Option, none, some, List, [], ◌∷◌,
  all,
}
use archipelago_xl.Rules.Values.{Crates}
use archipelago_xl.Rules.Triggers.{Loader, TriggerOption, Trigger, collect_triggers}
use archipelago_xl.Rules.Triggers.Rewriting.{Change, set_yaml_values}
use archipelago_xl.Rules.Triggers.Rounds.{is_same, new_value, option_val, matches, changes_in}

module _ (y : Crates) (loader : Loader y) where
  open y use {Value, as_mapping_get}

  abbrev is_empty : List (Change y loader) → Bool
  is_empty [] = true
  is_empty (_ ∷ _) = false

  -- the section of the game, if it is there, has the value that the trigger gives the option
  abbrev pub has_in : TriggerOption y → Option Value → Bool
  has_in o none = true
  has_in o (some game_section) =
      let existing = as_mapping_get game_section o.key in
      is_same y loader o.is_additive existing (new_value y loader o existing)

  -- every trigger whose option can have the result has put its options in place
  abbrev pub holds : Value → Trigger y → Bool
  holds current t =
      not (matches y loader (option_val y loader current t) t.option_result)
      || all (λ (o : TriggerOption y). has_in o (as_mapping_get current o.game)) t.options

  abbrev pub is_settled : Value → Bool
  is_settled current = all (holds current) (collect_triggers y current)

  abbrev pub applied : Value → Value
  applied current = set_yaml_values y loader current (changes_in y loader current)

  abbrev pub iterate : ℕ → Value → Value
  iterate zero current = current
  iterate (suc n) current = iterate n (applied current)

  -- The rounds from a value: some number of them, none of which starts from a settled value; at
  -- the end either the value is settled or all the rounds are used up.
  abbrev pub Ends : ℕ → Value → Value → Type 0
  Ends most current end =
      (n : ℕ) × (n ≤ most)
      × (end ≡ iterate n current)
      × ((is_settled end ≡ true) ⊎ (n ≡ most))
      × ((k : ℕ) → k < n → is_settled (iterate k current) ≡ false)
