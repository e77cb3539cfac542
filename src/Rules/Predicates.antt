-- ===== src/Rules/Predicates.antt =====
-- The predicates of a rule, and the rules of a YAML (rules.rs).
pub mod Caching
pub mod Sound
pub mod Evaluating
pub mod Counting
pub mod Verdicts
pub mod Failing
use Prim.Native.String
use archipelago_xl.Base.{
  ℕ, ◌+◌, String, Bool, true, false, Option, none, some, is_some, List, [], ◌∷◌, leb, str_eq,
  if◌then◌else◌,
}
use archipelago_xl.Base as Shared
use archipelago_xl.Rules.Text.{split}
use archipelago_xl.Rules.Values.{Crates}
use archipelago_xl.Rules.Syntax.{
  RuleCheck, not_contains, exists, not_exists, Predicate, check, and, or, not, at_least, Predicates,
  nil, cons, Rule, RuleResult, Outcome, pass, fail, skipped, not_present, error, result,
}
use archipelago_xl.Rules.Random.{Evaluated, ok, err, unreachable}
use archipelago_xl.Rules.Checks.{Cache, Eval, value_of, and_then, evaluate_check}

module _ (y : Crates) where
  open y use {Value}

  abbrev step : Option Value → String → Option Value
  step none part = none
  step (some current) part = y.as_mapping_get current part

  abbrev steps : Option Value → List String → Option Value
  steps current [] = current
  steps current (part ∷ parts) = steps (step current part) parts

  unfoldable pub navigate_path : Value → String → Option Value
  unfolding split
  navigate_path yaml path = steps (some yaml) (split 46 path)

  abbrev pub check_or : Bool → Option Value → RuleCheck → Eval y Bool
  check_or missing none c = value_of y (ok missing)
  check_or missing (some val) c = evaluate_check y val c

  abbrev pub evaluate_at : Option Value → RuleCheck → Eval y Bool
  evaluate_at val exists = value_of y (ok (is_some val))
  evaluate_at val not_exists = value_of y (ok (Shared.not (is_some val)))
  evaluate_at val (not_contains value) = check_or true val (not_contains value)
  evaluate_at val c = check_or false val c

  unfoldable mutual
    pub evaluate_predicate : Predicate → Value → Eval y Bool
    evaluate_predicate (check path c) game_yaml cache =
        evaluate_at (navigate_path game_yaml path) c cache
    evaluate_predicate (and ps) game_yaml cache = evaluate_and ps game_yaml cache
    evaluate_predicate (or ps) game_yaml cache = evaluate_or ps game_yaml cache
    evaluate_predicate (not p) game_yaml cache =
        and_then y (evaluate_predicate p game_yaml cache) (λ b. value_of y (ok (Shared.not b)))
    evaluate_predicate (at_least n ps) game_yaml cache = evaluate_at_least n 0 ps game_yaml cache

    pub evaluate_and : Predicates → Value → Eval y Bool
    evaluate_and nil game_yaml cache = (ok true, cache)
    evaluate_and (cons p ps) game_yaml cache =
        let rest = evaluate_and ps game_yaml in
        and_then y (evaluate_predicate p game_yaml cache)
          (λ b. if b then rest else value_of y (ok false))

    pub evaluate_or : Predicates → Value → Eval y Bool
    evaluate_or nil game_yaml cache = (ok false, cache)
    evaluate_or (cons p ps) game_yaml cache =
        let rest = evaluate_or ps game_yaml in
        and_then y (evaluate_predicate p game_yaml cache)
          (λ b. if b then value_of y (ok true) else rest)

    pub evaluate_at_least : (count matched : ℕ) → Predicates → Value → Eval y Bool
    evaluate_at_least n matched nil game_yaml cache = (ok false, cache)
    evaluate_at_least n matched (cons p ps) game_yaml cache =
        let rest = evaluate_at_least n matched ps game_yaml in
        let counted = evaluate_at_least n (matched + 1) ps game_yaml in
        and_then y (evaluate_predicate p game_yaml cache)
          (λ b. if b then if leb n (matched + 1) then value_of y (ok true) else counted else rest)

  abbrev pub other_game : Option String → String → Bool
  other_game none game_name = false
  other_game (some game_filter) game_name = Shared.not (str_eq game_filter game_name)

  -- the outcome of the rule's predicate, where the rule applies
  abbrev pub conclude : Rule → Evaluated Bool × Cache y → Evaluated RuleResult × Cache y
  conclude rule (ok true, cache) = (ok (result rule fail none), cache)
  conclude rule (ok false, cache) = (ok (result rule pass none), cache)
  conclude rule (err e, cache) =
      (ok (result rule error (some (String.◌++◌ "Error evaluating rule: " e))), cache)
  conclude rule (unreachable, cache) = (unreachable, cache)

  -- the outcome of the rule's condition: `rest` is the evaluation of the rule's predicate
  abbrev pub on_condition :
      Rule → Evaluated Bool × Cache y → Eval y RuleResult → Evaluated RuleResult × Cache y
  on_condition rule (ok true, cache) rest = rest cache
  on_condition rule (ok false, cache) rest = (ok (result rule skipped none), cache)
  on_condition rule (err e, cache) rest =
      (ok (result rule error (some (String.◌++◌ "Error evaluating condition: " e))), cache)
  on_condition rule (unreachable, cache) rest = (unreachable, cache)

  abbrev pub judge : Rule → Option Predicate → Value → Eval y RuleResult
  judge rule none game_yaml cache = conclude rule (evaluate_predicate rule.then_ game_yaml cache)
  judge rule (some condition) game_yaml cache =
      on_condition rule (evaluate_predicate condition game_yaml cache)
        (λ c. conclude rule (evaluate_predicate rule.then_ game_yaml c))

  abbrev pub missing_game : String → String
  missing_game game_name = String.◌++◌ "Game section '" (String.◌++◌ game_name "' not found")

  abbrev pub evaluate_game : Rule → Option Value → String → Eval y RuleResult
  evaluate_game rule none game_name cache =
      (ok (result rule not_present (some (missing_game game_name))), cache)
  evaluate_game rule (some game_yaml) game_name cache = judge rule rule.when game_yaml cache

  unfoldable pub evaluate_rule : Rule → Value → String → Eval y RuleResult
  evaluate_rule rule yaml game_name cache =
      if other_game rule.game game_name
      then (ok (result rule skipped none), cache)
      else evaluate_game rule (y.as_mapping_get yaml game_name) game_name cache

  unfoldable pub evaluate_rules_for_yaml : List Rule → Value → String → Eval y (List RuleResult)
  evaluate_rules_for_yaml [] yaml game_name cache = (ok [], cache)
  evaluate_rules_for_yaml (rule ∷ rules) yaml game_name cache =
      and_then y (evaluate_rule rule yaml game_name cache) (λ r c.
        and_then y (evaluate_rules_for_yaml rules yaml game_name c) (λ rs. λ c'. (ok (r ∷ rs), c')))
