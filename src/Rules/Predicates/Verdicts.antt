-- ===== src/Rules/Predicates/Verdicts.antt =====
-- The rules of a YAML: each has one result, and when it fails or passes.
use archipelago_xl.Base.{
  ◌≡◌, refl, ap, ◌∙◌, String, Bool, true, false, Option, none, some, List, map, arith,
  if◌then◌else◌,
}
use archipelago_xl.Rules.Values.{Crates}
use archipelago_xl.Rules.Syntax.{Predicate, Rule, RuleResult, skipped, result}
use archipelago_xl.Rules.Random.{Evaluated, ok, err, unreachable}
use archipelago_xl.Rules.Checks.{Cache, Eval}
use archipelago_xl.Rules.Predicates.{
  evaluate_predicate, other_game, conclude, on_condition, judge, evaluate_game, evaluate_rule,
}
use archipelago_xl.Rules.Predicates.Caching.{IsCache, is_reached}
use archipelago_xl.Rules.Predicates.Evaluating.{evaluate_predicate-IsSound}

module _ (y : Crates) where
  open y use {Value}

  -- a result that belongs to the rule, and a cache that keeps to its limits
  abbrev pub IsResultOf : Rule → Evaluated RuleResult × Cache y → Type 0
  IsResultOf rule (ok r, cache) =
      (r.rule_name ≡ rule.name) × (r.severity ≡ rule.severity) × IsCache y cache
  IsResultOf rule (err e, cache) = ⊥
  IsResultOf rule (unreachable, cache) = ⊥

  concludes :
      (rule : Rule) (v : Evaluated Bool × Cache y)
      → is_reached (v.0) ≡ true
      → IsCache y (v.1)
      → IsResultOf rule (conclude y rule v)
  unfolding result
  concludes rule (ok true, cache) h i = (refl, refl, i)
  concludes rule (ok false, cache) h i = (refl, refl, i)
  concludes rule (err e, cache) h i = (refl, refl, i)
  concludes rule (unreachable, cache) h i = ground arith

  reached_with :
      (p : Predicate) (g : Value) (cache : Cache y)
      → IsCache y cache
      → (is_reached ((evaluate_predicate y p g cache).0) ≡ true)
        × IsCache y ((evaluate_predicate y p g cache).1)
  reached_with p g cache i =
      let s = evaluate_predicate-IsSound y g p in
      (ap is_reached ((s.gives cache i).0) ∙ s.reached, (s.gives cache i).1)

  then_concludes :
      (rule : Rule) (g : Value) (cache : Cache y)
      → IsCache y cache
      → IsResultOf rule (conclude y rule (evaluate_predicate y rule.then_ g cache))
  then_concludes rule g cache i =
      let r = reached_with rule.then_ g cache i in
      concludes rule (evaluate_predicate y rule.then_ g cache) (r.0) (r.1)

  conditional :
      (rule : Rule) (v : Evaluated Bool × Cache y) (rest : Eval y RuleResult)
      → is_reached (v.0) ≡ true
      → IsCache y (v.1)
      → ((cache : Cache y) → IsCache y cache → IsResultOf rule (rest cache))
      → IsResultOf rule (on_condition y rule v rest)
  unfolding result
  conditional rule (ok true, cache) rest h i r = r cache i
  conditional rule (ok false, cache) rest h i r = (refl, refl, i)
  conditional rule (err e, cache) rest h i r = (refl, refl, i)
  conditional rule (unreachable, cache) rest h i r = ground arith

  judges :
      (rule : Rule) (condition : Option Predicate) (g : Value) (cache : Cache y)
      → IsCache y cache
      → IsResultOf rule (judge y rule condition g cache)
  judges rule none g cache i = then_concludes rule g cache i
  judges rule (some p) g cache i =
      let r = reached_with p g cache i in
      conditional rule (evaluate_predicate y p g cache)
        (λ c. conclude y rule (evaluate_predicate y rule.then_ g c)) (r.0) (r.1)
        (then_concludes rule g)

  in_game :
      (rule : Rule) (g : Option Value) (game_name : String) (cache : Cache y)
      → IsCache y cache
      → IsResultOf rule (evaluate_game y rule g game_name cache)
  unfolding result
  in_game rule none game_name cache i = (refl, refl, i)
  in_game rule (some g) game_name cache i = judges rule rule.when g cache i

  chosen :
      (rule : Rule) (b : Bool) (skips : Evaluated RuleResult × Cache y)
      (rest : Evaluated RuleResult × Cache y)
      → IsResultOf rule skips
      → IsResultOf rule rest
      → IsResultOf rule (if b then skips else rest)
  chosen rule true skips rest s r = s
  chosen rule false skips rest s r = r

  pub evaluate_rule-IsResultOf :
      (rule : Rule) (yaml : Value) (game_name : String) (cache : Cache y)
      → IsCache y cache
      → IsResultOf rule (evaluate_rule y rule yaml game_name cache)
  unfolding evaluate_rule result
  evaluate_rule-IsResultOf rule yaml game_name cache i =
      chosen rule (other_game y rule.game game_name) (ok (result rule skipped none), cache)
        (evaluate_game y rule (y.as_mapping_get yaml game_name) game_name cache) (refl, refl, i)
        (in_game rule (y.as_mapping_get yaml game_name) game_name cache i)

  abbrev pub IsResultsOf : List Rule → Evaluated (List RuleResult) × Cache y → Type 0
  IsResultsOf rules (ok rs, cache) =
      (map (λ r. r.rule_name) rs ≡ map (λ r. r.name) rules)
      × (map (λ r. r.severity) rs ≡ map (λ r. r.severity) rules)
      × IsCache y cache
  IsResultsOf rules (err e, cache) = ⊥
  IsResultsOf rules (unreachable, cache) = ⊥
