-- ===== src/Rules/Predicates/Failing.antt =====
-- When a rule fails.
use archipelago_xl.Base.{
  ◌≡◌, ◌↔◌, refl, sym, ◌∙◌, String, Bool, true, false, Option, none, some, [], arith, if◌then◌else◌,
}
use archipelago_xl.Rules.Values.{Crates}
use archipelago_xl.Rules.Syntax.{Predicate, Rule, RuleResult, Outcome, fail, skipped, result}
use archipelago_xl.Rules.Random.{Evaluated, ok, err, unreachable}
use archipelago_xl.Rules.Checks.{Cache, Eval}
use archipelago_xl.Rules.Predicates.{
  evaluate_predicate, other_game, conclude, on_condition, judge, evaluate_game, evaluate_rule,
}
use archipelago_xl.Rules.Predicates.Caching.{IsCache}
use archipelago_xl.Rules.Predicates.Evaluating.{evaluate_predicate-IsSound}

abbrev pub outcome_of : Evaluated RuleResult → Option Outcome
outcome_of (ok r) = some r.outcome
outcome_of _ = none

module _ (y : Crates) where
  open y use {Value}

  abbrev Fails : Evaluated RuleResult × Cache y → Type 0
  Fails v = outcome_of (v.0) ≡ some fail

  -- a predicate holds of a value, evaluated with an empty cache
  abbrev pub Holds : Predicate → Value → Type 0
  Holds p g = (evaluate_predicate y p g []).0 ≡ ok true

  abbrev pub IsMet : Option Predicate → Value → Type 0
  IsMet none g = Unit
  IsMet (some p) g = Holds p g

  -- the rule is for the game, which the YAML has, and its condition and predicate hold there
  abbrev pub IsViolated : Rule → Option Value → Type 0
  IsViolated rule none = ⊥
  IsViolated rule (some g) = IsMet rule.when g × Holds rule.then_ g

  Holds-iff :
      (p : Predicate) (g : Value) (cache : Cache y)
      → IsCache y cache
      → ((evaluate_predicate y p g cache).0 ≡ ok true) ↔ Holds p g
  Holds-iff p g cache i =
      let s = evaluate_predicate-IsSound y g p in
      (
        λ h. (s.gives [] (ground arith)).0 ∙ sym ((s.gives cache i).0) ∙ h,
        λ h. (s.gives cache i).0 ∙ sym ((s.gives [] (ground arith)).0) ∙ h,
      )

  conclude-Fails :
      (rule : Rule) (v : Evaluated Bool × Cache y) → Fails (conclude y rule v) ↔ (v.0 ≡ ok true)
  unfolding result
  conclude-Fails rule (ok true, c) = ground arith
  conclude-Fails rule (ok false, c) = ground arith
  conclude-Fails rule (err e, c) = ground arith
  conclude-Fails rule (unreachable, c) = ground arith

  on_condition-Fails :
      (rule : Rule) (v : Evaluated Bool × Cache y) (rest : Eval y RuleResult)
      → Fails (on_condition y rule v rest) ↔ (v.0 ≡ ok true) × Fails (rest (v.1))
  unfolding result
  on_condition-Fails rule (ok true, c) rest = ground arith
  on_condition-Fails rule (ok false, c) rest = ground arith
  on_condition-Fails rule (err e, c) rest = ground arith
  on_condition-Fails rule (unreachable, c) rest = ground arith

  then-Fails :
      (rule : Rule) (g : Value) (cache : Cache y)
      → IsCache y cache
      → Fails (conclude y rule (evaluate_predicate y rule.then_ g cache)) ↔ Holds rule.then_ g
  then-Fails rule g cache i =
      let c = conclude-Fails rule (evaluate_predicate y rule.then_ g cache) in
      let h = Holds-iff rule.then_ g cache i in (λ f. h.0 (c.0 f), λ holds. c.1 (h.1 holds))

  judge-Fails :
      (rule : Rule) (condition : Option Predicate) (g : Value) (cache : Cache y)
      → IsCache y cache
      → Fails (judge y rule condition g cache) ↔ (IsMet condition g × Holds rule.then_ g)
  judge-Fails rule none g cache i =
      let t = then-Fails rule g cache i in (λ f. (tt, t.0 f), λ h. t.1 (h.1))
  judge-Fails rule (some p) g cache i =
      let v = evaluate_predicate y p g cache in
      let c =
        on_condition-Fails rule v (λ c. conclude y rule (evaluate_predicate y rule.then_ g c)) in
      let h = Holds-iff p g cache i in
      let t = then-Fails rule g (v.1) (((evaluate_predicate-IsSound y g p).gives cache i).1) in
      (λ f. (h.0 ((c.0 f).0), t.0 ((c.0 f).1)), λ met. c.1 (h.1 (met.0), t.1 (met.1)))

  game-Fails :
      (rule : Rule) (g : Option Value) (game_name : String) (cache : Cache y)
      → IsCache y cache
      → Fails (evaluate_game y rule g game_name cache) ↔ IsViolated rule g
  unfolding result
  game-Fails rule none game_name cache i = ground arith
  game-Fails rule (some g) game_name cache i = judge-Fails rule rule.when g cache i

  unless_other :
      (rule : Rule) (b : Bool) (cache : Cache y) (rest : Evaluated RuleResult × Cache y)
      (V : Type 0)
      → Fails rest ↔ V
      → Fails (if b then (ok (result rule skipped none), cache) else rest) ↔ ((b ≡ false) × V)
  unfolding result
  unless_other rule true cache rest V h = ground arith
  unless_other rule false cache rest V h = (λ f. (refl, h.0 f), λ v. h.1 (v.1))

  -- With a cache that keeps to its entries and its limit, a rule fails just when it is for the
  -- game, the YAML has a section of the game, and the rule's condition, if it has one, and its
  -- predicate hold of that section; in every other case its outcome is not a failure.
  pub evaluate_rule-fails_iff :
      (rule : Rule) (yaml : Value) (game_name : String) (cache : Cache y)
      → IsCache y cache
      → (outcome_of ((evaluate_rule y rule yaml game_name cache).0) ≡ some fail) ↔ (
          (other_game y rule.game game_name ≡ false)
          × IsViolated rule (y.as_mapping_get yaml game_name))
  unfolding evaluate_rule result
  evaluate_rule-fails_iff rule yaml game_name cache i =
      unless_other rule (other_game y rule.game game_name) cache
        (evaluate_game y rule (y.as_mapping_get yaml game_name) game_name cache)
        (IsViolated rule (y.as_mapping_get yaml game_name))
        (game-Fails rule (y.as_mapping_get yaml game_name) game_name cache i)
