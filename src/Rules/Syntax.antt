-- ===== src/Rules/Syntax.antt =====
-- The rules (rules.rs), and their validation.
use archipelago_xl.Base.{
  ℕ, String, Bool, true, false, Option, none, some, if◌then◌else◌, ◌==◌, ltb, suc,
}
use archipelago_xl.Base.Int.{ℤ}
use archipelago_xl.Rules.Text.{trim, is_empty}
use archipelago_xl.Rules.Values.{Crates}

pub data Severity : Type 0 where
  info : Severity
  warning : Severity
  error : Severity

pub data Outcome : Type 0 where
  pass : Outcome
  fail : Outcome
  skipped : Outcome
  not_present : Outcome
  error : Outcome

pub data RuleCheck : Type 0 where
  truthy : RuleCheck
  not_truthy : RuleCheck
  equals : (value : String) → RuleCheck
  not_equals : (value : String) → RuleCheck
  greater_than : (value : ℤ) → RuleCheck
  less_than : (value : ℤ) → RuleCheck
  range : (min max : ℤ) → RuleCheck
  regex : (pattern : String) → RuleCheck
  contains : (value : String) → RuleCheck
  not_contains : (value : String) → RuleCheck
  count : (check : RuleCheck) → RuleCheck
  exists : RuleCheck
  not_exists : RuleCheck

mutual
  pub data Predicate : Type 0 where
    check : (path : String) → RuleCheck → Predicate
    and : Predicates → Predicate
    or : Predicates → Predicate
    not : Predicate → Predicate
    at_least : (count : ℕ) → Predicates → Predicate

  -- `Vec<Predicate>`
  pub data Predicates : Type 0 where
    nil : Predicates
    cons : Predicate → Predicates → Predicates

abbrev pub number_of : Predicates → ℕ
number_of nil = 0
number_of (cons p ps) = suc (number_of ps)

pub record Rule : Type 0 where
  pub name : String
  pub game : Option String
  pub when : Option Predicate
  pub then_ : Predicate
  pub severity : Severity

pub record RuleResult : Type 0 where
  pub rule_name : String
  pub outcome : Outcome
  pub severity : Severity
  pub detail : Option String

-- `Rule::result`
unfoldable pub result : Rule → Outcome → Option String → RuleResult
result rule outcome detail = record {
  rule_name = rule.name;
  outcome = outcome;
  severity = rule.severity;
  detail = detail;
}

-- a validation: `none` is `Ok(())`, `some` an error's text
abbrev pub Validation : Type 0
Validation = Option String

abbrev pub then_validate : Validation → Validation → Validation
then_validate none next = next
then_validate (some e) next = some e

abbrev pub is_numeric : RuleCheck → Bool
is_numeric (equals _) = true
is_numeric (not_equals _) = true
is_numeric (greater_than _) = true
is_numeric (less_than _) = true
is_numeric (range _ _) = true
is_numeric _ = false

module _ (y : Crates) where
  abbrev pub validate_check : RuleCheck → Validation
  validate_check (regex pattern) =
      if y.is_pattern pattern then none else some "Invalid regex pattern"
  validate_check (count inner) =
      if is_numeric inner then none else some "Count check must use a numeric comparison"
  validate_check _ = none

  unfoldable mutual
    unfolding trim

    pub validate : Predicate → Validation
    validate (check path c) =
        if is_empty (trim path) then some "Check predicate has an empty path" else validate_check c
    validate (and ps) = validate_each ps
    validate (or ps) = validate_each ps
    validate (not p) = validate p
    validate (at_least n ps) =
        let each = validate_each ps in
        if n == 0
        then some "AtLeast count must be greater than 0"
        else if ltb (number_of ps) n
        then some "AtLeast count exceeds number of predicates"
        else each

    pub validate_each : Predicates → Validation
    validate_each nil = none
    validate_each (cons p ps) = then_validate (validate p) (validate_each ps)

  unfoldable pub validate_rule : Rule → Validation
  unfolding validate
  validate_rule rule = elim rule.when [
    | none ↦ validate rule.then_
    | some condition ↦ then_validate (validate condition) (validate rule.then_)
  ]
