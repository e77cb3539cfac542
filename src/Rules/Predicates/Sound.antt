-- ===== src/Rules/Predicates/Sound.antt =====
-- The evaluation of predicates and of rules, whatever the cache holds.
use archipelago_xl.Base.{
  ℕ, ◌+◌, ◌≡◌, refl, ap, sym, ◌∙◌, subst, String, Bool, true, false, ◌&&◌, Option, none, some,
  is_some, List, [], ◌∷◌, leb, arith, if◌then◌else◌, Bool-cases, inl, inr,
}
use archipelago_xl.Base as Shared
use archipelago_xl.Base.Int.{ℤ, eqb_ℤ}
use archipelago_xl.Rules.Values.{Crates}
use archipelago_xl.Rules.Syntax.{
  RuleCheck, truthy, not_truthy, equals, not_equals, greater_than, less_than, range, regex,
  contains, not_contains, count, exists, not_exists,
}
use archipelago_xl.Rules.Random.{ok, zero_ℤ, check_random, evaluate_count_check}
use archipelago_xl.Rules.Checks.{
  value_of, check_fixed, check_by, count_of, check_single_value, check_weighted, weight_of,
  looks_like_weighted, is_containment, evaluate_count, evaluate_other, evaluate_check, parse_random,
  text_of,
}
use archipelago_xl.Rules.Predicates.{check_or, evaluate_at}
use archipelago_xl.Rules.Predicates.Caching.{
  IsSound, is_reached, value_of-IsSound, cached_regex-IsSound, and_then-IsSound, if-IsSound,
  choice-IsSound,
}

-- the checks that `evaluate_predicate` and `evaluate_check` pass on to a value
abbrev pub is_of_value : RuleCheck → Bool
is_of_value (count _) = false
is_of_value exists = false
is_of_value not_exists = false
is_of_value _ = true

count_check-reached : (n : ℤ) (c : RuleCheck) → is_reached (evaluate_count_check n c) ≡ true
unfolding evaluate_count_check
count_check-reached n c = ground arith

random-reached :
    (bounds : Option (ℤ × ℤ)) (c : RuleCheck)
    → is_of_value c ≡ true
    → is_reached (check_random bounds c) ≡ true
unfolding check_random
random-reached bounds c h = ground arith

module _ (y : Crates) where
  open y use {Value}

  fixed-IsSound :
      (val : Value) (c : RuleCheck) → is_of_value c ≡ true → IsSound y (check_fixed y val c)
  fixed-IsSound val truthy h = value_of-IsSound y _ refl
  fixed-IsSound val not_truthy h = value_of-IsSound y _ refl
  fixed-IsSound val (equals value) h = value_of-IsSound y _ refl
  fixed-IsSound val (not_equals value) h = value_of-IsSound y _ refl
  fixed-IsSound val (greater_than value) h = value_of-IsSound y _ refl
  fixed-IsSound val (less_than value) h = value_of-IsSound y _ refl
  fixed-IsSound val (range min max) h = value_of-IsSound y _ refl
  fixed-IsSound val (regex pattern) h =
      and_then-IsSound y (λ re. value_of y (ok (y.is_match re (text_of y val))))
        (cached_regex-IsSound y pattern) (λ re. value_of-IsSound y _ refl)
  fixed-IsSound val (contains value) h = value_of-IsSound y _ refl
  fixed-IsSound val (not_contains value) h = value_of-IsSound y _ refl
  fixed-IsSound val (count inner) h = ground arith
  fixed-IsSound val exists h = ground arith
  fixed-IsSound val not_exists h = ground arith

  single_by :
      (val : Value) (c : RuleCheck) (random : Option (Option (ℤ × ℤ)))
      → is_of_value c ≡ true
      → IsSound y (check_by y val c random)
  single_by val c none h = fixed-IsSound val c h
  single_by val c (some bounds) h =
      value_of-IsSound y (check_random bounds c) (random-reached bounds c h)

  single-IsSound :
      (val : Value) (c : RuleCheck) → is_of_value c ≡ true → IsSound y (check_single_value y val c)
  unfolding check_single_value
  single-IsSound val c h = single_by val c (parse_random y val) h

  weighted-IsSound :
      (entries : List (Value × Value)) (c : RuleCheck)
      → is_of_value c ≡ true
      → IsSound y (check_weighted y entries c)
  unfolding check_weighted
  weighted-IsSound [] c h = value_of-IsSound y (ok false) refl
  weighted-IsSound ((key, weight) ∷ entries) c h =
      choice-IsSound y (eqb_ℤ (weight_of y weight) zero_ℤ) (weighted-IsSound entries c h) (
        and_then-IsSound y
          (λ passed. if passed then value_of y (ok true) else check_weighted y entries c)
          (single-IsSound key c h)
          (λ passed.
            if-IsSound y passed (value_of-IsSound y (ok true) refl) (weighted-IsSound entries c h)))

  other-IsSound :
      (val : Value) (entries : Option (List (Value × Value))) (c : RuleCheck)
      → is_of_value c ≡ true
      → IsSound y (evaluate_other y val entries c)
  other-IsSound val none c h = single-IsSound val c h
  other-IsSound val (some entries) c h =
      if-IsSound y (looks_like_weighted y entries && Shared.not (is_containment y c))
        (weighted-IsSound entries c h) (single-IsSound val c h)

  count-reached : (n : Option ℤ) (inner : RuleCheck) → is_reached (evaluate_count y n inner) ≡ true
  count-reached none inner = refl
  count-reached (some n) inner = count_check-reached n inner

  abbrev pub is_of_path : RuleCheck → Bool
  is_of_path exists = true
  is_of_path not_exists = true
  is_of_path _ = false

  check-IsSound :
      (val : Value) (c : RuleCheck) → is_of_path c ≡ false → IsSound y (evaluate_check y val c)
  unfolding evaluate_check
  check-IsSound val truthy h = other-IsSound val (y.as_mapping val) truthy refl
  check-IsSound val not_truthy h = other-IsSound val (y.as_mapping val) not_truthy refl
  check-IsSound val (equals v) h = other-IsSound val (y.as_mapping val) (equals v) refl
  check-IsSound val (not_equals v) h = other-IsSound val (y.as_mapping val) (not_equals v) refl
  check-IsSound val (greater_than v) h = other-IsSound val (y.as_mapping val) (greater_than v) refl
  check-IsSound val (less_than v) h = other-IsSound val (y.as_mapping val) (less_than v) refl
  check-IsSound val (range a b) h = other-IsSound val (y.as_mapping val) (range a b) refl
  check-IsSound val (regex p) h = other-IsSound val (y.as_mapping val) (regex p) refl
  check-IsSound val (contains v) h = other-IsSound val (y.as_mapping val) (contains v) refl
  check-IsSound val (not_contains v) h = other-IsSound val (y.as_mapping val) (not_contains v) refl
  check-IsSound val (count inner) h =
      value_of-IsSound y _ (count-reached (count_of y (y.as_sequence val) (y.as_mapping val)) inner)
  check-IsSound val exists h = ground arith
  check-IsSound val not_exists h = ground arith

  or-IsSound :
      (missing : Bool) (val : Option Value) (c : RuleCheck)
      → is_of_path c ≡ false
      → IsSound y (check_or y missing val c)
  or-IsSound missing none c h = value_of-IsSound y _ refl
  or-IsSound missing (some val) c h = check-IsSound val c h

  pub at-IsSound : (val : Option Value) (c : RuleCheck) → IsSound y (evaluate_at y val c)
  at-IsSound val truthy = or-IsSound false val truthy refl
  at-IsSound val not_truthy = or-IsSound false val not_truthy refl
  at-IsSound val (equals v) = or-IsSound false val (equals v) refl
  at-IsSound val (not_equals v) = or-IsSound false val (not_equals v) refl
  at-IsSound val (greater_than v) = or-IsSound false val (greater_than v) refl
  at-IsSound val (less_than v) = or-IsSound false val (less_than v) refl
  at-IsSound val (range a b) = or-IsSound false val (range a b) refl
  at-IsSound val (regex p) = or-IsSound false val (regex p) refl
  at-IsSound val (contains v) = or-IsSound false val (contains v) refl
  at-IsSound val (not_contains v) = or-IsSound true val (not_contains v) refl
  at-IsSound val (count inner) = or-IsSound false val (count inner) refl
  at-IsSound val exists = value_of-IsSound y _ refl
  at-IsSound val not_exists = value_of-IsSound y _ refl
