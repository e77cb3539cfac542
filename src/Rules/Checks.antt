-- ===== src/Rules/Checks.antt =====
-- The checks of a value (rules.rs), over the thread's cache of regular expressions.
use text.Mathlib.Text.{starts_with}
use archipelago_xl.Base.{
  String, Bool, true, false, not, ◌&&◌, ◌||◌, Option, none, some, is_some, unwrap_or, ◌⊎◌, List, [],
  ◌∷◌, any, all, length, leb, str_eq, if◌then◌else◌, inl, inr,
}
use archipelago_xl.Base.Int.{ℤ, pos, ltb_ℤ, eqb_ℤ}
use archipelago_xl.Rules.Text.{parse_i64, split, trim}
use archipelago_xl.Rules.Values.{Crates, yaml_value_as_string}
use archipelago_xl.Rules.Syntax.{
  RuleCheck, truthy, not_truthy, equals, not_equals, greater_than, less_than, range, regex,
  contains, not_contains, count, exists, not_exists,
}
use archipelago_xl.Rules.Random.{
  Evaluated, ok, err, unreachable, zero_ℤ, some_and, parse_part, parse_random_text, within,
  check_random, evaluate_count_check,
}

module _ (y : Crates) where
  open y use {Value, Regex}

  -- the thread's `REGEX_CACHE`, the entry that was made last first
  abbrev pub Cache : Type 0
  Cache = List (String × Regex)

  abbrev pub Eval : Type 0 → Type 0
  Eval A = Cache → Evaluated A × Cache

  abbrev pub value_of : Evaluated Bool → Eval Bool
  value_of r cache = (r, cache)

  abbrev pub and_then : {A B : Type 0} → Evaluated A × Cache → (A → Eval B) → Evaluated B × Cache
  and_then (ok a, cache) f = f a cache
  and_then (err e, cache) f = (err e, cache)
  and_then (unreachable, cache) f = (unreachable, cache)

  unfoldable pub lookup : String → Cache → Option Regex
  lookup pattern [] = none
  lookup pattern ((p, re) ∷ cache) =
      let rest = lookup pattern cache in if str_eq pattern p then some re else rest

  -- the cache is emptied before the entry that would exceed `REGEX_CACHE_MAX_ENTRIES`
  abbrev pub make_room : Cache → Cache
  make_room cache = if leb 256 (length cache) then [] else cache

  abbrev pub build_and_keep : String → Cache → (Regex ⊎ String) → Evaluated Regex × Cache
  build_and_keep pattern cache (inl re) = (ok re, (pattern, re) ∷ make_room cache)
  build_and_keep pattern cache (inr e) = (err e, cache)

  unfoldable pub cached_regex : String → Eval Regex
  unfolding lookup
  cached_regex pattern cache = elim (lookup pattern cache) [
    | some re ↦ (ok re, cache)
    | none ↦ build_and_keep pattern cache (y.build pattern)
  ]

  abbrev pub text_of : Value → String
  text_of val = unwrap_or (yaml_value_as_string y val) ""

  abbrev word_is_trueish : String → Bool
  word_is_trueish value =
      str_eq value "true"
      || str_eq value "all"
      || str_eq value "full"
      || starts_with value "random"
      || starts_with value "enable"

  abbrev text_is_trueish : String → Bool
  text_is_trueish s = elim (parse_i64 s) [
    | some n ↦ not (eqb_ℤ n zero_ℤ)
    | none ↦ word_is_trueish (y.to_lowercase s)
  ]

  abbrev trueish : Option Bool → Option ℤ → Option String → Bool
  trueish (some b) i s = b
  trueish none (some i) s = not (eqb_ℤ i zero_ℤ)
  trueish none none s = some_and s text_is_trueish

  unfoldable pub is_trueish : Value → Bool
  unfolding parse_i64
  is_trueish val = trueish (y.as_bool val) (y.as_integer val) (y.as_str val)

  unfoldable pub yaml_value_as_i64 : Value → Option ℤ
  unfolding parse_i64
  yaml_value_as_i64 val = elim (y.as_integer val) [
    | some i ↦ some i
    | none ↦ parse_part (y.as_str val)
  ]

  unfoldable pub parse_random : Value → Option (Option (ℤ × ℤ))
  unfolding parse_random_text
  parse_random val = elim (y.as_str val) [ none ↦ none | some s ↦ parse_random_text s ]

  abbrev has_item : String → List Value → Bool
  has_item value seq = any (λ item. str_eq (text_of item) value) seq

  abbrev has_key : String → List (Value × Value) → Bool
  has_key value entries =
      any (λ entry. str_eq (text_of (entry.0)) value && is_trueish (entry.1)) entries

  abbrev has_part : String → String → Bool
  has_part value s = any (λ part. str_eq (trim part) value) (split 44 s)

  -- the test that `Contains` and `NotContains` share
  unfoldable pub contained : String → Value → Bool
  unfolding is_trueish yaml_value_as_string split trim
  contained value val = in_value (y.as_sequence val) (y.as_mapping val)
    where
      in_value : Option (List Value) → Option (List (Value × Value)) → Bool
      in_value (some seq) m = has_item value seq
      in_value none (some entries) = has_key value entries
      in_value none none = has_part value (text_of val)

  -- `check_single_value` on a value that is not random
  abbrev pub check_fixed : Value → RuleCheck → Eval Bool
  check_fixed val truthy = value_of (ok (is_trueish val))
  check_fixed val not_truthy = value_of (ok (not (is_trueish val)))
  check_fixed val (equals value) = value_of (ok (str_eq (text_of val) value))
  check_fixed val (not_equals value) = value_of (ok (not (str_eq (text_of val) value)))
  check_fixed val (greater_than value) =
      value_of (ok (some_and (yaml_value_as_i64 val) (ltb_ℤ value)))
  check_fixed val (less_than value) =
      value_of (ok (some_and (yaml_value_as_i64 val) (λ v. ltb_ℤ v value)))
  check_fixed val (range min max) =
      value_of (ok (some_and (yaml_value_as_i64 val) (within min max)))
  check_fixed val (regex pattern) = λ cache.
      and_then (cached_regex pattern cache) (λ re. value_of (ok (y.is_match re (text_of val))))
  check_fixed val (contains value) = value_of (ok (contained value val))
  check_fixed val (not_contains value) = value_of (ok (not (contained value val)))
  check_fixed val (count _) = value_of unreachable
  check_fixed val exists = value_of unreachable
  check_fixed val not_exists = value_of unreachable

  abbrev pub check_by : Value → RuleCheck → Option (Option (ℤ × ℤ)) → Eval Bool
  check_by val c none = check_fixed val c
  check_by val c (some bounds) = value_of (check_random bounds c)

  unfoldable pub check_single_value : Value → RuleCheck → Eval Bool
  check_single_value val c = check_by val c (parse_random val)

  abbrev pub weight_of : Value → ℤ
  weight_of weight = unwrap_or (y.as_integer weight) zero_ℤ

  -- the keys of a weighted map that have a weight, until one passes
  unfoldable pub check_weighted : List (Value × Value) → RuleCheck → Eval Bool
  check_weighted [] c cache = (ok false, cache)
  check_weighted ((key, weight) ∷ entries) c cache =
      let rest = check_weighted entries c in
      if eqb_ℤ (weight_of weight) zero_ℤ
      then rest cache
      else and_then (check_single_value key c cache)
          (λ passed. if passed then value_of (ok true) else rest)

  abbrev pub looks_like_weighted : List (Value × Value) → Bool
  looks_like_weighted [] = false
  looks_like_weighted (entry ∷ entries) = all (λ e. is_some (y.as_integer (e.1))) (entry ∷ entries)

  abbrev pub is_containment : RuleCheck → Bool
  is_containment (contains _) = true
  is_containment (not_contains _) = true
  is_containment _ = false

  abbrev pub count_of : Option (List Value) → Option (List (Value × Value)) → Option ℤ
  count_of (some seq) m = some (pos (length seq))
  count_of none (some entries) = some (pos (length entries))
  count_of none none = none

  abbrev pub evaluate_count : Option ℤ → RuleCheck → Evaluated Bool
  evaluate_count none inner = ok false
  evaluate_count (some n) inner = evaluate_count_check n inner

  abbrev pub evaluate_other : Value → Option (List (Value × Value)) → RuleCheck → Eval Bool
  evaluate_other val none c = check_single_value val c
  evaluate_other val (some entries) c =
      if looks_like_weighted entries && not (is_containment c)
      then check_weighted entries c
      else check_single_value val c

  unfoldable pub evaluate_check : Value → RuleCheck → Eval Bool
  evaluate_check val (count inner) =
      value_of (evaluate_count (count_of (y.as_sequence val) (y.as_mapping val)) inner)
  evaluate_check val c = evaluate_other val (y.as_mapping val) c
