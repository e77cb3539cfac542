-- ===== src/Rules/Random.antt =====
-- The random values of a YAML (rules.rs): their bounds, and the checks of them.
use text.Mathlib.Text.{starts_with}
use archipelago_xl.Base.{
  ℕ, ◌-◌, String, Bool, true, false, not, ◌&&◌, ◌||◌, Option, none, some, List, [], ◌∷◌, length,
  leb, str_eq, if◌then◌else◌,
}
use archipelago_xl.Base.Int.{ℤ, pos, leb_ℤ, ltb_ℤ, eqb_ℤ}
use archipelago_xl.Rules.Text.{parse_i64, split}
use archipelago_xl.Rules.Syntax.{
  RuleCheck, truthy, not_truthy, equals, not_equals, greater_than, less_than, range, regex,
  contains, not_contains, count, exists, not_exists,
}

-- What an evaluation ends in: a value, an error, or a panic of `unreachable!`.
pub data Evaluated (A : Type 0) : Type 0 where
  ok : A → Evaluated A
  err : String → Evaluated A
  unreachable : Evaluated A

abbrev pub zero_ℤ : ℤ
zero_ℤ = pos 0

abbrev pub min_ℤ : ℤ → ℤ → ℤ
min_ℤ a b = if leb_ℤ a b then a else b

abbrev pub max_ℤ : ℤ → ℤ → ℤ
max_ℤ a b = if leb_ℤ a b then b else a

abbrev pub some_and : {A : Type 0} → Option A → (A → Bool) → Bool
some_and none p = false
some_and (some a) p = p a

abbrev pub none_or : {A : Type 0} → Option A → (A → Bool) → Bool
none_or none p = true
none_or (some a) p = p a

-- `n` elements from the end, the last one being 1
abbrev nth_last : ℕ → List String → Option String
nth_last n parts = nth (length parts - n) parts
  where
    nth : ℕ → List String → Option String
    nth k [] = none
    nth ℕ.zero (x ∷ xs) = some x
    nth (ℕ.suc k) (x ∷ xs) = nth k xs

abbrev pub parse_part : Option String → Option ℤ
parse_part none = none
parse_part (some s) = parse_i64 s

abbrev pub bounds_of : Option ℤ → Option ℤ → Option (Option (ℤ × ℤ))
bounds_of (some a) (some b) = some (some (min_ℤ a b, max_ℤ a b))
bounds_of _ _ = none

abbrev random_range : List String → Option (Option (ℤ × ℤ))
random_range parts =
    if leb 4 (length parts)
    then bounds_of (parse_part (nth_last 2 parts)) (parse_part (nth_last 1 parts))
    else none

-- `parse_random` on the text of a value: `some none` is random within bounds that are not known
unfoldable pub parse_random_text : String → Option (Option (ℤ × ℤ))
unfolding parse_i64 split
parse_random_text s =
    if str_eq s "random"
      || str_eq s "random-low"
      || str_eq s "random-middle"
      || str_eq s "random-high"
    then some none
    else if starts_with s "random-range"
    then random_range (split 45 s)
    else none

abbrev pub within : ℤ → ℤ → ℤ → Bool
within min max v = leb_ℤ min v && leb_ℤ v max

unfoldable pub check_bounds : ℤ → ℤ → RuleCheck → Evaluated Bool
check_bounds min max truthy = ok (not (eqb_ℤ min zero_ℤ) || not (eqb_ℤ max zero_ℤ))
check_bounds min max not_truthy = ok (leb_ℤ min zero_ℤ && leb_ℤ zero_ℤ max)
check_bounds min max (equals value) = ok (some_and (parse_i64 value) (within min max))
check_bounds min max (not_equals value) =
    ok (some_and (parse_i64 value) (λ v. not (eqb_ℤ min max) || not (eqb_ℤ v min)))
check_bounds min max (greater_than value) = ok (ltb_ℤ value max)
check_bounds min max (less_than value) = ok (ltb_ℤ min value)
check_bounds min max (range rmin rmax) = ok (leb_ℤ rmin max && leb_ℤ min rmax)
check_bounds min max (regex _) = ok true
check_bounds min max (contains _) = ok true
check_bounds min max (count _) = ok false
check_bounds min max (not_contains _) = ok false
check_bounds min max exists = unreachable
check_bounds min max not_exists = unreachable

unfoldable pub check_random : Option (ℤ × ℤ) → RuleCheck → Evaluated Bool
unfolding check_bounds
check_random none c = ok true
check_random (some (min, max)) c = check_bounds min max c

unfoldable pub evaluate_count_check : ℤ → RuleCheck → Evaluated Bool
evaluate_count_check n (equals value) = ok (some_and (parse_i64 value) (eqb_ℤ n))
evaluate_count_check n (not_equals value) = ok (none_or (parse_i64 value) (λ v. not (eqb_ℤ n v)))
evaluate_count_check n (greater_than value) = ok (ltb_ℤ value n)
evaluate_count_check n (less_than value) = ok (ltb_ℤ n value)
evaluate_count_check n (range min max) = ok (leb_ℤ min n && leb_ℤ n max)
evaluate_count_check n _ = ok false
