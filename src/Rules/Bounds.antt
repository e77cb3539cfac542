-- ===== src/Rules/Bounds.antt =====
-- The check of a random value, against the values it may take.
use archipelago_xl.Base.{
  ◌⊎◌, Bool-cases, ◌≡◌, ◌↔◌, String, Bool, true, false, not, ◌&&◌, ◌||◌, some, arith, is_some,
  Option-cases, inl, inr,
}
use archipelago_xl.Base.Int.{ℤ, ◌≤ℤ◌, leb_ℤ, ltb_ℤ, eqb_ℤ, eqb_ℤ_iff}
use archipelago_xl.Rules.Text.{parse_i64}
use archipelago_xl.Rules.Syntax.{
  RuleCheck, equals, not_equals, greater_than, less_than, range, is_numeric,
}
use archipelago_xl.Rules.Random.{
  Evaluated, ok, check_random, evaluate_count_check, some_and, within,
}

-- the value that a check compares with is a number
abbrev pub IsReadable : RuleCheck → Type 0
IsReadable (equals value) = is_some (parse_i64 value) ≡ true
IsReadable (not_equals value) = is_some (parse_i64 value) ≡ true
IsReadable (range min max) = min ≤ℤ max
IsReadable _ = Unit

-- some number within the bounds passes the check that is made of numbers
abbrev pub MayPass : ℤ → ℤ → RuleCheck → Type 0
MayPass min max c = (v : ℤ) × (min ≤ℤ v) × (v ≤ℤ max) × (evaluate_count_check v c ≡ ok true)

abbrev IsFair : ℤ → ℤ → RuleCheck → Type 0
IsFair min max c = (check_random (some (min, max)) c ≡ ok true) ↔ MayPass min max c

ok_true : (b : Bool) → ◌≡◌ {A = Evaluated Bool} (ok b) (ok true) ↔ (b ≡ true)
ok_true b = ground arith

greater-IsFair : (min max value : ℤ) → min ≤ℤ max → IsFair min max (greater_than value)
unfolding check_random evaluate_count_check
greater-IsFair min max value h = (λ e. (max, h, omega arith, e), λ p. back (p.0) (p.2) (p.3))
  where
    back :
        (v : ℤ)
        → v ≤ℤ max
        → ◌≡◌ {A = Evaluated Bool} (ok (ltb_ℤ value v)) (ok true)
        → ◌≡◌ {A = Evaluated Bool} (ok (ltb_ℤ value max)) (ok true)
    back v i e = ground arith

less-IsFair : (min max value : ℤ) → min ≤ℤ max → IsFair min max (less_than value)
unfolding check_random evaluate_count_check
less-IsFair min max value h = (λ e. (min, omega arith, h, e), λ p. back (p.0) (p.1) (p.3))
  where
    back :
        (v : ℤ)
        → min ≤ℤ v
        → ◌≡◌ {A = Evaluated Bool} (ok (ltb_ℤ v value)) (ok true)
        → ◌≡◌ {A = Evaluated Bool} (ok (ltb_ℤ min value)) (ok true)
    back v i e = ground arith

range-IsFair : (min max low high : ℤ) → min ≤ℤ max → low ≤ℤ high → IsFair min max (range low high)
unfolding check_random evaluate_count_check
range-IsFair min max low high h k =
    (λ e. meet (Bool-cases (leb_ℤ min low)) e, λ p. back (p.0) (p.1) (p.2) (p.3))
  where
    meet :
        (leb_ℤ min low ≡ true) ⊎ (leb_ℤ min low ≡ false)
        → ◌≡◌ {A = Evaluated Bool} (ok (leb_ℤ low max && leb_ℤ min high)) (ok true)
        → MayPass min max (range low high)
    meet (inl i) e = (low, ground arith, ground arith, ground arith)
    meet (inr i) e = (min, omega arith, h, ground arith)

    back :
        (v : ℤ)
        → min ≤ℤ v
        → v ≤ℤ max
        → ◌≡◌ {A = Evaluated Bool} (ok (leb_ℤ low v && leb_ℤ v high)) (ok true)
        → ◌≡◌ {A = Evaluated Bool} (ok (leb_ℤ low max && leb_ℤ min high)) (ok true)
    back v i j e = ground arith

abbrev pub Read : String → ℤ → Type 0
Read value n = parse_i64 value ≡ some n

equals-IsFair : (min max n : ℤ) (value : String) → Read value n → IsFair min max (equals value)
unfolding check_random evaluate_count_check
equals-IsFair min max n value r = (
  λ e. (n, ground arith, ground arith, ground (arith, eqb_ℤ_iff n n)),
  λ p. back (p.0) (p.1) (p.2) (p.3),
)
  where
    back :
        (v : ℤ)
        → min ≤ℤ v
        → v ≤ℤ max
        → ◌≡◌ {A = Evaluated Bool} (ok (some_and (parse_i64 value) (eqb_ℤ v))) (ok true)
        → ◌≡◌ {A = Evaluated Bool} (ok (some_and (parse_i64 value) (within min max))) (ok true)
    back v i j e = ground arith

not_equals-IsFair :
    (min max n : ℤ) (value : String) → min ≤ℤ max → Read value n → IsFair min max (not_equals value)
unfolding check_random evaluate_count_check
not_equals-IsFair min max n value h r =
    (λ e. choose (Bool-cases (eqb_ℤ n min)) e, λ p. back (p.0) (p.1) (p.2) (p.3))
  where
    choose :
        (eqb_ℤ n min ≡ true) ⊎ (eqb_ℤ n min ≡ false)
        → ◌≡◌ {A = Evaluated Bool}
            (ok (some_and (parse_i64 value) (λ v. not (eqb_ℤ min max) || not (eqb_ℤ v min))))
            (ok true)
        → MayPass min max (not_equals value)
    choose (inl i) e = (max, h, omega arith, ground arith)
    choose (inr i) e = (min, omega arith, h, ground arith)

    back :
        (v : ℤ)
        → min ≤ℤ v
        → v ≤ℤ max
        → evaluate_count_check v (not_equals value) ≡ ok true
        → ◌≡◌ {A = Evaluated Bool}
            (ok (some_and (parse_i64 value) (λ v. not (eqb_ℤ min max) || not (eqb_ℤ v min))))
            (ok true)
    back v i j e = ground arith

-- Of a value that is random within bounds, a numeric check passes just when some number within
-- the bounds passes it as a count does; the check is one whose text reads as a number, or whose
-- range is not empty.
pub check_random_iff :
    (min max : ℤ) (c : RuleCheck)
    → min ≤ℤ max
    → is_numeric c ≡ true
    → IsReadable c
    → (check_random (some (min, max)) c ≡ ok true) ↔ MayPass min max c
check_random_iff min max (equals value) h numeric r = elim (Option-cases (parse_i64 value)) [
  | inl unread ↦ ground arith
  | inr (n, e) ↦ equals-IsFair min max n value e
]
check_random_iff min max (not_equals value) h numeric r = elim (Option-cases (parse_i64 value)) [
  | inl unread ↦ ground arith
  | inr (n, e) ↦ not_equals-IsFair min max n value h e
]
check_random_iff min max (greater_than value) h numeric r = greater-IsFair min max value h
check_random_iff min max (less_than value) h numeric r = less-IsFair min max value h
check_random_iff min max (range low high) h numeric r = range-IsFair min max low high h r
check_random_iff min max _ h numeric r = ground arith
