-- ===== src/Rules/Text.antt =====
-- What rules.rs uses of the standard library's texts: `parse::<i64>`, `to_string`, `split`,
-- `trim` and `to_lowercase`.
use Prim.Native.Char.{Char, code}
use Prim.Native.Nat.{◌/◌, ◌%◌}
use Prim.Native.String.{[], ◌∷◌, ◌++◌, slice}
use archipelago_xl.Base.{
  ℕ, zero, suc, ◌+◌, ◌-◌, ◌*◌, ◌^◌, String, Bool, true, false, ◌&&◌, List, Option, none, some, leb,
  ltb, ◌==◌, if◌then◌else◌,
}
use archipelago_xl.Base.Int.{ℤ, pos, negsuc}
use mathlib.Core.List as Seq
use archipelago_xl.WordDiff.Words.{is_whitespace}

abbrev digit? : Char → Option ℕ
digit? c = if leb 48 (code c) && leb (code c) 57 then some (code c - 48) else none

abbrev push_digit : ℕ → Option ℕ → Option ℕ
push_digit n none = none
push_digit n (some d) = some (n * 10 + d)

abbrev parse_digits : Option ℕ → String → Option ℕ
parse_digits n [] = n
parse_digits none (c ∷ s) = none
parse_digits (some n) (c ∷ s) = parse_digits (push_digit n (digit? c)) s

abbrev parse_ℕ : String → Option ℕ
parse_ℕ [] = none
parse_ℕ (c ∷ s) = parse_digits (some 0) (c ∷ s)

abbrev in_range : Bool → Option ℕ → Option ℤ
in_range negative none = none
in_range true (some zero) = some (pos 0)
in_range true (some (suc n)) = if ltb n (2 ^ 63) then some (negsuc n) else none
in_range false (some n) = if ltb n (2 ^ 63) then some (pos n) else none

-- `str::parse::<i64>`: an optional sign and decimal digits, whose value fits
unfoldable pub parse_i64 : String → Option ℤ
parse_i64 [] = none
parse_i64 (c ∷ s) =
    if code c == 45
    then in_range true (parse_ℕ s)
    else if code c == 43
    then in_range false (parse_ℕ s)
    else in_range false (parse_ℕ (c ∷ s))

-- the decimal digits, the last one first; an i64 has at most 19 of them
abbrev show_digits : (fuel : ℕ) → ℕ → String → String
show_digits zero n done = done
show_digits (suc fuel) n done =
    let next = slice "0123456789" (n % 10) 1 ++ done in
    let rest = show_digits fuel (n / 10) next in if n / 10 == 0 then next else rest

unfoldable pub i64_to_string : ℤ → String
i64_to_string (pos n) = show_digits 19 n []
i64_to_string (negsuc n) = "-" ++ show_digits 19 (suc n) []

abbrev in_front : Char → List String → List String
in_front c Seq.[] = Seq.◌∷◌ (c ∷ []) Seq.[]
in_front c (Seq.◌∷◌ part parts) = Seq.◌∷◌ (c ∷ part) parts

-- `str::split` at a character, given by its code
unfoldable pub split : ℕ → String → List String
split at [] = Seq.◌∷◌ [] Seq.[]
split at (c ∷ s) =
    let parts = split at s in if code c == at then Seq.◌∷◌ [] parts else in_front c parts

abbrev trim_start : String → String
trim_start [] = []
trim_start (c ∷ s) = let rest = trim_start s in if is_whitespace c then rest else c ∷ s

abbrev keep_end : Char → String → String
keep_end c [] = if is_whitespace c then [] else c ∷ []
keep_end c (d ∷ s) = c ∷ d ∷ s

abbrev trim_end : String → String
trim_end [] = []
trim_end (c ∷ s) = keep_end c (trim_end s)

unfoldable pub trim : String → String
unfolding is_whitespace
trim s = trim_end (trim_start s)

abbrev pub is_empty : String → Bool
is_empty [] = true
is_empty (c ∷ s) = false
