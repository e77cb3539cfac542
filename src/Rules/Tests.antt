-- ===== src/Rules/Tests.antt =====
-- The theorems on the rules, on a small YAML.
use archipelago_xl.Base.{
  ◌≡◌, ◌↔◌, refl, String, true, false, Option, none, some, List, [], ◌∷◌, str_eq, if◌then◌else◌,
  inl, inr, arith,
}
use archipelago_xl.Base.Int.{ℤ, pos}
use archipelago_xl.Rules.Text.{parse_i64}
use archipelago_xl.Rules.Values.{Crates, yaml_value_as_string}
use archipelago_xl.Rules.Syntax.{
  Predicate, nil, cons, check, and, or, at_least, greater_than, equals, exists, regex, Rule,
  warning, fail,
}
use archipelago_xl.Rules.Random.{ok, check_random}
use archipelago_xl.Rules.Bounds.{check_random_iff, MayPass}
use archipelago_xl.Rules.Checks.{
  Cache, cached_regex, evaluate_check, check_single_value, parse_random, yaml_value_as_i64,
}
use archipelago_xl.Rules.Predicates.{navigate_path, evaluate_predicate, evaluate_rule, other_game}
use archipelago_xl.Rules.Builtin.{RoomYaml, no_cross_plando}
use archipelago_xl.Rules.Builtin.Plando.{verdict, no_cross_plando-verdict}
use archipelago_xl.Rules.Predicates.Caching.{IsCache, is_reached}
use archipelago_xl.Rules.Predicates.Evaluating.{evaluate_predicate-agrees}
use archipelago_xl.Rules.Predicates.Counting.{connectives_lem}
use archipelago_xl.Rules.Predicates.Failing.{outcome_of, IsViolated, evaluate_rule-fails_iff}

-- a YAML of numbers, texts, sequences and mappings from texts
mutual
  pub data Node : Type 0 where
    number : ℤ → Node
    word : String → Node
    mapping : Entries → Node
    -- the values of the entries
    sequence : Entries → Node

  pub data Entries : Type 0 where
    end : Entries
    entry : String → Node → Entries → Entries

abbrev pub entries_of : Entries → List (Node × Node)
entries_of end = []
entries_of (entry k v es) = (word k, v) ∷ entries_of es

abbrev pub values_of : Entries → List Node
values_of end = []
values_of (entry k v es) = v ∷ values_of es

abbrev pub items : Node → Option (List Node)
items (sequence es) = some (values_of es)
items _ = none

abbrev pub get : String → Entries → Option Node
get k end = none
get k (entry j v es) = let rest = get k es in if str_eq j k then some v else rest

abbrev pub integer : Node → Option ℤ
integer (number n) = some n
integer _ = none

abbrev pub text : Node → Option String
text (word s) = some s
text _ = none

abbrev pub pairs : Node → Option (List (Node × Node))
pairs (mapping es) = some (entries_of es)
pairs _ = none

abbrev pub member : Node → String → Option Node
member (mapping es) k = get k es
member _ k = none

-- an expression here is a text that matches itself, and the empty text is refused
abbrev pub crates : Crates
crates = record {
  Value = Node;
  as_bool = λ v. none;
  as_integer = integer;
  as_str = text;
  as_sequence = items;
  as_mapping = pairs;
  as_mapping_get = member;
  to_lowercase = λ s. s;
  Regex = String;
  build = λ p. if str_eq p "" then inr "empty" else inl p;
  is_pattern = λ p. true;
  is_match = str_eq;
}

abbrev pub section : Node
section = mapping (entry "progression" (number (pos 60)) (entry "goal" (word "all") end))

abbrev pub yaml : Node
yaml = mapping (entry "Game" section end)

abbrev pub high : Predicate
high = check "progression" (greater_than (pos 50))

abbrev pub is_low_goal : Predicate
is_low_goal = check "goal" (regex "low")

abbrev pub rule : Rule
rule = record {
  name = "too high";
  game = some "Game";
  when = some (check "goal" exists);
  then_ = or (cons is_low_goal (cons high nil));
  severity = warning;
}

abbrev one_entry : Cache crates
one_entry = ("low", "low") ∷ []

evaluate_predicate-agrees_example :
    ((evaluate_predicate crates is_low_goal section one_entry).0
      ≡ (evaluate_predicate crates is_low_goal section []).0)
    × (is_reached ((evaluate_predicate crates is_low_goal section one_entry).0) ≡ true)
    × IsCache crates ((evaluate_predicate crates is_low_goal section one_entry).1)
evaluate_predicate-agrees_example =
    evaluate_predicate-agrees crates section is_low_goal one_entry [] ((refl, tt), omega arith)
      (tt, omega arith)

high_holds : (evaluate_predicate crates high section []).0 ≡ ok true
unfolding evaluate_predicate navigate_path evaluate_check check_single_value parse_random
    yaml_value_as_i64
high_holds = refl

low_fails : (evaluate_predicate crates is_low_goal section []).0 ≡ ok false
unfolding evaluate_predicate navigate_path evaluate_check check_single_value parse_random
    cached_regex yaml_value_as_string
low_fails = refl

connectives_lem_example :
    ((evaluate_predicate crates (and (cons high (cons is_low_goal nil))) section []).0 ≡ ok false)
    × ((evaluate_predicate crates (or (cons high (cons is_low_goal nil))) section []).0 ≡ ok true)
    × ((evaluate_predicate crates (at_least 2 (cons high (cons is_low_goal nil))) section []).0
        ≡ ok false)
connectives_lem_example =
    connectives_lem crates section (cons high (cons is_low_goal nil)) (true ∷ false ∷ []) 2 []
      (([], (tt, omega arith), high_holds), (([], (tt, omega arith), low_fails), tt))
      (tt, omega arith) (omega arith)

evaluate_rule-fails_iff_example :
    (outcome_of ((evaluate_rule crates rule yaml "Game" []).0) ≡ some fail)
    ↔ ((other_game crates (some "Game") "Game" ≡ false) × IsViolated crates rule (some section))
evaluate_rule-fails_iff_example =
    evaluate_rule-fails_iff crates rule yaml "Game" [] (tt, omega arith)

check_random_iff_example :
    (check_random (some (pos 1, pos 5)) (equals "3") ≡ ok true)
    ↔ MayPass (pos 1) (pos 5) (equals "3")
unfolding parse_i64
check_random_iff_example = check_random_iff (pos 1) (pos 5) (equals "3") (omega arith) refl refl

abbrev pub room : List RoomYaml
room = record { player_name = "Ann" } ∷ record { player_name = "Ben" } ∷ []

-- plando that names Ben, in a section of its own
abbrev plando : Node
plando = mapping (
    entry "plando_items" (sequence (entry "first" (mapping (entry "world" (word "Ben") end)) end))
      end)

no_cross_plando-verdict_example :
    (no_cross_plando crates (mapping (entry "Game" plando end)) "Game" "Ann" room).outcome
    ≡ verdict crates room "Ann" (some plando)
no_cross_plando-verdict_example =
    no_cross_plando-verdict crates room "Ann" (mapping (entry "Game" plando end)) "Game"

names_ben : verdict crates room "Ann" (some plando) ≡ fail
names_ben = refl
