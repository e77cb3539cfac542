-- ===== src/Rules/Review/Games.antt =====
-- The review of a YAML reports as failed just the rules that are violated in one of its games.
use archipelago_xl.Base.{
  ◌≡◌, refl, sym, subst, inl, inr, String, Bool, false, Option, some, List, [], ◌∷◌, ◌++◌, All,
  arith, Bool-cases, if◌then◌else◌,
}
use archipelago_xl.Base.Int.{ℤ}
use archipelago_xl.Rules.Values.{Crates}
use archipelago_xl.Rules.Syntax.{Rule, RuleResult, fail}
use archipelago_xl.Rules.Random.{Evaluated, ok}
use archipelago_xl.Rules.Checks.{Cache}
use archipelago_xl.Rules.Predicates.Caching.{IsCache}
use archipelago_xl.Rules.Builtin.{RoomYaml, BuiltinRule}
use archipelago_xl.Rules.Triggers.{Loader}
use archipelago_xl.Rules.Triggers.Rounds.{resolve_triggers}
use archipelago_xl.Rules.Review.{
  BulkYamlInfo, RuleResultResponse, YamlEvalResult, Analysis, is_reported, custom_responses,
  extract_game_names, builtin_responses, analysed, review_games, or_game, is_multi, display_game,
  eval_result, parsed, evaluate_single_yaml,
}
use archipelago_xl.Rules.Review.Reported.{
  Has, Has-left, Has-right, All-append, All-weaken, IsReport, Violates, Judged, IsFounded,
  IsReported, rules-IsJudged, responses-IsFounded, responses-IsReported,
}

module _ (y : Crates) (loader : Loader y) (insert_integer : y.Value → String → String → ℤ → y.Value)
    (rules : List Rule) (builtins : List (BuiltinRule y)) (player : String)
    (room : List RoomYaml) where
  open y use {Value}

  -- a failure among the custom rules is of a rule that one of the games violates
  abbrev pub IsFoundedIn : Value → List String → RuleResultResponse → Type 0
  IsFoundedIn yaml games r =
      r.builtin ≡ false
      → r.outcome ≡ fail
      → Has
          (λ (game : String).
            Has (λ (rule : Rule). Violates y yaml game rule × IsReport rule r) rules)
          games

  builtins-IsFoundedIn :
      (yaml : Value) (games : List String) (multi : Bool) (game : String)
      (bs : List (BuiltinRule y))
      → All (IsFoundedIn yaml games) (builtin_responses y loader multi game yaml player room bs)
  builtins-IsFoundedIn yaml games multi game [] = tt
  builtins-IsFoundedIn yaml games multi game (b ∷ bs) =
      elim (Bool-cases (is_reported (b.evaluate yaml game player room).outcome)) [
        | inl h ↦ rw h ((λ c f. ground arith), builtins-IsFoundedIn yaml games multi game bs)
        | inr h ↦ rw h (builtins-IsFoundedIn yaml games multi game bs)
      ]

  abbrev pub AreReported : Value → List String → List RuleResultResponse → Type 0
  AreReported yaml games results =
      (rule : Rule) (game : String)
      → Has (λ (other : Rule). other ≡ rule) rules
      → Has (λ (other : String). other ≡ game) games
      → Violates y yaml game rule
      → IsReported y rule results

  abbrev Reviewed : Value → List String → Evaluated (List RuleResultResponse) × Cache y → Type 0
  Reviewed yaml games out =
      (results : List RuleResultResponse) × (c : Cache y) × (out ≡ (ok results, c))
      × IsCache y c
      × All (IsFoundedIn yaml games) results
      × AreReported yaml games results

  one_game :
      (yaml : Value) (multi : Bool) (game : String) (games : List String) (rs : List RuleResult)
      (rest : List RuleResultResponse)
      → Judged y yaml game rules rs
      → All (IsFoundedIn yaml games) rest
      → AreReported yaml games rest
      → All (IsFoundedIn yaml (game ∷ games)) (
          custom_responses multi game rs rules
          ++ (builtin_responses y loader multi game yaml player room builtins ++ rest))
        × AreReported yaml (game ∷ games) (
            custom_responses multi game rs rules
            ++ (builtin_responses y loader multi game yaml player room builtins ++ rest))
  one_game yaml multi game games rs rest j founded reported =
      let first = custom_responses multi game rs rules in
      let second = builtin_responses y loader multi game yaml player room builtins in
      (
        All-append (IsFoundedIn yaml (game ∷ games)) first (second ++ rest)
            (All-weaken (IsFounded y yaml game rules) (IsFoundedIn yaml (game ∷ games)) first
              (λ r h b f. inl (h b f)) (responses-IsFounded y yaml multi game rules rs j))
            (All-append (IsFoundedIn yaml (game ∷ games)) second rest
              (builtins-IsFoundedIn yaml (game ∷ games) multi game builtins)
              (All-weaken (IsFoundedIn yaml games) (IsFoundedIn yaml (game ∷ games)) rest
                (λ r h b f. inr (h b f)) founded)),
        λ rule g known at violated. elim at [
          | inl e ↦ Has-left (IsReport rule) first (second ++ rest) (
              responses-IsReported y yaml multi game rule rules rs j known
                (subst (λ (x : String). Violates y yaml x rule) (sym e) violated))
          | inr later ↦
              Has-right (IsReport rule) first (second ++ rest)
                (Has-right (IsReport rule) second rest (reported rule g known later violated))
        ],
      )

  review_games-Reviewed :
      (yaml : Value) (multi : Bool) (games : List String) (cache : Cache y)
      → IsCache y cache
      → Reviewed yaml games
          (review_games y loader insert_integer rules builtins player room yaml multi games cache)
  unfolding review_games
  review_games-Reviewed yaml multi [] cache i =
      ([], cache, refl, i, tt, λ rule game known at. absurd at)
  review_games-Reviewed yaml multi (game ∷ games) cache i =
      let judged = rules-IsJudged y yaml game rules cache i in
      let later = review_games-Reviewed yaml multi games judged.1 judged.3 in
      let here = one_game yaml multi game games judged.0 later.0 judged.4 later.4 later.5 in
      (_, later.1, rw (judged.2, later.2) refl, later.3, here.0, here.1)

module _ (y : Crates) (loader : Loader y)
    (insert_integer : y.Value → String → String → ℤ → y.Value) where
  open y use {Value}

  -- the games of a YAML whose triggers are resolved
  abbrev pub games_of : BulkYamlInfo → Value → List String
  games_of info yaml =
      or_game y loader insert_integer info.game
        (extract_game_names y loader (resolve_triggers y loader yaml))

  -- the YAML that the rules see
  abbrev pub reviewed : BulkYamlInfo → Option Analysis → Value → Value
  reviewed info analysis yaml =
      analysed y loader insert_integer analysis (games_of info yaml)
        (resolve_triggers y loader yaml)

  -- If the text of a YAML loads, its review ends in a result, whatever the thread's cache holds
  -- within its limits. With the triggers resolved and the analysis, if there is one, put in: every
  -- response of a custom rule that failed is the report of a rule that one of the YAML's games
  -- violates, with that rule's condition and predicate; and every rule that a game violates is
  -- reported.
  pub evaluate_single_yaml-reports :
      (info : BulkYamlInfo) (rules : List Rule) (builtins : List (BuiltinRule y))
      (room : List RoomYaml) (analysis : Option Analysis) (cache : Cache y) (yaml : Value)
      → parsed y loader insert_integer info.content ≡ some yaml
      → IsCache y cache
      → (result : YamlEvalResult) × (c : Cache y) × (evaluate_single_yaml y loader insert_integer
            info rules builtins room analysis cache
          ≡ (ok result, c))
        × IsCache y c
        × All
            (IsFoundedIn y loader insert_integer rules builtins info.player_name room
              (reviewed info analysis yaml)
              (games_of info yaml))
            result.results
        × AreReported y loader insert_integer rules builtins info.player_name room
            (reviewed info analysis yaml)
            (games_of info yaml)
            result.results
  unfolding evaluate_single_yaml
  evaluate_single_yaml-reports info rules builtins room analysis cache yaml e i =
      let games = games_of info yaml in
      let r =
        review_games-Reviewed y loader insert_integer rules builtins info.player_name room
          (reviewed info analysis yaml) (is_multi y loader insert_integer games) games cache i in
      (
        eval_result y loader insert_integer info
            (display_game y loader insert_integer info.game games)
            (if is_multi y loader insert_integer games then games else []) r.0,
        r.1,
        rw e (rw (r.2) refl),
        r.3,
        r.4,
        r.5,
      )
