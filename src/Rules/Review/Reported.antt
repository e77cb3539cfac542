-- ===== src/Rules/Review/Reported.antt =====
-- Which rules the review of a YAML reports as failed.
use archipelago_xl.Base.{
  ◌≡◌, ◌↔◌, ◌⊎◌, inl, inr, refl, sym, ap, subst, String, Bool, true, false, some, List, [], ◌∷◌,
  ◌++◌, All, Bool-cases, some-injective,
}
use archipelago_xl.Rules.Values.{Crates}
use archipelago_xl.Rules.Syntax.{Rule, RuleResult, fail}
use archipelago_xl.Rules.Random.{Evaluated, ok, err, unreachable}
use archipelago_xl.Rules.Checks.{Cache, Eval, and_then}
use archipelago_xl.Rules.Predicates.{other_game, evaluate_rule, evaluate_rules_for_yaml}
use archipelago_xl.Rules.Predicates.Caching.{IsCache}
use archipelago_xl.Rules.Predicates.Verdicts.{IsResultOf, evaluate_rule-IsResultOf}
use archipelago_xl.Rules.Predicates.Failing.{outcome_of, IsViolated, evaluate_rule-fails_iff}
use archipelago_xl.Rules.Review.{RuleResultResponse, is_reported, custom_response, custom_responses}

module _ {A : Type 0} where
  -- some element has the property
  abbrev pub Has : (A → Type 0) → List A → Type 0
  Has P [] = ⊥
  Has P (x ∷ xs) = P x ⊎ Has P xs

  pub Has-left : (P : A → Type 0) (xs ys : List A) → Has P xs → Has P (xs ++ ys)
  Has-left P [] ys h = absurd h
  Has-left P (x ∷ xs) ys (inl h) = inl h
  Has-left P (x ∷ xs) ys (inr h) = inr (Has-left P xs ys h)

  pub Has-right : (P : A → Type 0) (xs ys : List A) → Has P ys → Has P (xs ++ ys)
  Has-right P [] ys h = h
  Has-right P (x ∷ xs) ys h = inr (Has-right P xs ys h)

  pub All-append : (P : A → Type 0) (xs ys : List A) → All P xs → All P ys → All P (xs ++ ys)
  All-append P [] ys hs ks = ks
  All-append P (x ∷ xs) ys (h, hs) ks = (h, All-append P xs ys hs ks)

  pub All-weaken : (P Q : A → Type 0) (xs : List A) → ((x : A) → P x → Q x) → All P xs → All Q xs
  All-weaken P Q [] f hs = tt
  All-weaken P Q (x ∷ xs) f (h, hs) = (f x h, All-weaken P Q xs f hs)

-- a response that reports the rule as failed, with its condition and its predicate
pub record IsReport (rule : Rule) (r : RuleResultResponse) : Type 0 where
  pub is_custom : r.builtin ≡ false
  pub fails : r.outcome ≡ fail
  pub named : r.rule_name ≡ rule.name
  pub condition : r.condition ≡ rule.when
  pub predicate : r.predicate ≡ some rule.then_

module _ (y : Crates) where
  open y use {Value}

  -- the rule is for the game, and its condition and its predicate hold of the game's section
  abbrev pub Violates : Value → String → Rule → Type 0
  Violates yaml game rule =
      (other_game y rule.game game ≡ false) × IsViolated y rule (y.as_mapping_get yaml game)

  -- the results of the rules in their order, which fail just where the rules are violated
  abbrev pub Judged : Value → String → List Rule → List RuleResult → Type 0
  Judged yaml game [] [] = Unit
  Judged yaml game (rule ∷ rules) (r ∷ rs) =
      (((r.outcome ≡ fail) ↔ Violates yaml game rule) × (r.rule_name ≡ rule.name))
      × Judged yaml game rules rs
  Judged yaml game [] (r ∷ rs) = ⊥
  Judged yaml game (rule ∷ rules) [] = ⊥

  abbrev pub IsJudged : Value → String → List Rule → Evaluated (List RuleResult) × Cache y → Type 0
  IsJudged yaml game rules out =
      (rs : List RuleResult) × (c : Cache y) × (out ≡ (ok rs, c))
      × IsCache y c
      × Judged yaml game rules rs

  after_one :
      (yaml : Value) (game : String) (rule : Rule) (rules : List Rule)
      (v : Evaluated RuleResult × Cache y) (rest : Eval y (List RuleResult))
      → IsResultOf y rule v
      → (outcome_of (v.0) ≡ some fail) ↔ Violates yaml game rule
      → ((c : Cache y) → IsCache y c → IsJudged yaml game rules (rest c))
      → IsJudged yaml game
          (rule ∷ rules)
          (and_then y v (λ r c. and_then y (rest c) (λ rs. λ c'. (ok (r ∷ rs), c'))))
  after_one yaml game rule rules (ok r, cache) rest (named, severe, i) iff h =
      let (rs, c, e, j, js) = h cache i in
      (
        r ∷ rs,
        c,
        ap (λ v. and_then y v (λ rs. λ c'. (ok (r ∷ rs), c'))) e,
        j,
        (((λ f. iff.0 (ap some f), λ k. some-injective _ _ (iff.1 k)), named), js),
      )
  after_one yaml game rule rules (err e, cache) rest i iff h = absurd i
  after_one yaml game rule rules (unreachable, cache) rest i iff h = absurd i

  pub rules-IsJudged :
      (yaml : Value) (game : String) (rules : List Rule) (cache : Cache y)
      → IsCache y cache
      → IsJudged yaml game rules (evaluate_rules_for_yaml y rules yaml game cache)
  unfolding evaluate_rules_for_yaml
  rules-IsJudged yaml game [] cache i = ([], cache, refl, i, tt)
  rules-IsJudged yaml game (rule ∷ rules) cache i =
      after_one yaml game rule rules (evaluate_rule y rule yaml game cache)
        (evaluate_rules_for_yaml y rules yaml game)
        (evaluate_rule-IsResultOf y rule yaml game cache i)
        (evaluate_rule-fails_iff y rule yaml game cache i)
        (λ c j. rules-IsJudged yaml game rules c j)

  -- a failure among the rules' responses is of a rule that is violated
  abbrev pub IsFounded : Value → String → List Rule → RuleResultResponse → Type 0
  IsFounded yaml game rules r =
      r.builtin ≡ false
      → r.outcome ≡ fail
      → Has (λ (rule : Rule). Violates yaml game rule × IsReport rule r) rules

  custom_response-IsReport :
      (multi : Bool) (game : String) (r : RuleResult) (rule : Rule)
      → r.outcome ≡ fail
      → r.rule_name ≡ rule.name
      → IsReport rule (custom_response multi game r rule)
  custom_response-IsReport multi game r rule f n = record {
    is_custom = refl;
    fails = f;
    named = n;
    condition = rw f refl;
    predicate = rw f refl;
  }

  pub responses-IsFounded :
      (yaml : Value) (multi : Bool) (game : String) (rules : List Rule) (rs : List RuleResult)
      → Judged yaml game rules rs
      → All (IsFounded yaml game rules) (custom_responses multi game rs rules)
  responses-IsFounded yaml multi game [] [] j = tt
  responses-IsFounded yaml multi game [] (r ∷ rs) j = absurd j
  responses-IsFounded yaml multi game (rule ∷ rules) [] j = tt
  responses-IsFounded yaml multi game (rule ∷ rules) (r ∷ rs) ((iff, n), js) =
      let later =
        All-weaken (IsFounded yaml game rules) (IsFounded yaml game (rule ∷ rules))
          (custom_responses multi game rs rules) (λ x h b f. inr (h b f))
          (responses-IsFounded yaml multi game rules rs js) in
      elim (Bool-cases (is_reported r.outcome)) [
        | inl h ↦
            rw h ((λ b f. inl (iff.0 f, custom_response-IsReport multi game r rule f n)), later)
        | inr h ↦ rw h later
      ]

  -- a violated rule is reported
  abbrev pub IsReported : Rule → List RuleResultResponse → Type 0
  IsReported rule responses = Has (IsReport rule) responses

  pub responses-IsReported :
      (yaml : Value) (multi : Bool) (game : String) (rule : Rule) (rules : List Rule)
      (rs : List RuleResult)
      → Judged yaml game rules rs
      → Has (λ (other : Rule). other ≡ rule) rules
      → Violates yaml game rule
      → IsReported rule (custom_responses multi game rs rules)
  responses-IsReported yaml multi game rule [] [] j h k = absurd h
  responses-IsReported yaml multi game rule [] (r ∷ rs) j h k = absurd j
  responses-IsReported yaml multi game rule (first ∷ rules) [] j h k = absurd j
  responses-IsReported yaml multi game rule (first ∷ rules) (r ∷ rs) ((iff, n), js) (inl e) k =
      let f = iff.1 (subst (Violates yaml game) (sym e) k) in
      let shown : is_reported r.outcome ≡ true = ap is_reported f in
      rw shown (
        inl (
          subst (λ (x : Rule). IsReport x (custom_response multi game r first)) e
            (custom_response-IsReport multi game r first f n)))
  responses-IsReported yaml multi game rule (first ∷ rules) (r ∷ rs) ((iff, n), js) (inr h) k =
      let rest = responses-IsReported yaml multi game rule rules rs js h k in
      elim (Bool-cases (is_reported r.outcome)) [ inl b ↦ rw b (inr rest) | inr b ↦ rw b rest ]
