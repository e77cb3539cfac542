-- ===== src/Rules/Predicates/Evaluating.antt =====
-- Predicates and rules, whatever the cache holds.
use archipelago_xl.Base.{
  ℕ, ◌+◌, ◌≡◌, refl, ap, sym, ◌∙◌, subst, String, Bool, true, false, Option, none, some, List, [],
  ◌∷◌, leb, arith, if◌then◌else◌, map,
}
use archipelago_xl.Base as Shared
use archipelago_xl.Rules.Values.{Crates}
use archipelago_xl.Rules.Syntax.{Predicate, check, and, or, not, at_least, Predicates, nil, cons}
use archipelago_xl.Rules.Random.{ok}
use archipelago_xl.Rules.Checks.{Cache, value_of}
use archipelago_xl.Rules.Predicates.{
  navigate_path, evaluate_predicate, evaluate_and, evaluate_or, evaluate_at_least,
}
use archipelago_xl.Rules.Predicates.Caching.{
  IsCache, IsSound, is_reached, value_of-IsSound, and_then-IsSound, if-IsSound,
}
use archipelago_xl.Rules.Predicates.Sound.{at-IsSound}

module _ (y : Crates) (game_yaml : y.Value) where
  mutual
    unfolding evaluate_predicate

    predicate-IsSound : (p : Predicate) → IsSound y (evaluate_predicate y p game_yaml)
    predicate-IsSound (check path c) = at-IsSound y (navigate_path y game_yaml path) c
    predicate-IsSound (and ps) = and-IsSound ps
    predicate-IsSound (or ps) = or-IsSound ps
    predicate-IsSound (not p) =
        and_then-IsSound y (λ b. value_of y (ok (Shared.not b))) (predicate-IsSound p)
          (λ b. value_of-IsSound y (ok (Shared.not b)) refl)
    predicate-IsSound (at_least n ps) = at_least-IsSound n 0 ps

    and-IsSound : (ps : Predicates) → IsSound y (evaluate_and y ps game_yaml)
    and-IsSound nil = value_of-IsSound y (ok true) refl
    and-IsSound (cons p ps) =
        and_then-IsSound y (λ b. if b then evaluate_and y ps game_yaml else value_of y (ok false))
          (predicate-IsSound p)
          (λ b. if-IsSound y b (and-IsSound ps) (value_of-IsSound y (ok false) refl))

    or-IsSound : (ps : Predicates) → IsSound y (evaluate_or y ps game_yaml)
    or-IsSound nil = value_of-IsSound y (ok false) refl
    or-IsSound (cons p ps) =
        and_then-IsSound y (λ b. if b then value_of y (ok true) else evaluate_or y ps game_yaml)
          (predicate-IsSound p)
          (λ b. if-IsSound y b (value_of-IsSound y (ok true) refl) (or-IsSound ps))

    at_least-IsSound :
        (n matched : ℕ) (ps : Predicates) → IsSound y (evaluate_at_least y n matched ps game_yaml)
    at_least-IsSound n matched nil = value_of-IsSound y (ok false) refl
    at_least-IsSound n matched (cons p ps) =
        and_then-IsSound y
          (λ b.
            if b
            then if leb n (matched + 1)
              then value_of y (ok true)
              else evaluate_at_least y n (matched + 1) ps game_yaml
            else evaluate_at_least y n matched ps game_yaml)
          (predicate-IsSound p)
          (λ b.
            if-IsSound y b
              (if-IsSound y (leb n (matched + 1)) (value_of-IsSound y (ok true) refl)
                (at_least-IsSound n (matched + 1) ps))
              (at_least-IsSound n matched ps))

  pub evaluate_predicate-IsSound : (p : Predicate) → IsSound y (evaluate_predicate y p game_yaml)
  evaluate_predicate-IsSound p = predicate-IsSound p

  -- With any two caches that keep to their entries and their limit, a predicate has the same
  -- result on a value, which is a Boolean or an error and never a panic of `unreachable!`, and
  -- leaves a cache that keeps to them again.
  pub evaluate_predicate-agrees :
      (p : Predicate) (one other : Cache y)
      → IsCache y one
      → IsCache y other
      → ((evaluate_predicate y p game_yaml one).0 ≡ (evaluate_predicate y p game_yaml other).0)
        × (is_reached ((evaluate_predicate y p game_yaml one).0) ≡ true)
        × IsCache y ((evaluate_predicate y p game_yaml one).1)
  evaluate_predicate-agrees p one other i j =
      let s = evaluate_predicate-IsSound p in
      (
        (s.gives one i).0 ∙ sym ((s.gives other j).0),
        ap is_reached ((s.gives one i).0) ∙ s.reached,
        (s.gives one i).1,
      )
