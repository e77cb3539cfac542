-- ===== src/Rules/Predicates/Counting.antt =====
-- What the connectives give where each of their predicates has a Boolean result.
use archipelago_xl.Base.{
  ℕ, suc, ◌+◌, ◌≤◌, ◌<◌, ◌≡◌, refl, ap, sym, ◌∙◌, subst, Bool, true, false, List, [], ◌∷◌, leb, all,
  any, arith, if◌then◌else◌,
}
use archipelago_xl.Rules.Values.{Crates}
use archipelago_xl.Rules.Syntax.{Predicate, and, or, at_least, Predicates, nil, cons}
use archipelago_xl.Rules.Random.{Evaluated, ok}
use archipelago_xl.Rules.Checks.{Cache, Eval, value_of, and_then}
use archipelago_xl.Rules.Predicates.{
  evaluate_predicate, evaluate_and, evaluate_or, evaluate_at_least,
}
use archipelago_xl.Rules.Predicates.Caching.{IsCache}
use archipelago_xl.Rules.Predicates.Evaluating.{evaluate_predicate-IsSound}

abbrev pub id : Bool → Bool
id b = b

abbrev pub number_true : List Bool → ℕ
number_true [] = 0
number_true (true ∷ bs) = suc (number_true bs)
number_true (false ∷ bs) = number_true bs

module _ (y : Crates) (game_yaml : y.Value) where
  -- the predicates have these results, each with some cache that keeps to its limits
  abbrev pub HasResults : Predicates → List Bool → Type 0
  HasResults nil [] = Unit
  HasResults (cons p ps) (b ∷ bs) =
      ((cache : Cache y) × IsCache y cache × ((evaluate_predicate y p game_yaml cache).0 ≡ ok b))
      × HasResults ps bs
  HasResults _ _ = ⊥

  abbrev Gives : Eval y Bool → Bool → Type 0
  Gives m b = (cache : Cache y) → IsCache y cache → ((m cache).0 ≡ ok b) × IsCache y ((m cache).1)

  result_with :
      (p : Predicate) (b : Bool)
      → ((cache : Cache y) × IsCache y cache × ((evaluate_predicate y p game_yaml cache).0 ≡ ok b))
      → Gives (evaluate_predicate y p game_yaml) b
  result_with p b (c, i, e) cache j =
      let s = evaluate_predicate-IsSound y game_yaml p in
      ((s.gives cache j).0 ∙ sym ((s.gives c i).0) ∙ e, (s.gives cache j).1)

  next :
      (m : Eval y Bool) (f : Bool → Eval y Bool) (b r : Bool)
      → Gives m b
      → Gives (f b) r
      → Gives (λ cache. and_then y (m cache) f) r
  next m f b r g h cache i =
      subst (λ v. (v.0 ≡ ok r) × IsCache y (v.1)) (sym (go (m cache) ((g cache i).0)))
        (h ((m cache).1) ((g cache i).1))
    where
      go : (v : Evaluated Bool × Cache y) → v.0 ≡ ok b → and_then y v f ≡ f b (v.1)
      go (v, c) e = ap (λ w. and_then y (w, c) f) e

  and-Gives :
      (ps : Predicates) (bs : List Bool)
      → HasResults ps bs
      → Gives (evaluate_and y ps game_yaml) (all id bs)
  unfolding evaluate_predicate
  and-Gives nil [] h = λ cache i. (refl, i)
  and-Gives nil (b ∷ bs) h = ground arith
  and-Gives (cons p ps) [] h = ground arith
  and-Gives (cons p ps) (true ∷ bs) (h, hs) =
      next _ _ true _ (result_with p true h) (and-Gives ps bs hs)
  and-Gives (cons p ps) (false ∷ bs) (h, hs) =
      next _ _ false _ (result_with p false h) (λ cache i. (refl, i))

  or-Gives :
      (ps : Predicates) (bs : List Bool)
      → HasResults ps bs
      → Gives (evaluate_or y ps game_yaml) (any id bs)
  unfolding evaluate_predicate
  or-Gives nil [] h = λ cache i. (refl, i)
  or-Gives nil (b ∷ bs) h = ground arith
  or-Gives (cons p ps) [] h = ground arith
  or-Gives (cons p ps) (false ∷ bs) (h, hs) =
      next _ _ false _ (result_with p false h) (or-Gives ps bs hs)
  or-Gives (cons p ps) (true ∷ bs) (h, hs) =
      next _ _ true _ (result_with p true h) (λ cache i. (refl, i))

  too_few : (n matched : ℕ) → matched < n → false ≡ leb n (matched + 0)
  too_few n matched few = ground arith

  abbrev counted_or_stop : ℕ → ℕ → Predicates → Bool → Eval y Bool
  counted_or_stop n matched ps enough =
      if enough then value_of y (ok true) else evaluate_at_least y n (matched + 1) ps game_yaml

  stop_or_go :
      (n matched k : ℕ) (ps : Predicates) (enough : Bool)
      → leb n (matched + 1) ≡ enough
      → (matched + 1 < n
          → Gives (evaluate_at_least y n (matched + 1) ps game_yaml) (leb n (matched + 1 + k)))
      → Gives (counted_or_stop n matched ps enough) (leb n (matched + suc k))
  stop_or_go n matched k ps true h rest = λ cache i. (ap ok (ground arith), i)
  stop_or_go n matched k ps false h rest =
      subst (λ b. Gives (evaluate_at_least y n (matched + 1) ps game_yaml) b)
        (ap (leb n) (omega arith)) (rest (ground arith))

  at_least-Gives :
      (n matched : ℕ) (ps : Predicates) (bs : List Bool)
      → matched < n
      → HasResults ps bs
      → Gives (evaluate_at_least y n matched ps game_yaml) (leb n (matched + number_true bs))
  unfolding evaluate_predicate
  at_least-Gives n matched nil [] few h = λ cache i. (ap ok (too_few n matched few), i)
  at_least-Gives n matched nil (b ∷ bs) few h = ground arith
  at_least-Gives n matched (cons p ps) [] few h = ground arith
  at_least-Gives n matched (cons p ps) (false ∷ bs) few (h, hs) =
      next _ _ false _ (result_with p false h) (at_least-Gives n matched ps bs few hs)
  at_least-Gives n matched (cons p ps) (true ∷ bs) few (h, hs) =
      next _ _ true _ (result_with p true h) (
        stop_or_go n matched (number_true bs) ps (leb n (matched + 1)) refl
          (λ more. at_least-Gives n (matched + 1) ps bs more hs))

  -- Where each predicate of a list has a Boolean result on a value, with any cache that keeps to
  -- its limits: `And` gives whether all of them hold, `Or` whether one does, and `AtLeast`, whose
  -- count is not 0 in a validated rule, whether that many of them hold.
  pub connectives_lem :
      (ps : Predicates) (bs : List Bool) (n : ℕ) (cache : Cache y)
      → HasResults ps bs
      → IsCache y cache
      → 1 ≤ n
      → ((evaluate_predicate y (and ps) game_yaml cache).0 ≡ ok (all id bs))
        × ((evaluate_predicate y (or ps) game_yaml cache).0 ≡ ok (any id bs))
        × ((evaluate_predicate y (at_least n ps) game_yaml cache).0 ≡ ok (leb n (number_true bs)))
  unfolding evaluate_predicate
  connectives_lem ps bs n cache h i some_count = (
    (and-Gives ps bs h cache i).0,
    (or-Gives ps bs h cache i).0,
    (at_least-Gives n 0 ps bs some_count h cache i).0 ∙ ap (λ k. ok (leb n k)) (omega arith),
  )
