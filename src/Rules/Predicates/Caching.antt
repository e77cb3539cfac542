-- ===== src/Rules/Predicates/Caching.antt =====
-- The cache of regular expressions does not change what a rule gives, and no evaluation panics.
use archipelago_xl.Base.{
  ◌≤◌, ◌≡◌, refl, ap, sym, subst, String, Bool, true, false, none, some, [], ◌∷◌, All, length,
  arith, eq_iff, Option-cases, inl, inr, if◌then◌else◌, ◌⊎◌,
}
use archipelago_xl.Rules.Values.{Crates}
use archipelago_xl.Rules.Random.{Evaluated, ok, err, unreachable}
use archipelago_xl.Rules.Checks.{
  Cache, Eval, value_of, and_then, lookup, make_room, build_and_keep, cached_regex,
}

abbrev pub is_reached : {A : Type 0} → Evaluated A → Bool
is_reached unreachable = false
is_reached _ = true

module _ (y : Crates) where
  -- each entry is what its pattern builds, and there are at most `REGEX_CACHE_MAX_ENTRIES`
  abbrev pub IsCache : Cache y → Type 0
  IsCache cache = All (λ e. y.build (e.0) ≡ inl (e.1)) cache × (length cache ≤ 256)

  pub record IsSound {A : Type 0} (m : Eval y A) : Type 0 where
    pub value : Evaluated A
    pub reached : is_reached value ≡ true
    pub gives : (cache : Cache y) → IsCache cache → ((m cache).0 ≡ value) × IsCache ((m cache).1)

  pub value_of-IsSound : (r : Evaluated Bool) → is_reached r ≡ true → IsSound (value_of y r)
  value_of-IsSound r h = record { value = r; reached = h; gives = λ cache i. (refl, i) }

  lookup-built :
      (pattern : String) (cache : Cache y) (re : y.Regex)
      → All (λ e. y.build (e.0) ≡ inl (e.1)) cache
      → lookup y pattern cache ≡ some re
      → y.build pattern ≡ inl re
  unfolding lookup
  lookup-built pattern [] re i h = ground arith
  lookup-built pattern ((p, r) ∷ cache) re i h =
      ground (arith, lookup-built pattern cache re, eq_iff pattern p)

  abbrev pub built : (y.Regex ⊎ String) → Evaluated y.Regex
  built (inl re) = ok re
  built (inr e) = err e

  make_room-IsCache :
      (cache : Cache y)
      → IsCache cache
      → All (λ e. y.build (e.0) ≡ inl (e.1)) (make_room y cache)
        × (length (make_room y cache) ≤ 255)
  make_room-IsCache cache i = ground arith

  kept :
      (pattern : String) (cache : Cache y) (b : y.Regex ⊎ String)
      → y.build pattern ≡ b
      → IsCache cache
      → ((build_and_keep y pattern cache b).0 ≡ built b)
        × IsCache ((build_and_keep y pattern cache b).1)
  kept pattern cache (inl re) h i = ground (arith, make_room-IsCache cache)
  kept pattern cache (inr e) h i = (refl, i)

  found_step :
      (pattern : String) (cache : Cache y) (re : y.Regex)
      → lookup y pattern cache ≡ some re
      → cached_regex y pattern cache ≡ (ok re, cache)
  unfolding cached_regex
  found_step pattern cache re h = rw (h, cached_regex)

  missing_step :
      (pattern : String) (cache : Cache y)
      → lookup y pattern cache ≡ none
      → cached_regex y pattern cache ≡ build_and_keep y pattern cache (y.build pattern)
  unfolding cached_regex
  missing_step pattern cache h = rw (h, cached_regex)

  abbrev Built : String → Evaluated y.Regex × Cache y → Type 0
  Built pattern r = (r.0 ≡ built (y.build pattern)) × IsCache (r.1)

  -- With a cache whose entries are what their patterns build, 256 at most, a pattern gives what it
  -- builds, an expression or an error, and the cache that is left is such a cache again.
  pub cached_regex-built :
      (pattern : String) (cache : Cache y)
      → IsCache cache
      → ((cached_regex y pattern cache).0 ≡ built (y.build pattern))
        × IsCache ((cached_regex y pattern cache).1)
  cached_regex-built pattern cache i = elim (Option-cases (lookup y pattern cache)) [
    | inl none_yet ↦
        subst (Built pattern) (sym (missing_step pattern cache none_yet))
          (kept pattern cache (y.build pattern) refl i)
    | inr (re, found) ↦
        subst (Built pattern) (sym (found_step pattern cache re found))
          (ap built (sym (lookup-built pattern cache re (i.0) found)), i)
  ]

  built-reached : (b : y.Regex ⊎ String) → is_reached (built b) ≡ true
  built-reached (inl re) = refl
  built-reached (inr e) = refl

  pub cached_regex-IsSound : (pattern : String) → IsSound (cached_regex y pattern)
  cached_regex-IsSound pattern = record {
    value = built (y.build pattern);
    reached = built-reached (y.build pattern);
    gives = cached_regex-built pattern;
  }

  module _ {A B : Type 0} (f : A → Eval y B) where
    abbrev bound : Eval y A → Eval y B
    bound m cache = and_then y (m cache) f

    and_then-ok : (r : Evaluated A × Cache y) (a : A) → r.0 ≡ ok a → and_then y r f ≡ f a (r.1)
    and_then-ok (r, cache) a h = ap (λ v. and_then y (v, cache) f) h

    and_then-err :
        (r : Evaluated A × Cache y) (e : String) → r.0 ≡ err e → and_then y r f ≡ (err e, r.1)
    and_then-err (r, cache) e h = ap (λ v. and_then y (v, cache) f) h

    bound_by :
        (m : Eval y A) (v : Evaluated A)
        → is_reached v ≡ true
        → ((cache : Cache y) → IsCache cache → ((m cache).0 ≡ v) × IsCache ((m cache).1))
        → ((a : A) → IsSound (f a))
        → IsSound (bound m)
    bound_by m (ok a) h g next = record {
      value = (next a).value;
      reached = (next a).reached;
      gives = λ cache i.
          subst (λ r. (r.0 ≡ (next a).value) × IsCache (r.1))
            (sym (and_then-ok (m cache) a ((g cache i).0)))
            ((next a).gives ((m cache).1) ((g cache i).1));
    }
    bound_by m (err e) h g next = record {
      value = err e;
      reached = refl;
      gives = λ cache i.
          subst (λ r. (r.0 ≡ err e) × IsCache (r.1))
            (sym (and_then-err (m cache) e ((g cache i).0))) (refl, (g cache i).1);
    }
    bound_by m unreachable h g next = ground arith

    pub and_then-IsSound :
        {m : Eval y A}
        → IsSound m
        → ((a : A) → IsSound (f a))
        → IsSound (λ cache. and_then y (m cache) f)
    and_then-IsSound {m} s next = bound_by m s.value s.reached s.gives next

  pub if-IsSound :
      {A : Type 0} {m n : Eval y A} (b : Bool)
      → IsSound m
      → IsSound n
      → IsSound (if b then m else n)
  if-IsSound true s t = s
  if-IsSound false s t = t

  pub choice-IsSound :
      {A : Type 0} {m n : Eval y A} (b : Bool)
      → IsSound m
      → IsSound n
      → IsSound (λ cache. if b then m cache else n cache)
  choice-IsSound true s t = s
  choice-IsSound false s t = t
