-- ===== src/Apwm/Maps.antt =====
-- `BTreeMap`s whose keys are versions: their entries in the order of the keys.
use archipelago_xl.Base.{
  ◌≡◌, refl, Bool, true, false, ◌||◌, Option, none, some, is_some, List, [], ◌∷◌, arith,
  if◌then◌else◌, Option-cases, inl, inr,
}
use archipelago_xl.Apwm.Semver.{Semver}

module _ (v : Semver) {A : Type 0} where
  open v use {Version, le, eq, eq_iff}

  abbrev pub get : Version → List (Version × A) → Option A
  get k [] = none
  get k ((j, a) ∷ m) = let rest = get k m in if eq j k then some a else rest

  abbrev pub contains : Version → List (Version × A) → Bool
  contains k [] = false
  contains k ((j, a) ∷ m) = eq j k || contains k m

  abbrev pub insert : Version → A → List (Version × A) → List (Version × A)
  insert k a [] = (k, a) ∷ []
  insert k a ((j, b) ∷ m) =
      let rest = insert k a m in
      if eq j k then (k, a) ∷ m else if le k j then (k, a) ∷ (j, b) ∷ m else (j, b) ∷ rest

  -- `entry(k).or_insert(a)`
  abbrev pub entry_or : Version → A → List (Version × A) → List (Version × A)
  entry_or k a m = if contains k m then m else insert k a m

  -- `max_by_key`: of equal keys the last one
  abbrev pub later : Version × A → Option (Version × A) → Version × A
  later e none = e
  later e (some f) = if le (e.0) (f.0) then f else e

  unfoldable pub max_by_key : List (Version × A) → Option (Version × A)
  max_by_key [] = none
  max_by_key (e ∷ m) = some (later e (max_by_key m))

  pub contains-get : (k : Version) (m : List (Version × A)) → contains k m ≡ is_some (get k m)
  contains-get k [] = refl
  contains-get k ((j, a) ∷ m) = ground (arith, contains-get k m)

  pub contains-insert :
      (u k : Version) (a : A) (m : List (Version × A))
      → contains u (insert k a m) ≡ (eq k u || contains u m)
  contains-insert u k a [] = refl
  contains-insert u k a ((j, b) ∷ m) = ground (arith, contains-insert u k a m, eq_iff j k)

  pub contains-entry_or :
      (u k : Version) (a : A) (m : List (Version × A))
      → contains u (entry_or k a m) ≡ (eq k u || contains u m)
  contains-entry_or u k a m = ground (arith, contains-insert u k a m, eq_iff k u)

  pub max_by_key-contained :
      (m : List (Version × A)) (e : Version × A) → max_by_key m ≡ some e → contains (e.0) m ≡ true
  unfolding max_by_key
  max_by_key-contained [] e h = ground arith
  max_by_key-contained (x ∷ m) e h =
      ground (arith, eq_iff (x.0) (e.0), max_by_key-contained m (later x (max_by_key m)))

  empty_max : (m : List (Version × A)) (u : Version) → max_by_key m ≡ none → contains u m ≡ false
  unfolding max_by_key
  empty_max [] u h = refl
  empty_max (x ∷ m) u h = ground arith

  pub max_by_key-greatest :
      (m : List (Version × A)) (e : Version × A) (u : Version)
      → max_by_key m ≡ some e
      → contains u m ≡ true
      → le u (e.0) ≡ true
  unfolding max_by_key
  max_by_key-greatest [] e u h c = ground arith
  max_by_key-greatest (x ∷ m) e u h c = elim (Option-cases (max_by_key m)) [
    | inl n ↦ ground (arith, empty_max m u n, eq_iff (x.0) u, v.le_refl u)
    | inr (f, k) ↦ ground (
      arith,
      max_by_key-greatest m f u k,
      eq_iff (x.0) u,
      v.le_refl u,
      v.le_total (x.0) (f.0),
      v.le_trans u (f.0) (x.0),
    )
  ]
