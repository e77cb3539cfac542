-- ===== src/Apwm/Keyed/Laws.antt =====
-- What inserting into a map changes.
use archipelago_xl.Base.{
  ◌≡◌, refl, true, false, ◌||◌, some, is_some, List, [], ◌∷◌, arith, if◌then◌else◌, inl, inr,
  Bool-cases, some-injective, subst, sym,
}
use archipelago_xl.Apwm.Keyed.{Key, get, contains, replace, place, insert, is_distinct}

module _ (o : Key) {A : Type 0} where
  open o use {K, le, eq, eq_iff}

  pub contains-get : (k : K) (m : List (K × A)) → contains o k m ≡ is_some (get o k m)
  contains-get k [] = refl
  contains-get k ((j, a) ∷ m) = ground (arith, contains-get k m)

  get-replace :
      (u k : K) (a : A) (m : List (K × A))
      → contains o k m ≡ true
      → get o u (replace o k a m) ≡ (if eq k u then some a else get o u m)
  unfolding replace
  get-replace u k a [] h = ground arith
  get-replace u k a ((j, b) ∷ m) h =
      ground (arith, get-replace u k a m, eq_iff j k, eq_iff k u, eq_iff j u)

  get-place :
      (u k : K) (a : A) (m : List (K × A))
      → contains o k m ≡ false
      → get o u (place o k a m) ≡ (if eq k u then some a else get o u m)
  unfolding place
  get-place u k a [] h = refl
  get-place u k a ((j, b) ∷ m) h =
      ground (arith, get-place u k a m, eq_iff j k, eq_iff k u, eq_iff j u)

  pub get-insert :
      (u k : K) (a : A) (m : List (K × A))
      → get o u (insert o k a m) ≡ (if eq k u then some a else get o u m)
  unfolding insert
  get-insert u k a m = ground (arith, get-replace u k a m, get-place u k a m)

  contains-replace :
      (u k : K) (a : A) (m : List (K × A)) → contains o u (replace o k a m) ≡ contains o u m
  unfolding replace
  contains-replace u k a [] = refl
  contains-replace u k a ((j, b) ∷ m) = ground (arith, contains-replace u k a m)

  contains-place :
      (u k : K) (a : A) (m : List (K × A))
      → contains o u (place o k a m) ≡ (eq k u || contains o u m)
  unfolding place
  contains-place u k a [] = refl
  contains-place u k a ((j, b) ∷ m) = ground (arith, contains-place u k a m)

  replace-distinct :
      (k : K) (a : A) (m : List (K × A))
      → is_distinct o m ≡ true
      → is_distinct o (replace o k a m) ≡ true
  unfolding replace
  replace-distinct k a [] h = refl
  replace-distinct k a ((j, b) ∷ m) h =
      ground (arith, replace-distinct k a m, contains-replace j k a m)

  place-distinct :
      (k : K) (a : A) (m : List (K × A))
      → contains o k m ≡ false
      → is_distinct o m ≡ true
      → is_distinct o (place o k a m) ≡ true
  unfolding place
  place-distinct k a [] h d = refl
  place-distinct k a ((j, b) ∷ m) h d =
      ground (arith, place-distinct k a m, contains-place j k a m, eq_iff k j, eq_iff j k)

  pub insert-distinct :
      (k : K) (a : A) (m : List (K × A))
      → is_distinct o m ≡ true
      → is_distinct o (insert o k a m) ≡ true
  unfolding insert
  insert-distinct k a m d = ground (arith, replace-distinct k a m, place-distinct k a m)

  module _ {ℓ} (P : K → A → Type ℓ) where
    abbrev pub AllOf : List (K × A) → Type ℓ
    AllOf [] = Unit
    AllOf ((k, a) ∷ m) = P k a × AllOf m

    at_key : (j k : K) (a : A) → eq j k ≡ true → P k a → P j a
    at_key j k a e = subst (λ (i : K). P i a) (sym ((eq_iff j k).0 e))

    AllOf-replace : (k : K) (a : A) (m : List (K × A)) → P k a → AllOf m → AllOf (replace o k a m)
    unfolding replace
    AllOf-replace k a [] p ps = tt
    AllOf-replace k a ((j, b) ∷ m) p ps = elim (Bool-cases (eq j k)) [
      | inl h ↦ rw h (at_key j k a h p, ps.1)
      | inr h ↦ rw h (ps.0, AllOf-replace k a m p ps.1)
    ]

    AllOf-place : (k : K) (a : A) (m : List (K × A)) → P k a → AllOf m → AllOf (place o k a m)
    unfolding place
    AllOf-place k a [] p ps = (p, tt)
    AllOf-place k a ((j, b) ∷ m) p ps = elim (Bool-cases (le k j)) [
      | inl h ↦ rw h (p, ps)
      | inr h ↦ rw h (ps.0, AllOf-place k a m p ps.1)
    ]

    pub AllOf-insert : (k : K) (a : A) (m : List (K × A)) → P k a → AllOf m → AllOf (insert o k a m)
    unfolding insert
    AllOf-insert k a m p ps = elim (Bool-cases (contains o k m)) [
      | inl h ↦ rw h (AllOf-replace k a m p ps)
      | inr h ↦ rw h (AllOf-place k a m p ps)
    ]

    pub AllOf-get : (k : K) (a : A) (m : List (K × A)) → get o k m ≡ some a → AllOf m → P k a
    AllOf-get k a [] h ps = ground arith
    AllOf-get k a ((j, b) ∷ m) h ps = elim (Bool-cases (eq j k)) [
      | inl e ↦
          subst (P k) (some-injective _ _ (rw e at h))
            (at_key k j b (ground (arith, eq_iff j k, eq_iff k j)) ps.0)
      | inr e ↦ AllOf-get k a m (rw e at h) ps.1
    ]

    -- what holds of all that can be looked up holds of all entries
    pub AllOf-of_get :
        (m : List (K × A))
        → is_distinct o m ≡ true
        → ((k : K) (a : A) → get o k m ≡ some a → P k a)
        → AllOf m
    AllOf-of_get [] d h = tt
    AllOf-of_get ((j, b) ∷ m) d h = (
      h j b (ground (arith, eq_iff j j)),
      AllOf-of_get m (ground arith) (λ k a e. h k a (ground (arith, eq_iff j k, contains-get k m))),
    )
