-- ===== src/Apwm/IndexSets/Built.antt =====
-- What holds of an index set once it is built.
use archipelago_xl.Base.{
  ◌≡◌, refl, ◌⊎◌, inl, inr, String, Bool, true, false, ◌||◌, Option, none, some, is_some, List, [],
  ◌∷◌, any, all, arith, ◌++◌, subst,
}
use archipelago_xl.Apwm.Semver.{Semver}
use archipelago_xl.Apwm.Keyed.{names, versions, insert, is_distinct}
use archipelago_xl.Apwm.Keyed.Laws.{get-insert, insert-distinct}
use archipelago_xl.Apwm.Worlds.{WorldDef, World, Fallible, Fallible-cases, ok, fails, for_base}
use archipelago_xl.Apwm.Manifests.{Index}
use archipelago_xl.Apwm.IndexSets.{
  IndexFile, IndexSet, add_view, worlds_seen, view_for_base, get_base, base_versions, with_views,
  new_set, legacy,
}

module _ (v : Semver) where
  open v use {Version, Req, eq, eq_iff}

  abbrev pub is_distinct_view : Fallible (List (String × World Version)) → Bool
  is_distinct_view fails = true
  is_distinct_view (ok worlds) = is_distinct names worlds

  add_view-distinct :
      (name : String) (w : Fallible (Option (World Version)))
      (done : Fallible (List (String × World Version)))
      → is_distinct_view done ≡ true
      → is_distinct_view (add_view v name w done) ≡ true
  add_view-distinct name fails done h = refl
  add_view-distinct name (ok w) fails h = refl
  add_view-distinct name (ok none) (ok done) h = h
  add_view-distinct name (ok (some w)) (ok done) h = insert-distinct names name w done h

  worlds_seen-distinct :
      (base : Version) (defs : List (String × WorldDef Version Req))
      (done : Fallible (List (String × World Version)))
      → is_distinct_view done ≡ true
      → is_distinct_view (worlds_seen v base defs done) ≡ true
  worlds_seen-distinct base [] done h = h
  worlds_seen-distinct base ((name, w) ∷ defs) done h =
      worlds_seen-distinct base defs _ (add_view-distinct name (for_base v w base) done h)

  pub view_for_base-distinct :
      (s : IndexSet Version Req) (base : Version) (i : Index Version)
      → view_for_base v s base ≡ ok i
      → (is_distinct names i.worlds ≡ true) × (i.archipelago_version ≡ base)
  unfolding view_for_base
  view_for_base-distinct s base i h =
      ground (arith, worlds_seen-distinct base s.world_defs (ok []) refl)

  -- every base has the view that its version gives
  abbrev pub IsBuilt : IndexSet Version Req → Type 0
  IsBuilt s =
      (base : Version) (i : Index Version)
      → get_base v s base ≡ some i
      → view_for_base v s base ≡ ok i

  abbrev pub is_ok : {A : Type 0} → Fallible A → Bool
  is_ok fails = false
  is_ok (ok a) = true

  abbrev pub are_viewed : IndexSet Version Req → List Version → Bool
  are_viewed s bases = all (λ (b : Version). is_ok (view_for_base v s b)) bases

  -- what the loop over the bases `rest` makes of a set
  abbrev pub Adds : IndexSet Version Req → List Version → Fallible (IndexSet Version Req) → Type 0
  Adds s rest out =
      ((out ≡ fails) × (are_viewed s rest ≡ false))
      ⊎ ((t : IndexSet Version Req) × (out ≡ ok t)
          × (t.legacy_base ≡ s.legacy_base)
          × (t.world_defs ≡ s.world_defs)
          × ((u : Version)
              → is_some (get_base v t u)
                ≡ (any (λ (b : Version). eq b u) rest || is_some (get_base v s u)))
          × IsBuilt t)

  with_base-IsBuilt :
      (s : IndexSet Version Req) (base : Version) (i : Index Version)
      → view_for_base v s base ≡ ok i
      → IsBuilt s
      → IsBuilt (record s { bases = insert (versions v) base i s.bases })
  unfolding view_for_base
  with_base-IsBuilt s base i h built u j e =
      ground (arith, get-insert (versions v) u base i s.bases, built u j, eq_iff base u)

  step_fails :
      (s : IndexSet Version Req) (base : Version) (rest : List Version)
      → view_for_base v s base ≡ fails
      → Adds s (base ∷ rest) (with_views v (base ∷ rest) (ok s))
  step_fails s base rest h = inl (rw h (fails_on rest), rw h refl)
    where
      fails_on : (rest : List Version) → with_views v rest fails ≡ fails
      fails_on [] = refl
      fails_on (b ∷ rest) = refl

  abbrev with_base : IndexSet Version Req → Version → Index Version → IndexSet Version Req
  with_base s base i = record s { bases = insert (versions v) base i s.bases }

  same_views :
      (s : IndexSet Version Req) (base : Version) (i : Index Version) (rest : List Version)
      → are_viewed (with_base s base i) rest ≡ are_viewed s rest
  unfolding view_for_base
  same_views s base i rest = refl

  step_goes_on :
      (s : IndexSet Version Req) (base : Version) (rest : List Version) (i : Index Version)
      → view_for_base v s base ≡ ok i
      → Adds (with_base s base i) rest (with_views v rest (ok (with_base s base i)))
      → Adds s (base ∷ rest) (with_views v (base ∷ rest) (ok s))
  step_goes_on s base rest i h (inl (e, k)) = inl (rw h e, ground (arith, same_views s base i rest))
  step_goes_on s base rest i h (inr (t, e, l, d, has, built)) = inr (
    t,
    rw h e,
    l,
    d,
    λ u. ground (arith, has u, get-insert (versions v) u base i s.bases, eq_iff base u),
    built,
  )

  with_views-Adds :
      (rest : List Version) (s : IndexSet Version Req)
      → IsBuilt s
      → Adds s rest (with_views v rest (ok s))
  with_views-Adds [] s built = inr (s, refl, refl, refl, λ u. refl, built)
  with_views-Adds (base ∷ rest) s built = elim (Fallible-cases (view_for_base v s base)) [
    | inl h ↦ step_fails s base rest h
    | inr (i, h) ↦
        step_goes_on s base rest i h
          (with_views-Adds rest (with_base s base i) (with_base-IsBuilt s base i h built))
  ]

  abbrev pub unbuilt :
      IndexFile Version → List (String × WorldDef Version Req) → IndexSet Version Req
  unbuilt f defs = record { legacy_base = f.archipelago_version; bases = []; world_defs = defs }

  abbrev pub Builds :
      IndexFile Version
      → List (String × WorldDef Version Req)
      → Fallible (IndexSet Version Req)
      → Type 0
  Builds f defs out =
      ((out ≡ fails) × (are_viewed (unbuilt f defs) (base_versions v f) ≡ false))
      ⊎ ((s : IndexSet Version Req) × (out ≡ ok s)
          × (s.world_defs ≡ defs)
          × ((u : Version)
              → is_some (get_base v s u)
                ≡ (eq u f.archipelago_version || any (λ (b : Version). eq b u) f.bases))
          × (is_some (legacy v s) ≡ true)
          × IsBuilt s)

  any_end :
      (u b : Version) (bs : List Version)
      → any (λ (a : Version). eq a u) (bs ++ (b ∷ []))
        ≡ (eq u b || any (λ (a : Version). eq a u) bs)
  any_end u b [] = ground (arith, eq_iff b u, eq_iff u b)
  any_end u b (a ∷ bs) = ground (arith, any_end u b bs)

  any_same :
      (u b : Version) (bs : List Version)
      → any (λ (a : Version). eq a b) bs ≡ true
      → any (λ (a : Version). eq a u) bs ≡ (eq u b || any (λ (a : Version). eq a u) bs)
  any_same u b bs h =
      ground (arith, subst (λ (c : Version). any (λ (a : Version). eq a c) bs ≡ true), eq_iff u b)

  any-base_versions :
      (u : Version) (f : IndexFile Version)
      → any (λ (b : Version). eq b u) (base_versions v f)
        ≡ (eq u f.archipelago_version || any (λ (b : Version). eq b u) f.bases)
  any-base_versions u f =
      ground
        (arith, any_end u f.archipelago_version f.bases, any_same u f.archipelago_version f.bases)

  -- Building an index set from the `bases` of `index.toml` and the world files fails just if some
  -- base's view fails. Otherwise the set has the bases that are listed and `archipelago_version`,
  -- which always has a view, and every base has the view that its version gives.
  pub new_set-Builds :
      (f : IndexFile Version) (defs : List (String × WorldDef Version Req))
      → Builds f defs (new_set v f defs)
  unfolding new_set
  new_set-Builds f defs =
      elim (with_views-Adds (base_versions v f) (unbuilt f defs) (λ u j e. ground arith)) [
        | inl (e, k) ↦ inl (e, k)
        | inr (s, e, l, d, has, built) ↦ inr (
          s,
          e,
          d,
          λ u. ground (arith, has u, any-base_versions u f),
          ground (
            arith,
            has f.archipelago_version,
            any-base_versions f.archipelago_version f,
            eq_iff f.archipelago_version f.archipelago_version,
          ),
          built,
        )
      ]
