-- ===== src/Apwm/Checksums/Applying.antt =====
-- What applying checksums leaves with the changes of each world.
use archipelago_xl.Base.{
  ◌≡◌, ◌⊎◌, inl, inr, refl, ◌∙◌, String, true, Option, none, some, List, [], ◌∷◌, arith, Bool-cases,
  Option-cases, if◌then◌else◌, subst,
}
use archipelago_xl.Apwm.Semver.{Semver}
use archipelago_xl.Apwm.Keyed.{names, versions, get, contains, insert, is_distinct}
use archipelago_xl.Apwm.Keyed.Laws.{get-insert, insert-distinct, AllOf}
use archipelago_xl.Apwm.Manifests.{Index}
use archipelago_xl.Apwm.Changes.{Checksum, WorldChanges}
use archipelago_xl.Apwm.Files.{Files}
use archipelago_xl.Apwm.Checksums.{extend, apply_to, apply_each}
use archipelago_xl.Apwm.Checksums.Recording.{Fits, AllFit, is_recorded}

module _ (v : Semver) (files : Files) (index : Index v.Version) (destination : String) where
  open v use {Version, eq, eq_iff}

  abbrev pub HasFit : String → Version → List (Version × Checksum) → Type 0
  HasFit name u m =
      (k : Checksum) × (get (versions v) u m ≡ some k) × Fits v files index destination name u k

  insert-HasFit :
      (name : String) (u w : Version) (k : Checksum) (m : List (Version × Checksum))
      → Fits v files index destination name w k
      → HasFit name u m ⊎ (eq w u ≡ true)
      → HasFit name u (insert (versions v) w k m)
  insert-HasFit name u w k m f h = elim (Bool-cases (eq w u)) [
    | inl e ↦ (
      k,
      get-insert (versions v) u w k m ∙ rw e refl,
      subst (λ (x : Version). Fits v files index destination name x k) ((eq_iff w u).0 e) f,
    )
    | inr e ↦ elim h [
      | inl (j, g, fit) ↦ (j, get-insert (versions v) u w k m ∙ rw e g, fit)
      | inr e' ↦ ground arith
    ]
  ]

  extend-HasFit :
      (name : String) (u : Version) (more m : List (Version × Checksum))
      → AllOf (versions v) (Fits v files index destination name) more
      → HasFit name u m ⊎ (contains (versions v) u more ≡ true)
      → HasFit name u (extend v files more m)
  extend-HasFit name u [] m f (inl h) = h
  extend-HasFit name u [] m f (inr e) = ground arith
  extend-HasFit name u ((w, k) ∷ more) m (f, fs) h =
      extend-HasFit name u more (insert (versions v) w k m) fs (elim h [
        | inl g ↦ inl (insert-HasFit name u w k m f (inl g))
        | inr e ↦ elim (Bool-cases (eq w u)) [
          | inl same ↦ inl (insert-HasFit name u w k m f (inr same))
          | inr other ↦ inr (ground arith)
        ]
      ])

  abbrev given_checksums : List (Version × Checksum) → WorldChanges Version → WorldChanges Version
  given_checksums more c = record c { checksums = extend v files more c.checksums }

  get-apply_to :
      (name n : String) (more : List (Version × Checksum))
      (worlds : List (String × WorldChanges Version)) (c : WorldChanges Version)
      → get names name worlds ≡ some c
      → get names name (apply_to v files n more (get names n worlds) worlds)
        ≡ some (if names.eq n name then given_checksums more c else c)
  get-apply_to name n more worlds c h = elim (Option-cases (get names n worlds)) [
    | inl e ↦ ground (arith, names.eq_iff n name)
    | inr (d, e) ↦
        ground (arith, names.eq_iff n name, get-insert names name n (given_checksums more d) worlds)
  ]

  get-apply_to_absent :
      (name n : String) (more : List (Version × Checksum))
      (worlds : List (String × WorldChanges Version))
      → get names name worlds ≡ none
      → get names name (apply_to v files n more (get names n worlds) worlds) ≡ none
  get-apply_to_absent name n more worlds h = elim (Option-cases (get names n worlds)) [
    | inl e ↦ ground arith
    | inr (d, e) ↦
        ground (arith, names.eq_iff n name, get-insert names name n (given_checksums more d) worlds)
  ]

  pub get-apply_each_absent :
      (name : String) (cs : List (String × List (Version × Checksum)))
      (worlds : List (String × WorldChanges Version))
      → get names name worlds ≡ none
      → get names name (apply_each v files cs worlds) ≡ none
  get-apply_each_absent name [] worlds h = h
  get-apply_each_absent name ((n, more) ∷ cs) worlds h =
      get-apply_each_absent name cs _ (get-apply_to_absent name n more worlds h)

  apply_to-distinct :
      (n : String) (more : List (Version × Checksum)) (c : Option (WorldChanges Version))
      (worlds : List (String × WorldChanges Version))
      → is_distinct names worlds ≡ true
      → is_distinct names (apply_to v files n more c worlds) ≡ true
  apply_to-distinct n more none worlds d = d
  apply_to-distinct n more (some c) worlds d =
      insert-distinct names n (given_checksums more c) worlds d

  pub apply_each-distinct :
      (cs : List (String × List (Version × Checksum)))
      (worlds : List (String × WorldChanges Version))
      → is_distinct names worlds ≡ true
      → is_distinct names (apply_each v files cs worlds) ≡ true
  apply_each-distinct [] worlds d = d
  apply_each-distinct ((n, more) ∷ cs) worlds d =
      apply_each-distinct cs _ (apply_to-distinct n more (get names n worlds) worlds d)

  -- the changes of a world keep their versions, and every checksum that fits
  abbrev pub Applied :
      String → List (String × List (Version × Checksum)) → (c d : WorldChanges Version) → Type 0
  Applied name cs c d =
      (d.added_versions ≡ c.added_versions)
      × ((u : Version)
          → HasFit name u c.checksums ⊎ (is_recorded v files index destination name u cs ≡ true)
          → HasFit name u d.checksums)

  pub get-apply_each :
      (name : String) (cs : List (String × List (Version × Checksum)))
      (worlds : List (String × WorldChanges Version)) (c : WorldChanges Version)
      → AllFit v files index destination cs
      → get names name worlds ≡ some c
      → (d : WorldChanges Version) × (get names name (apply_each v files cs worlds) ≡ some d)
        × Applied name cs c d
  get-apply_each name [] worlds c f h =
      (c, h, (refl, λ u g. elim g [ inl fit ↦ fit | inr e ↦ ground arith ]))
  get-apply_each name ((n, more) ∷ cs) worlds c (f, fs) h = elim (Bool-cases (names.eq n name)) [
    | inl e ↦
        let d =
          get-apply_each name cs _ (given_checksums more c) fs
            (get-apply_to name n more worlds c h ∙ rw e refl) in
        (d.0, d.1, (d.2.0, λ u g. d.2.1 u (inl (extended f e u g))))
    | inr e ↦
        let d = get-apply_each name cs _ c fs (get-apply_to name n more worlds c h ∙ rw e refl) in
        (d.0, d.1, (d.2.0, λ u g. d.2.1 u (elim g [ inl fit ↦ inl fit | inr r ↦ inr (rw e at r) ])))
  ]
    where
      extended :
          AllOf (versions v) (Fits v files index destination n) more
          → names.eq n name ≡ true
          → (u : Version)
          → HasFit name u c.checksums
            ⊎ (is_recorded v files index destination name u ((n, more) ∷ cs) ≡ true)
          → HasFit name u (extend v files more c.checksums)
      extended f e u g =
          extend-HasFit name u more c.checksums
            (subst (λ (x : String). AllOf (versions v) (Fits v files index destination x) more)
              ((names.eq_iff n name).0 e) f)
            (elim g [ inl fit ↦ inl fit | inr r ↦ inr (rw e at r) ])
