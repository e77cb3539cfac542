-- ===== src/Apwm/Checksums/Fetching.antt =====
-- What was downloaded once can be downloaded from the changes and their checksums.
use archipelago_xl.Base.{
  ◌≡◌, ◌⊎◌, inl, inr, refl, sym, ◌∙◌, String, true, some, List, [], ◌∷◌, arith, Bool-cases,
  Option-cases, subst, some-injective,
}
use archipelago_xl.Apwm.Semver.{Semver}
use archipelago_xl.Apwm.Keyed.{names, get, is_distinct}
use archipelago_xl.Apwm.Keyed.Laws.{AllOf, AllOf-get, AllOf-of_get}
use archipelago_xl.Apwm.Worlds.{World, ok, ok-injective}
use archipelago_xl.Apwm.Manifests.{Index}
use archipelago_xl.Apwm.Changes.{Checksum, WorldChanges, Changes, is_empty}
use archipelago_xl.Apwm.Changes.Views.{is_in}
use archipelago_xl.Apwm.Files.{Files, >>=-eq-ok, result->>=}
use archipelago_xl.Apwm.Checksums.{
  download_world, download_worlds, download_changed_apworlds, create_dir_all, apply_each,
  apply_checksums, fetch_version, fetch_versions, fetch_world, fetch_worlds, download_from_changes,
}
use archipelago_xl.Apwm.Checksums.Recording.{HasRoom, AllFit, is_recorded, versions-record}
use archipelago_xl.Apwm.Checksums.Applying.{
  HasFit, Applied, get-apply_each, get-apply_each_absent, apply_each-distinct,
}

module _ (v : Semver) (files : Files) (index : Index v.Version) (destination : String) where
  open v use {Version, eq, eq_iff}

  -- every added version of a world of the index has a checksum
  abbrev Covered :
      List (String × List (Version × Checksum)) → String → WorldChanges Version → Type 0
  Covered cs name c =
      (is_empty v c.added_versions ≡ true)
      ⊎ ((w : World Version) × (get names name index.worlds ≡ some w)
          × ((u : Version)
              → is_in v u c.added_versions ≡ true
              → is_recorded v files index destination name u cs ≡ true))

  abbrev Grow : (cs out : List (String × List (Version × Checksum))) → Type 0
  Grow cs out =
      (name : String) (u : Version)
      → is_recorded v files index destination name u cs ≡ true
      → is_recorded v files index destination name u out ≡ true

  world-record :
      (dir name : String) (c : WorldChanges Version)
      (cs out : List (String × List (Version × Checksum)))
      → HasRoom v files index destination
      → AllFit v files index destination cs
      → (download_world v files dir index name c cs).result ≡ ok out
      → AllFit v files index destination out × Grow cs out × Covered out name c
  world-record dir name c cs out room fit r = elim (Bool-cases (is_empty v c.added_versions)) [
    | inl e ↦
        let s = ok-injective cs out (rw e at r) in
        (subst (AllFit v files index destination) s fit, λ n u h. ground (arith, s), inl e)
    | inr e ↦ elim (Option-cases (get names name index.worlds)) [
      | inl k ↦ ground (arith, rw (e, k) at r)
      | inr (w, k) ↦
          let rest =
            versions-record v files index destination dir name w c.added_versions cs out room k fit
              (rw (e, k) at r) in
          (
            rest.0,
            λ n u h. ground (arith, rest.1 n u),
            inr (w, k, λ u i. ground (arith, rest.1 name u, names.eq_iff name name)),
          )
    ]
  ]

  grown-Covered :
      (name : String) (c : WorldChanges Version)
      (cs out : List (String × List (Version × Checksum)))
      → Grow cs out
      → Covered cs name c
      → Covered out name c
  grown-Covered name c cs out g (inl e) = inl e
  grown-Covered name c cs out g (inr (w, k, h)) = inr (w, k, λ u i. g name u (h u i))

  worlds-record :
      (dir : String) (worlds : List (String × WorldChanges Version))
      (cs out : List (String × List (Version × Checksum)))
      → HasRoom v files index destination
      → AllFit v files index destination cs
      → (download_worlds v files dir index worlds cs).result ≡ ok out
      → AllFit v files index destination out × Grow cs out × AllOf names (Covered out) worlds
  worlds-record dir [] cs out room fit r =
      let s = ok-injective cs out r in
      (subst (AllFit v files index destination) s fit, λ n u h. ground (arith, s), tt)
  worlds-record dir ((name, c) ∷ worlds) cs out room fit r =
      let one = >>=-eq-ok (download_world v files dir index name c cs) _ out r in
      let first = world-record dir name c cs one.0 room fit one.1 in
      let rest = worlds-record dir worlds one.0 out room first.0 one.2 in
      (
        rest.0,
        λ n u h. rest.1 n u (first.1 n u h),
        (grown-Covered name c one.0 out rest.1 first.2, rest.2),
      )

  fetched_versions :
      (name : String) (w : World Version) (checksums : List (Version × Checksum))
      (us : List Version)
      → get names name index.worlds ≡ some w
      → ((u : Version) → is_in v u us ≡ true → HasFit v files index destination name u checksums)
      → (fetch_versions v files destination name w checksums us).result ≡ ok tt
  fetched_versions name w checksums [] known h = refl
  fetched_versions name w checksums (u ∷ us) known h =
      let one = h u (ground (arith, eq_iff u u)) in
      result->>= (fetch_version v files destination name w checksums u) _ tt
        (rw one.1 (one.2 w known))
      ∙ fetched_versions name w checksums us known (λ x i. h x (ground arith))

  -- the changes of a world of which every added version has a checksum that fits
  IsFetched : String → WorldChanges Version → Type 0
  IsFetched name c = (fetch_world v files destination index name c).result ≡ ok tt

  Covered-IsFetched :
      (name : String) (cs : List (String × List (Version × Checksum))) (c d : WorldChanges Version)
      → Covered cs name c
      → Applied v files index destination name cs c d
      → IsFetched name d
  unfolding IsFetched
  Covered-IsFetched name cs c d (inl e) (same, fits) = rw (same, e) refl
  Covered-IsFetched name cs c d (inr (w, known, h)) (same, fits) =
      elim (Bool-cases (is_empty v d.added_versions)) [
        | inl e ↦ rw e refl
        | inr e ↦
            rw (e, known)
              (fetched_versions name w d.checksums d.added_versions known
                (λ u i. fits u (inr (h u (rw same at i)))))
      ]

  fetched_worlds :
      (worlds : List (String × WorldChanges Version))
      → AllOf names IsFetched worlds
      → (fetch_worlds v files destination index worlds).result ≡ ok tt
  unfolding IsFetched
  fetched_worlds [] h = refl
  fetched_worlds ((name, c) ∷ worlds) (h, hs) =
      result->>= (fetch_world v files destination index name c) _ tt h ∙ fetched_worlds worlds hs

  applied-IsFetched :
      (worlds : List (String × WorldChanges Version))
      (cs : List (String × List (Version × Checksum)))
      → is_distinct names worlds ≡ true
      → AllFit v files index destination cs
      → AllOf names (Covered cs) worlds
      → AllOf names IsFetched (apply_each v files cs worlds)
  applied-IsFetched worlds cs d fit covered =
      AllOf-of_get names IsFetched (apply_each v files cs worlds)
        (apply_each-distinct v files index destination cs worlds d)
        (λ name k e. elim (Option-cases (get names name worlds)) [
          | inl n ↦ ground (arith, get-apply_each_absent v files index destination name cs worlds n)
          | inr (c, g) ↦
              let applied = get-apply_each v files index destination name cs worlds c fit g in
              subst (IsFetched name) (some-injective _ _ (sym applied.1 ∙ e)) (
                Covered-IsFetched name cs c applied.0
                  (AllOf-get names (Covered cs) name c worlds g covered) applied.2)
        ])

  -- If the added versions could be downloaded and their checksums are applied to the changes, which
  -- name no world twice, then downloading from these changes succeeds, given the same index, the
  -- same answers to requests, and a destination that can be created and has room for every file:
  -- every added version that is not `supported` has the checksum that the second download expects.
  pub download_from_changes-succeeds :
      (changes : Changes Version) (output_dir : String)
      (checksums : List (String × List (Version × Checksum)))
      → HasRoom v files index destination
      → files.can_create_dir destination ≡ true
      → is_distinct names changes.worlds ≡ true
      → (download_changed_apworlds v files changes index output_dir).result ≡ ok checksums
      → (download_from_changes v files
          (apply_checksums v files changes checksums)
          index
          destination).result
        ≡ ok tt
  unfolding download_changed_apworlds download_from_changes apply_checksums
  download_from_changes-succeeds changes output_dir checksums room dir d r =
      let made =
        >>=-eq-ok (create_dir_all v files (files.join output_dir "apworlds")) _ checksums r in
      let all =
        worlds-record (files.join output_dir "apworlds") changes.worlds [] checksums room tt
          made.2 in
      result->>= (create_dir_all v files destination) _ tt (rw dir refl)
      ∙ fetched_worlds (apply_each v files checksums changes.worlds)
          (applied-IsFetched changes.worlds checksums d all.0 all.2)
