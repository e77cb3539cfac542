-- ===== src/Apwm/Changes/Between.antt =====
-- The changes between two index sets are the differences of their views, base by base.
use archipelago_xl.Base.{
  ◌≡◌, refl, sym, ap, ◌∙◌, ◌⊎◌, inl, inr, String, Bool, true, false, not, ◌&&◌, Option, none, some,
  is_some, List, [], ◌∷◌, ◌++◌, append-nil, append_assoc, all, arith, Option-cases,
}
use archipelago_xl.Apwm.Semver.{Semver}
use archipelago_xl.Apwm.Keyed.{names, versions, get, contains, keys, is_distinct}
use archipelago_xl.Apwm.Keyed.Laws.{contains-get}
use archipelago_xl.Apwm.Worlds.{Fallible, Fallible-cases, ok, fails}
use archipelago_xl.Apwm.Manifests.{Index}
use archipelago_xl.Apwm.IndexSets.{IndexSet, bases, get_base, view_for_base}
use archipelago_xl.Apwm.IndexSets.Built.{IsBuilt, are_viewed, view_for_base-distinct}
use archipelago_xl.Apwm.IndexSets.Releases.{offered}
use archipelago_xl.Apwm.Changes.{
  WorldChanges, Changes, compute_changes, is_empty, merge_all, between_bases, bases_without,
  compute_changes_between,
}
use archipelago_xl.Apwm.Changes.Views.{
  is_in, added_at, removed_at, when, added_at-change, removed_at-change,
}
use archipelago_xl.Apwm.Changes.Loops.{get-compute_changes}
use archipelago_xl.Apwm.Changes.Recorded.{
  IsRecorded, Recorded, compute_changes-Recorded, get-IsRecorded,
}
use archipelago_xl.Apwm.Changes.Bases.{merge_all-Recorded, merge_all-joins}

module _ (v : Semver) where
  open v use {Version, Req}

  -- a base's view has a version of a world
  abbrev pub is_seen_in : Fallible (Index Version) → String → Version → Bool
  is_seen_in fails name u = false
  is_seen_in (ok i) name u = offered v i.worlds name u

  abbrev pub is_seen : IndexSet Version Req → Version → String → Version → Bool
  is_seen s base name u = is_seen_in (view_for_base v s base) name u

  -- the bases that see a version of a world in one set, and do not in another
  abbrev pub gained :
      IndexSet Version Req → IndexSet Version Req → String → Version → List Version → List Version
  gained old new name u [] = []
  gained old new name u (b ∷ bs) =
      when v (is_seen new b name u && not (is_seen old b name u)) b ++ gained old new name u bs

  abbrev Grows :
      IndexSet Version Req
      → IndexSet Version Req
      → List Version
      → List (String × WorldChanges Version)
      → Fallible (List (String × WorldChanges Version))
      → Type 0
  Grows old new bs done out =
      ((out ≡ fails) × (are_viewed v old bs ≡ false))
      ⊎ ((worlds : List (String × WorldChanges Version)) × (out ≡ ok worlds)
          × (are_viewed v old bs ≡ true)
          × Recorded v worlds
          × ((name : String) (u : Version)
              → added_at v (get names name worlds) u
                ≡ added_at v (get names name done) u ++ gained old new name u bs)
          × ((name : String) (u : Version)
              → removed_at v (get names name worlds) u
                ≡ removed_at v (get names name done) u ++ gained new old name u bs))

  merge_views :
      (o n : Index Version) (base : Version) (done : List (String × WorldChanges Version))
      (name : String) (u : Version)
      → (is_distinct names o.worlds ≡ true)
      → is_distinct names n.worlds ≡ true
      → n.archipelago_version ≡ base
      → (added_at v (get names name (merge_all v (compute_changes v o n).worlds done)) u
          ≡ added_at v (get names name done) u
            ++ when v (offered v n.worlds name u && not (offered v o.worlds name u)) base)
        × (removed_at v (get names name (merge_all v (compute_changes v o n).worlds done)) u
            ≡ removed_at v (get names name done) u
              ++ when v (offered v o.worlds name u && not (offered v n.worlds name u)) base)
  merge_views o n base done name u d e a =
      let r = compute_changes-Recorded v o n in
      ground (
        arith,
        merge_all-joins v (compute_changes v o n).worlds done name u r.0 r.1,
        get-compute_changes v o n name d e,
        added_at-change v (get names name o.worlds) (get names name n.worlds) base u,
        removed_at-change v (get names name o.worlds) (get names name n.worlds) base u,
      )

  step_fails :
      (old new : IndexSet Version Req) (base : Version) (bs : List Version)
      (done : List (String × WorldChanges Version))
      → view_for_base v old base ≡ fails
      → Grows old new (base ∷ bs) done (between_bases v old new (base ∷ bs) (ok done))
  step_fails old new base bs done h = inl (rw h (fails_on bs), rw h refl)
    where
      fails_on : (bs : List Version) → between_bases v old new bs fails ≡ fails
      fails_on [] = refl
      fails_on (b ∷ bs) = refl

  step_goes_on :
      (old new : IndexSet Version Req) (base : Version) (bs : List Version)
      (done : List (String × WorldChanges Version)) (o n : Index Version)
      → view_for_base v old base ≡ ok o
      → get_base v new base ≡ some n
      → view_for_base v new base ≡ ok n
      → Grows old new bs
          (merge_all v (compute_changes v o n).worlds done)
          (between_bases v old new bs (ok (merge_all v (compute_changes v o n).worlds done)))
      → Grows old new (base ∷ bs) done (between_bases v old new (base ∷ bs) (ok done))
  step_goes_on old new base bs done o n h g k (inl (e, f)) = inl (rw (h, g) e, ground (arith, f))
  step_goes_on old new base bs done o n h g k (inr (worlds, e, f, r, adds, removes)) =
      let p = view_for_base-distinct v old base o h in
      let q = view_for_base-distinct v new base n k in
      inr (
        worlds,
        rw (h, g) e,
        rw h f,
        r,
        λ name u. ground (
          arith,
          adds name u,
          merge_views o n base done name u p.0 q.0 q.1,
          append_assoc (added_at v (get names name done) u)
              (when v (offered v n.worlds name u && not (offered v o.worlds name u)) base)
              (gained old new name u bs),
        ),
        λ name u. ground (
          arith,
          removes name u,
          merge_views o n base done name u p.0 q.0 q.1,
          append_assoc (removed_at v (get names name done) u)
              (when v (offered v o.worlds name u && not (offered v n.worlds name u)) base)
              (gained new old name u bs),
        ),
      )

  -- every one of the bases has a view
  abbrev have_views : IndexSet Version Req → List Version → Bool
  have_views s bs = all (λ (b : Version). is_some (get_base v s b)) bs

  between_bases-Grows :
      (old new : IndexSet Version Req) (bs : List Version)
      (done : List (String × WorldChanges Version))
      → IsBuilt v new
      → have_views new bs ≡ true
      → Recorded v done
      → Grows old new bs done (between_bases v old new bs (ok done))
  between_bases-Grows old new [] done built h r =
      inr (done, refl, refl, r, λ name u. sym (append-nil _), λ name u. sym (append-nil _))
  between_bases-Grows old new (b ∷ bs) done built h r =
      elim (Fallible-cases (view_for_base v old b)) [
        | inl e ↦ step_fails old new b bs done e
        | inr (o, e) ↦ elim (Option-cases (get_base v new b)) [
          | inl k ↦ ground arith
          | inr (n, k) ↦ step_goes_on old new b bs done o n e k (built b n k) (
              between_bases-Grows old new bs (merge_all v (compute_changes v o n).worlds done) built
                (ground arith)
                (merge_all-Recorded v (compute_changes v o n).worlds done
                  (compute_changes-Recorded v o n).1 r))
        ]
      ]

  keys-have :
      (views more : List (Version × Index Version))
      → ((b : Version) → contains (versions v) b more ≡ true → contains (versions v) b views ≡ true)
      → all (λ (b : Version). contains (versions v) b views) (keys (versions v) more) ≡ true
  keys-have views [] h = refl
  keys-have views ((b, i) ∷ more) h =
      ground (arith, h b, v.eq_iff b b, keys-have views more (λ c k. h c (ground arith)))

  all-same :
      (views : List (Version × Index Version)) (bs : List Version)
      → all (λ (b : Version). is_some (get (versions v) b views)) bs
        ≡ all (λ (b : Version). contains (versions v) b views) bs
  all-same views [] = refl
  all-same views (b ∷ bs) = ground (arith, all-same views bs, contains-get (versions v) b views)

  abbrev pub listed :
      (WorldChanges Version → List Version) → Option (WorldChanges Version) → List Version
  listed field none = []
  listed field (some c) = field c

  -- The abstract view of what changed between two index sets: the bases that are new, and for
  -- every world and version the bases that have it now and did not, and the reverse.
  abbrev pub Differs :
      IndexSet Version Req → IndexSet Version Req → Fallible (Changes Version) → Type 0
  Differs old new out =
      ((out ≡ fails) × (are_viewed v old (bases v new) ≡ false))
      ⊎ ((c : Changes Version) × (out ≡ ok c)
          × (are_viewed v old (bases v new) ≡ true)
          × (c.bases ≡ bases v new)
          × ((b : Version)
              → is_in v b c.added_bases
                ≡ (is_in v b (bases v new) && not (is_some (get_base v old b))))
          × ((name : String) (u : Version)
              → (added_at v (get names name c.worlds) u ≡ gained old new name u (bases v new))
                × (removed_at v (get names name c.worlds) u ≡ gained new old name u (bases v new))
                × (is_in v u (listed (λ k. k.added_versions) (get names name c.worlds))
                    ≡ not (is_empty v (gained old new name u (bases v new))))
                × (is_in v u (listed (λ k. k.removed_versions) (get names name c.worlds))
                    ≡ not (is_empty v (gained new old name u (bases v new))))))

  is_in-bases_without :
      (old : IndexSet Version Req) (b : Version) (bs : List Version)
      → is_in v b (bases_without v old bs) ≡ (is_in v b bs && not (is_some (get_base v old b)))
  is_in-bases_without old b [] = refl
  is_in-bases_without old b (a ∷ bs) = ground (arith, is_in-bases_without old b bs, v.eq_iff a b)

  listed-recorded :
      (o : Option (WorldChanges Version)) (u : Version)
      → ((c : WorldChanges Version) → o ≡ some c → IsRecorded v c)
      → (is_in v u (listed (λ k. k.added_versions) o) ≡ not (is_empty v (added_at v o u)))
        × (is_in v u (listed (λ k. k.removed_versions) o) ≡ not (is_empty v (removed_at v o u)))
  listed-recorded none u r = (refl, refl)
  listed-recorded (some c) u r =
      let k = r c refl in (k.added u ∙ k.added_full u, k.removed u ∙ k.removed_full u)

  all_bases_viewed : (s : IndexSet Version Req) → have_views s (bases v s) ≡ true
  all_bases_viewed s = all-same s.bases (bases v s) ∙ keys-have s.bases s.bases (λ b k. k)

  -- If the new index set is built, computing the changes from an old one fails just if the old one
  -- has no view for some base of the new one. Otherwise the changes name, for every world and
  -- version, exactly the bases of the new set, in its order, that see the version in the new set
  -- and not in the old one as added, and the ones that see it in the old set only as removed; they
  -- list exactly the versions with such bases; and their added bases are those the old set lacks.
  pub compute_changes_between-Differs :
      (old new : IndexSet Version Req)
      → IsBuilt v new
      → Differs old new (compute_changes_between v old new)
  unfolding compute_changes_between
  compute_changes_between-Differs old new built =
      elim (between_bases-Grows old new (bases v new) [] built (all_bases_viewed new) (refl, tt)) [
        | inl (e, f) ↦ inl (rw e refl, f)
        | inr (worlds, e, f, r, adds, removes) ↦ inr (
          _,
          rw e refl,
          f,
          refl,
          λ b. is_in-bases_without old b (bases v new),
          λ name u.
              let l =
                listed-recorded (get names name worlds) u
                  (λ c k. get-IsRecorded v name c worlds k r) in
              (
                adds name u,
                removes name u,
                l.0 ∙ ap (λ (bs : List Version). not (is_empty v bs)) (adds name u),
                l.1 ∙ ap (λ (bs : List Version). not (is_empty v bs)) (removes name u),
              ),
        )
      ]
