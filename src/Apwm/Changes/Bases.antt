-- ===== src/Apwm/Changes/Bases.antt =====
-- The changes of all bases together.
use archipelago_xl.Base.{
  ◌≡◌, refl, sym, String, true, ◌&&◌, Option, none, some, ◌||◌, List, [], ◌∷◌, ◌++◌, append-nil,
  arith, if◌then◌else◌,
}
use archipelago_xl.Apwm.Semver.{Semver}
use archipelago_xl.Apwm.Keyed.{names, versions, get, contains, insert, is_distinct, extend_entry}
use archipelago_xl.Apwm.Keyed.Laws.{contains-get, get-insert, insert-distinct, AllOf}
use archipelago_xl.Apwm.Changes.{WorldChanges, extend_each, is_empty, merge, merge_or, merge_all}
use archipelago_xl.Apwm.Changes.Views.{added_at, removed_at, is_in-keys}
use archipelago_xl.Apwm.Changes.Recorded.{
  bases_of, IsFull, IsRecorded, Recorded, insert-Recorded, get-IsRecorded,
}

module _ (v : Semver) where
  open v use {Version}

  bases_of-extend_entry :
      (u w : Version) (bs : List Version) (m : List (Version × List Version))
      → bases_of v u (extend_entry (versions v) w bs m)
        ≡ (if v.eq w u then bases_of v u m ++ bs else bases_of v u m)
  bases_of-extend_entry u w bs m =
      ground (arith, get-insert (versions v) u w (bases_of v w m ++ bs) m, v.eq_iff w u)

  bases_of-extend_each :
      (u : Version) (other mine : List (Version × List Version))
      → is_distinct (versions v) other ≡ true
      → bases_of v u (extend_each v other mine) ≡ bases_of v u mine ++ bases_of v u other
  bases_of-extend_each u [] mine d = ground (arith, append-nil (bases_of v u mine))
  bases_of-extend_each u ((w, bs) ∷ other) mine d = ground (
    arith,
    bases_of-extend_each u other (extend_entry (versions v) w bs mine),
    bases_of-extend_entry u w bs mine,
    contains-get (versions v) w other,
    v.eq_iff w u,
    append-nil (bases_of v u mine ++ bs),
  )

  extend_each-distinct :
      (other mine : List (Version × List Version))
      → is_distinct (versions v) mine ≡ true
      → is_distinct (versions v) (extend_each v other mine) ≡ true
  extend_each-distinct [] mine d = d
  extend_each-distinct ((w, bs) ∷ other) mine d =
      extend_each-distinct other _ (insert-distinct (versions v) w (bases_of v w mine ++ bs) mine d)

  is_empty-append :
      (xs ys : List Version) → is_empty v (xs ++ ys) ≡ (is_empty v xs && is_empty v ys)
  is_empty-append [] ys = refl
  is_empty-append (x ∷ xs) ys = refl

  contains-extend_each :
      (u : Version) (other mine : List (Version × List Version))
      → contains (versions v) u (extend_each v other mine)
        ≡ (contains (versions v) u mine || contains (versions v) u other)
  contains-extend_each u [] mine = ground arith
  contains-extend_each u ((w, bs) ∷ other) mine = ground (
    arith,
    contains-extend_each u other (extend_entry (versions v) w bs mine),
    contains-get (versions v) u (extend_entry (versions v) w bs mine),
    contains-get (versions v) u mine,
    get-insert (versions v) u w (bases_of v w mine ++ bs) mine,
  )

  extend_each-IsFull :
      (other mine : List (Version × List Version))
      → is_distinct (versions v) other ≡ true
      → IsFull v other
      → IsFull v mine
      → IsFull v (extend_each v other mine)
  extend_each-IsFull other mine d f g u = ground (
    arith,
    contains-extend_each u other mine,
    bases_of-extend_each u other mine,
    f u,
    g u,
    is_empty-append (bases_of v u mine) (bases_of v u other),
  )

  merge-IsRecorded :
      (a b : WorldChanges Version) → IsRecorded v a → IsRecorded v b → IsRecorded v (merge v a b)
  unfolding merge
  merge-IsRecorded a b r s = record {
    added_full =
        extend_each-IsFull b.added_on a.added_on s.added_distinct s.added_full r.added_full;
    removed_full =
        extend_each-IsFull b.removed_from a.removed_from s.removed_distinct s.removed_full
          r.removed_full;
    added_distinct = extend_each-distinct b.added_on a.added_on r.added_distinct;
    removed_distinct = extend_each-distinct b.removed_from a.removed_from r.removed_distinct;
    added = λ u. is_in-keys v u (extend_each v b.added_on a.added_on);
    removed = λ u. is_in-keys v u (extend_each v b.removed_from a.removed_from);
  }

  -- `merge` joins the bases of every version, and lists the versions that have bases
  pub merge-joins :
      (o : Option (WorldChanges Version)) (c : WorldChanges Version) (u : Version)
      → IsRecorded v c
      → (added_at v (some (merge_or v o c)) u ≡ added_at v o u ++ added_at v (some c) u)
        × (removed_at v (some (merge_or v o c)) u ≡ removed_at v o u ++ removed_at v (some c) u)
  unfolding merge
  merge-joins none c u r = (refl, refl)
  merge-joins (some a) c u r = (
    bases_of-extend_each u c.added_on a.added_on r.added_distinct,
    bases_of-extend_each u c.removed_from a.removed_from r.removed_distinct,
  )

  merge_or-IsRecorded :
      (o : Option (WorldChanges Version)) (c : WorldChanges Version)
      → ((a : WorldChanges Version) → o ≡ some a → IsRecorded v a)
      → IsRecorded v c
      → IsRecorded v (merge_or v o c)
  merge_or-IsRecorded none c r s = s
  merge_or-IsRecorded (some a) c r s = merge-IsRecorded a c (r a refl) s

  pub merge_all-Recorded :
      (more done : List (String × WorldChanges Version))
      → AllOf names (λ (_ : String). IsRecorded v) more
      → Recorded v done
      → Recorded v (merge_all v more done)
  merge_all-Recorded [] done rs d = d
  merge_all-Recorded ((n, c) ∷ more) done (r, rs) d = merge_all-Recorded more _ rs (
      insert-Recorded v n _ done
        (merge_or-IsRecorded (get names n done) c (λ a e. get-IsRecorded v n a done e d) r) d)

  -- merging the changes of one more base adds its bases at the end, for every world and version
  pub merge_all-joins :
      (more done : List (String × WorldChanges Version)) (name : String) (u : Version)
      → is_distinct names more ≡ true
      → AllOf names (λ (_ : String). IsRecorded v) more
      → (added_at v (get names name (merge_all v more done)) u
          ≡ added_at v (get names name done) u ++ added_at v (get names name more) u)
        × (removed_at v (get names name (merge_all v more done)) u
            ≡ removed_at v (get names name done) u ++ removed_at v (get names name more) u)
  merge_all-joins [] done name u d rs = (sym (append-nil _), sym (append-nil _))
  merge_all-joins ((n, c) ∷ more) done name u d (r, rs) = ground (
    arith,
    merge_all-joins more (insert names n (merge_or v (get names n done) c) done) name u _ rs,
    get-insert names name n (merge_or v (get names n done) c) done,
    merge-joins (get names n done) c u r,
    contains-get names n more,
    names.eq_iff n name,
    append-nil (added_at v (some (merge_or v (get names n done) c)) u),
    append-nil (removed_at v (some (merge_or v (get names n done) c)) u),
    append-nil (added_at v (get names name done) u),
    append-nil (removed_at v (get names name done) u),
  )
