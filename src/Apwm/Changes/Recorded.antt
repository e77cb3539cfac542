-- ===== src/Apwm/Changes/Recorded.antt =====
-- The versions that the changes of a world list are the ones that they name bases for.
use archipelago_xl.Base.{
  ◌≡◌, refl, String, Bool, true, false, not, ◌&&◌, Option, none, some, unwrap_or, List, [], ◌∷◌,
  arith, Bool-cases, inl, inr, subst, some-injective,
}
use archipelago_xl.Apwm.Semver.{Semver}
use archipelago_xl.Apwm.Keyed.{names, versions, get, contains, insert, is_distinct}
use archipelago_xl.Apwm.Keyed.Laws.{contains-get, insert-distinct, AllOf, AllOf-insert, AllOf-get}
use archipelago_xl.Apwm.Worlds.{World}
use archipelago_xl.Apwm.Manifests.{Index}
use archipelago_xl.Apwm.Changes.{
  WorldChanges, each_on, on_base, keys_without, is_empty, new_world_changes, insert_some,
  changed_worlds, gone_world_changes, gone_worlds, compute_changes,
}
use archipelago_xl.Apwm.Changes.Views.{is_in, get-each_on, each_on-distinct}

module _ (v : Semver) where
  open v use {Version}

  abbrev pub bases_of : Version → List (Version × List Version) → List Version
  bases_of u m = unwrap_or (get (versions v) u m) []

  -- every version of the map has bases
  abbrev pub IsFull : List (Version × List Version) → Type 0
  IsFull m = (u : Version) → contains (versions v) u m ≡ not (is_empty v (bases_of u m))

  pub record IsRecorded (c : WorldChanges Version) : Type 0 where
    pub added_full : IsFull c.added_on
    pub removed_full : IsFull c.removed_from
    pub added_distinct : is_distinct (versions v) c.added_on ≡ true
    pub removed_distinct : is_distinct (versions v) c.removed_from ≡ true
    pub added : (u : Version) → is_in v u c.added_versions ≡ contains (versions v) u c.added_on
    pub removed :
        (u : Version) → is_in v u c.removed_versions ≡ contains (versions v) u c.removed_from

  contains-each_on :
      (base u : Version) (vs : List Version)
      → is_in v u vs ≡ contains (versions v) u (each_on v base vs [])
  contains-each_on base u vs =
      ground (arith, get-each_on v base u vs [], contains-get (versions v) u (each_on v base vs []))

  each_on-IsFull : (base : Version) (vs : List Version) → IsFull (each_on v base vs [])
  each_on-IsFull base vs u =
      ground (arith, get-each_on v base u vs [], contains-get (versions v) u (each_on v base vs []))

  pub on_base-IsRecorded :
      (name : String) (added removed : List Version) (base : Version)
      → IsRecorded (on_base v name added removed base)
  unfolding on_base
  on_base-IsRecorded name added removed base = record {
    added_distinct = each_on-distinct v base added [] refl;
    removed_distinct = each_on-distinct v base removed [] refl;
    added_full = each_on-IsFull base added;
    removed_full = each_on-IsFull base removed;
    added = λ u. contains-each_on base u added;
    removed = λ u. contains-each_on base u removed;
  }

  abbrev pub Recorded : List (String × WorldChanges Version) → Type 0
  Recorded m = (is_distinct names m ≡ true) × AllOf names (λ (_ : String). IsRecorded) m

  pub insert-Recorded :
      (name : String) (c : WorldChanges Version) (m : List (String × WorldChanges Version))
      → IsRecorded c
      → Recorded m
      → Recorded (insert names name c m)
  insert-Recorded name c m r (d, rs) = (
    insert-distinct names name c m d,
    AllOf-insert names (λ (_ : String). IsRecorded) name c m r rs,
  )

  pub get-IsRecorded :
      (name : String) (c : WorldChanges Version) (m : List (String × WorldChanges Version))
      → get names name m ≡ some c
      → Recorded m
      → IsRecorded c
  get-IsRecorded name c m e (d, rs) = AllOf-get names (λ (_ : String). IsRecorded) name c m e rs

  insert_some-Recorded :
      (name : String) (c : Option (WorldChanges Version)) (m : List (String × WorldChanges Version))
      → ((k : WorldChanges Version) → c ≡ some k → IsRecorded k)
      → Recorded m
      → Recorded (insert_some v name c m)
  insert_some-Recorded name none m r rs = rs
  insert_some-Recorded name (some c) m r rs = insert-Recorded name c m (r c refl) rs

  new_world-IsRecorded :
      (o : Option (World Version)) (w : World Version) (base : Version) (k : WorldChanges Version)
      → new_world_changes v o w base ≡ some k
      → IsRecorded k
  new_world-IsRecorded none w base k e =
      subst IsRecorded (some-injective _ _ e) (on_base-IsRecorded _ _ _ _)
  new_world-IsRecorded (some o) w base k e =
      elim (Bool-cases (
        is_empty v (keys_without v o.versions w.versions)
        && is_empty v (keys_without v w.versions o.versions))) [
          | inl h ↦ ground arith
          | inr h ↦ subst IsRecorded (some-injective _ _ (rw h at e)) (on_base-IsRecorded _ _ _ _)
        ]

  gone_world-IsRecorded :
      (b : Bool) (w : World Version) (base : Version) (k : WorldChanges Version)
      → gone_world_changes v b w base ≡ some k
      → IsRecorded k
  gone_world-IsRecorded true w base k e = ground arith
  gone_world-IsRecorded false w base k e =
      subst IsRecorded (some-injective _ _ e) (on_base-IsRecorded _ _ _ _)

  changed_worlds-Recorded :
      (old : List (String × World Version)) (base : Version) (new : List (String × World Version))
      (done : List (String × WorldChanges Version))
      → Recorded done
      → Recorded (changed_worlds v old base new done)
  changed_worlds-Recorded old base [] done r = r
  changed_worlds-Recorded old base ((n, w) ∷ new) done r =
      changed_worlds-Recorded old base new _
        (insert_some-Recorded n _ done (new_world-IsRecorded (get names n old) w base) r)

  gone_worlds-Recorded :
      (new : List (String × World Version)) (base : Version) (old : List (String × World Version))
      (done : List (String × WorldChanges Version))
      → Recorded done
      → Recorded (gone_worlds v new base old done)
  gone_worlds-Recorded new base [] done r = r
  gone_worlds-Recorded new base ((n, w) ∷ old) done r =
      gone_worlds-Recorded new base old _
        (insert_some-Recorded n _ done (gone_world-IsRecorded (contains names n new) w base) r)

  pub compute_changes-Recorded :
      (old new : Index Version) → Recorded (compute_changes v old new).worlds
  unfolding compute_changes
  compute_changes-Recorded old new =
      gone_worlds-Recorded _ _ old.worlds _ (changed_worlds-Recorded _ _ new.worlds [] (refl, tt))
