-- ===== src/Apwm/Changes/Loops.antt =====
-- What the two loops over the worlds of a base leave under each name.
use archipelago_xl.Base.{
  ◌≡◌, refl, String, Bool, true, Option, none, some, is_some, List, [], ◌∷◌, arith, if◌then◌else◌,
}
use archipelago_xl.Apwm.Semver.{Semver}
use archipelago_xl.Apwm.Keyed.{names, get, contains, is_distinct}
use archipelago_xl.Apwm.Keyed.Laws.{contains-get, get-insert}
use archipelago_xl.Apwm.Worlds.{World}
use archipelago_xl.Apwm.Manifests.{Index}
use archipelago_xl.Apwm.Changes.{
  WorldChanges, new_world_changes, insert_some, changed_worlds, gone_world_changes, gone_worlds,
  compute_changes,
}
use archipelago_xl.Apwm.Changes.Views.{change}

module _ (v : Semver) where
  open v use {Version}

  abbrev or_else :
      Option (WorldChanges Version) → Option (WorldChanges Version) → Option (WorldChanges Version)
  or_else none d = d
  or_else (some c) d = some c

  abbrev from_new :
      Option (World Version) → Option (World Version) → Version → Option (WorldChanges Version)
  from_new old none base = none
  from_new old (some new) base = new_world_changes v old new base

  abbrev from_old : Bool → Option (World Version) → Version → Option (WorldChanges Version)
  from_old in_new none base = none
  from_old in_new (some old) base = gone_world_changes v in_new old base

  get-insert_some :
      (name n : String) (c : Option (WorldChanges Version))
      (done : List (String × WorldChanges Version))
      → get names name (insert_some v n c done)
        ≡ (if names.eq n name then or_else c (get names name done) else get names name done)
  get-insert_some name n none done = ground arith
  get-insert_some name n (some c) done = ground (arith, get-insert names name n c done)

  get-changed_worlds :
      (old : List (String × World Version)) (base : Version) (name : String)
      (new : List (String × World Version)) (done : List (String × WorldChanges Version))
      → is_distinct names new ≡ true
      → get names name (changed_worlds v old base new done)
        ≡ or_else (from_new (get names name old) (get names name new) base) (get names name done)
  get-changed_worlds old base name [] done d = refl
  get-changed_worlds old base name ((n, w) ∷ new) done d = ground (
    arith,
    get-changed_worlds old base name new
        (insert_some v n (new_world_changes v (get names n old) w base) done),
    get-insert_some name n (new_world_changes v (get names n old) w base) done,
    contains-get names n new,
    names.eq_iff n name,
  )

  get-gone_worlds :
      (new : List (String × World Version)) (base : Version) (name : String)
      (old : List (String × World Version)) (done : List (String × WorldChanges Version))
      → is_distinct names old ≡ true
      → get names name (gone_worlds v new base old done)
        ≡ or_else
            (from_old (contains names name new) (get names name old) base)
            (get names name done)
  get-gone_worlds new base name [] done d = refl
  get-gone_worlds new base name ((n, w) ∷ old) done d = ground (
    arith,
    get-gone_worlds new base name old
        (insert_some v n (gone_world_changes v (contains names n new) w base) done),
    get-insert_some name n (gone_world_changes v (contains names n new) w base) done,
    contains-get names n old,
    names.eq_iff n name,
  )

  as_change :
      (old new : Option (World Version)) (in_new : Bool) (base : Version)
      → in_new ≡ is_some new
      → or_else (from_old in_new old base) (or_else (from_new old new base) none)
        ≡ change v old new base
  as_change none none in_new base h = ground arith
  as_change none (some w) in_new base h = ground arith
  as_change (some o) none in_new base h = ground arith
  as_change (some o) (some w) in_new base h = ground arith

  pub get-compute_changes :
      (old new : Index Version) (name : String)
      → is_distinct names old.worlds ≡ true
      → is_distinct names new.worlds ≡ true
      → get names name (compute_changes v old new).worlds
        ≡ change v (get names name old.worlds) (get names name new.worlds) new.archipelago_version
  unfolding compute_changes
  get-compute_changes old new name d e = ground (
    arith,
    get-gone_worlds new.worlds new.archipelago_version name old.worlds
        (changed_worlds v old.worlds new.archipelago_version new.worlds []),
    get-changed_worlds old.worlds new.archipelago_version name new.worlds [],
    contains-get names name new.worlds,
    as_change (get names name old.worlds) (get names name new.worlds)
        (contains names name new.worlds) new.archipelago_version,
  )
