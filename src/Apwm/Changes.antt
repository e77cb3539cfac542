-- ===== src/Apwm/Changes.antt =====
-- apwm/src/changes.rs: what changed between two indexes, and the checksums of what was added.
pub mod Views
pub mod Loops
pub mod Recorded
pub mod Bases
pub mod Between
use archipelago_xl.Base.{
  ◌≡◌, String, Bool, true, false, not, ◌&&◌, Option, none, some, is_some, List, [], ◌∷◌,
  if◌then◌else◌,
}
use archipelago_xl.Apwm.Semver.{Semver}
use archipelago_xl.Apwm.Keyed.{names, versions, get, contains, keys, insert, extend_entry}
use archipelago_xl.Apwm.Worlds.{WorldOrigin, World, Fallible, ok, fails}
use archipelago_xl.Apwm.Manifests.{Index}
use archipelago_xl.Apwm.IndexSets.{IndexSet, bases, get_base, view_for_base}

pub data Checksum : Type 0 where
  supported : Checksum
  hash : String → Checksum

pub record WorldChanges (V : Type 0) : Type 0 where
  pub world_name : String
  pub added_versions : List V
  pub removed_versions : List V
  pub checksums : List (V × Checksum)
  pub added_on : List (V × List V)
  pub removed_from : List (V × List V)

pub record Changes (V : Type 0) : Type 0 where
  pub worlds : List (String × WorldChanges V)
  pub bases : List V
  pub added_bases : List V

module _ (v : Semver) where
  open v use {Version, Req}

  -- the closure `on_base`, whose pairs are collected into a map
  abbrev pub each_on :
      Version → List Version → List (Version × List Version) → List (Version × List Version)
  each_on base [] done = done
  each_on base (version ∷ more) done =
      each_on base more (insert (versions v) version (base ∷ []) done)

  unfoldable pub on_base : String → (added removed : List Version) → Version → WorldChanges Version
  on_base world_name added removed base = record {
    world_name = world_name;
    added_on = each_on base added [];
    removed_from = each_on base removed [];
    added_versions = added;
    removed_versions = removed;
    checksums = [];
  }

  abbrev pub extend_each :
      List (Version × List Version) → List (Version × List Version) → List (Version × List Version)
  extend_each [] mine = mine
  extend_each ((version, bs) ∷ other) mine =
      extend_each other (extend_entry (versions v) version bs mine)

  unfoldable pub merge : WorldChanges Version → WorldChanges Version → WorldChanges Version
  merge mine other =
      let added_on = extend_each other.added_on mine.added_on in
      let removed_from = extend_each other.removed_from mine.removed_from in
      record mine {
        added_on = added_on;
        removed_from = removed_from;
        added_versions = keys (versions v) added_on;
        removed_versions = keys (versions v) removed_from;
      }

  -- the versions of one map that another does not contain
  abbrev pub keys_without :
      List (Version × WorldOrigin) → List (Version × WorldOrigin) → List Version
  keys_without other [] = []
  keys_without other ((version, o) ∷ mine) =
      let rest = keys_without other mine in
      if contains (versions v) version other then rest else version ∷ rest

  abbrev pub is_empty : List Version → Bool
  is_empty [] = true
  is_empty (_ ∷ _) = false

  -- the body of the loop over the new worlds
  abbrev pub new_world_changes :
      Option (World Version) → World Version → Version → Option (WorldChanges Version)
  new_world_changes none new base = some (on_base new.name (keys (versions v) new.versions) [] base)
  new_world_changes (some old) new base =
      let added = keys_without old.versions new.versions in
      let removed = keys_without new.versions old.versions in
      if is_empty added && is_empty removed
      then none
      else some (on_base new.name added removed base)

  abbrev pub insert_some :
      String
      → Option (WorldChanges Version)
      → List (String × WorldChanges Version)
      → List (String × WorldChanges Version)
  insert_some name none done = done
  insert_some name (some c) done = insert names name c done

  abbrev pub changed_worlds :
      List (String × World Version)
      → Version
      → List (String × World Version)
      → List (String × WorldChanges Version)
      → List (String × WorldChanges Version)
  changed_worlds old base [] done = done
  changed_worlds old base ((name, new) ∷ worlds) done =
      changed_worlds old base worlds
        (insert_some name (new_world_changes (get names name old) new base) done)

  -- the body of the loop over the old worlds
  abbrev pub gone_world_changes : Bool → World Version → Version → Option (WorldChanges Version)
  gone_world_changes true old base = none
  gone_world_changes false old base =
      some (on_base old.name [] (keys (versions v) old.versions) base)

  abbrev pub gone_worlds :
      List (String × World Version)
      → Version
      → List (String × World Version)
      → List (String × WorldChanges Version)
      → List (String × WorldChanges Version)
  gone_worlds new base [] done = done
  gone_worlds new base ((name, old) ∷ worlds) done =
      gone_worlds new base worlds
        (insert_some name (gone_world_changes (contains names name new) old base) done)

  unfoldable pub compute_changes : Index Version → Index Version → Changes Version
  compute_changes old new =
      let base = new.archipelago_version in
      record {
        worlds =
            gone_worlds new.worlds base old.worlds (changed_worlds old.worlds base new.worlds []);
        bases = base ∷ [];
        added_bases = [];
      }

  abbrev pub merge_or : Option (WorldChanges Version) → WorldChanges Version → WorldChanges Version
  merge_or none c = c
  merge_or (some merged) c = merge merged c

  -- the inner loop of `compute_changes_between`
  abbrev pub merge_all :
      List (String × WorldChanges Version)
      → List (String × WorldChanges Version)
      → List (String × WorldChanges Version)
  merge_all [] done = done
  merge_all ((name, c) ∷ more) done =
      merge_all more (insert names name (merge_or (get names name done) c) done)

  abbrev pub between_views :
      Fallible (Index Version)
      → Option (Index Version)
      → List (String × WorldChanges Version)
      → Fallible (List (String × WorldChanges Version))
  between_views fails new done = fails
  between_views (ok old) none done = fails
  between_views (ok old) (some new) done = ok (merge_all (compute_changes old new).worlds done)

  -- the outer loop
  abbrev pub between_bases :
      IndexSet Version Req
      → IndexSet Version Req
      → List Version
      → Fallible (List (String × WorldChanges Version))
      → Fallible (List (String × WorldChanges Version))
  between_bases old new [] done = done
  between_bases old new (base ∷ more) fails = fails
  between_bases old new (base ∷ more) (ok done) =
      between_bases old new more
        (between_views (view_for_base v old base) (get_base v new base) done)

  -- the bases that a set does not have
  abbrev pub bases_without : IndexSet Version Req → List Version → List Version
  bases_without old [] = []
  bases_without old (base ∷ more) =
      let rest = bases_without old more in
      if is_some (get_base v old base) then rest else base ∷ rest

  abbrev pub with_changed_worlds :
      IndexSet Version Req
      → IndexSet Version Req
      → Fallible (List (String × WorldChanges Version))
      → Fallible (Changes Version)
  with_changed_worlds old new fails = fails
  with_changed_worlds old new (ok worlds) = ok (record {
    worlds = worlds;
    bases = bases v new;
    added_bases = bases_without old (bases v new);
  })

  unfoldable pub compute_changes_between :
      IndexSet Version Req → IndexSet Version Req → Fallible (Changes Version)
  compute_changes_between old new =
      with_changed_worlds old new (between_bases old new (bases v new) (ok []))
