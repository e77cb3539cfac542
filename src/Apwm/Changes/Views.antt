-- ===== src/Apwm/Changes/Views.antt =====
-- What changed between two views of a base.
use archipelago_xl.Base.{
  ◌≡◌, refl, Bool, true, false, not, ◌&&◌, Option, none, some, unwrap_or, List, [], ◌∷◌, any, arith,
  if◌then◌else◌,
}
use archipelago_xl.Apwm.Semver.{Semver}
use archipelago_xl.Apwm.Keyed.{versions, get, contains, keys, insert, is_distinct}
use archipelago_xl.Apwm.Keyed.Laws.{get-insert, insert-distinct}
use archipelago_xl.Apwm.Worlds.{WorldOrigin, World}
use archipelago_xl.Apwm.IndexSets.Releases.{offers}
use archipelago_xl.Apwm.Changes.{
  WorldChanges, each_on, on_base, keys_without, is_empty, new_world_changes, gone_world_changes,
}

module _ (v : Semver) where
  open v use {Version, eq, eq_iff}

  abbrev pub is_in : Version → List Version → Bool
  is_in u vs = any (λ (w : Version). eq w u) vs

  -- the bases that the changes of a world name for a version
  abbrev pub added_at : Option (WorldChanges Version) → Version → List Version
  added_at none u = []
  added_at (some c) u = unwrap_or (get (versions v) u c.added_on) []

  abbrev pub removed_at : Option (WorldChanges Version) → Version → List Version
  removed_at none u = []
  removed_at (some c) u = unwrap_or (get (versions v) u c.removed_from) []

  pub get-each_on :
      (base u : Version) (vs : List Version) (done : List (Version × List Version))
      → get (versions v) u (each_on v base vs done)
        ≡ (if is_in u vs then some (base ∷ []) else get (versions v) u done)
  get-each_on base u [] done = refl
  get-each_on base u (w ∷ vs) done = ground (
    arith,
    get-each_on base u vs (insert (versions v) w (base ∷ []) done),
    get-insert (versions v) u w (base ∷ []) done,
  )

  pub each_on-distinct :
      (base : Version) (vs : List Version) (done : List (Version × List Version))
      → is_distinct (versions v) done ≡ true
      → is_distinct (versions v) (each_on v base vs done) ≡ true
  each_on-distinct base [] done d = d
  each_on-distinct base (w ∷ vs) done d =
      each_on-distinct base vs _ (insert-distinct (versions v) w (base ∷ []) done d)

  pub is_in-keys :
      {A : Type 0} (u : Version) (m : List (Version × A))
      → is_in u (keys (versions v) m) ≡ contains (versions v) u m
  is_in-keys u [] = refl
  is_in-keys u (e ∷ m) = ground (arith, is_in-keys u m)

  is_in-keys_without :
      (u : Version) (other m : List (Version × WorldOrigin))
      → is_in u (keys_without v other m)
        ≡ (contains (versions v) u m && not (contains (versions v) u other))
  is_in-keys_without u other [] = refl
  is_in-keys_without u other ((w, o) ∷ m) = ground (arith, is_in-keys_without u other m, eq_iff w u)

  is_in-empty : (u : Version) (vs : List Version) → is_empty v vs ≡ true → is_in u vs ≡ false
  is_in-empty u [] h = refl
  is_in-empty u (w ∷ vs) h = ground arith

  -- the changes of a world, from what the two views have under its name
  abbrev pub change :
      Option (World Version) → Option (World Version) → Version → Option (WorldChanges Version)
  change none none base = none
  change (some old) none base = gone_world_changes v false old base
  change old (some new) base = new_world_changes v old new base

  abbrev pub when : Bool → Version → List Version
  when b base = if b then base ∷ [] else []

  pub added_at-change :
      (old new : Option (World Version)) (base u : Version)
      → added_at (change old new base) u ≡ when (offers v new u && not (offers v old u)) base
  unfolding on_base
  added_at-change none none base u = refl
  added_at-change (some old) none base u = refl
  added_at-change none (some new) base u =
      ground
        (arith, get-each_on base u (keys (versions v) new.versions) [], is_in-keys u new.versions)
  added_at-change (some old) (some new) base u = ground (
    arith,
    get-each_on base u (keys_without v old.versions new.versions) [],
    is_in-keys_without u old.versions new.versions,
    is_in-empty u (keys_without v old.versions new.versions),
  )

  pub removed_at-change :
      (old new : Option (World Version)) (base u : Version)
      → removed_at (change old new base) u ≡ when (offers v old u && not (offers v new u)) base
  unfolding on_base
  removed_at-change none none base u = refl
  removed_at-change (some old) none base u =
      ground
        (arith, get-each_on base u (keys (versions v) old.versions) [], is_in-keys u old.versions)
  removed_at-change none (some new) base u = refl
  removed_at-change (some old) (some new) base u = ground (
    arith,
    get-each_on base u (keys_without v new.versions old.versions) [],
    is_in-keys_without u new.versions old.versions,
    is_in-empty u (keys_without v new.versions old.versions),
  )
