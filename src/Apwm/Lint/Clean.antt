-- ===== src/Apwm/Lint/Clean.antt =====
-- Which parts of the lint report an error.
use archipelago_xl.Base.{
  ◌≡◌, refl, ◌∙◌, String, Bool, true, false, not, ◌&&◌, ◌||◌, Option, none, some, is_some, List, [],
  ◌∷◌, ◌++◌, any, arith,
}
use archipelago_xl.Apwm.Semver.{Semver}
use archipelago_xl.Apwm.Maps as Versions
use archipelago_xl.Apwm.Worlds.{
  WorldOrigin, VersionReq, disabled, latest, latest_supported, specific, Release, BaseOverride,
  WorldDef, World, runs_on,
}
use archipelago_xl.Apwm.IndexSets.{IndexSet, get_base}
use archipelago_xl.Apwm.Lint.{
  Severity, error, warning, Message, Problem, Toml, Reported, push, push_if, unknown_keys, is_known,
  in_table, default_not_available, default_not_supported, matches_no_base, unknown_key,
  offered_by_older_lobbies, only_in_releases, changes_nothing,
}
use archipelago_xl.Apwm.Lint.Worlds.{
  lint_inner_keys, lint_bounds, lint_release, lint_releases, lint_requirements, lint_listed,
  lint_default_version, lint_default, lint_if_released, lint_defaults, world_in,
}

module _ (v : Semver) (toml : Toml) where
  open v use {Version, Req, le}
  open toml use {Value, as_table}

  abbrev pub is_error : Severity → Bool
  is_error error = true
  is_error warning = false

  abbrev pub has_error : List (Problem Version Req) → Bool
  has_error problems = any (λ (p : Problem Version Req). is_error p.severity) problems

  abbrev pub failed : Reported v toml → Bool
  failed r = has_error r.problems

  any-append :
      (ps qs : List (Problem Version Req)) → has_error (ps ++ qs) ≡ (has_error ps || has_error qs)
  any-append [] qs = refl
  any-append (p ∷ ps) qs = ground (arith, any-append ps qs)

  failed-push :
      (s : Severity) (m : Message Version Req) (r : Reported v toml)
      → failed (push v toml s m r) ≡ (failed r || is_error s)
  failed-push s m r =
      ground
        (arith, any-append r.problems (record { severity = s; file = r.file; message = m } ∷ []))

  pub failed-push_if :
      (b : Bool) (s : Severity) (m : Message Version Req) (r : Reported v toml)
      → failed (push_if v toml b s m r) ≡ (failed r || (b && is_error s))
  failed-push_if b s m r = ground (arith, failed-push s m r)

  -- a default version that the world does not have
  abbrev pub bad_version : World Version → VersionReq Version → Bool
  bad_version w (specific u) = not (Versions.contains v u w.versions)
  bad_version w latest_supported = not w.supported
  bad_version w latest = false
  bad_version w disabled = false

  abbrev pub bad_default : Option (World Version) → Bool
  bad_default none = false
  bad_default (some w) = bad_version w w.default_version

  failed-lint_version :
      (base : Version) (w : World Version) (req : VersionReq Version) (r : Reported v toml)
      → failed (lint_default_version v toml base w req r) ≡ (failed r || bad_version w req)
  failed-lint_version base w (specific u) r = ground (
    arith,
    failed-push_if (not (Versions.contains v u w.versions)) error (default_not_available u base) r,
  )
  failed-lint_version base w latest_supported r =
      ground (arith, failed-push_if (not w.supported) error (default_not_supported base) r)
  failed-lint_version base w latest r = ground arith
  failed-lint_version base w disabled r = ground arith

  failed-lint_default :
      (base : Version) (o : Option (World Version)) (r : Reported v toml)
      → failed (lint_default v toml base o r) ≡ (failed r || bad_default o)
  failed-lint_default base none r = ground arith
  failed-lint_default base (some w) r = failed-lint_version base w w.default_version r

  abbrev pub bad_defaults : IndexSet Version Req → String → List Version → Bool
  bad_defaults s name bs =
      any (λ (b : Version). bad_default (world_in v toml (get_base v s b) name)) bs

  pub failed-lint_defaults :
      (s : IndexSet Version Req) (name : String) (bs : List Version) (r : Reported v toml)
      → failed (lint_defaults v toml s name bs r) ≡ (failed r || bad_defaults s name bs)
  failed-lint_defaults s name [] r = ground arith
  failed-lint_defaults s name (b ∷ bs) r = ground (
    arith,
    failed-lint_defaults s name bs
        (lint_default v toml b (world_in v toml (get_base v s b) name) r),
    failed-lint_default b (world_in v toml (get_base v s b) name) r,
  )

  -- a release that is listed too and does not run on a base
  abbrev pub not_runnable : Version → Option (Release Version) → Bool
  not_runnable base none = false
  not_runnable base (some release) = not (runs_on v release base)

  abbrev pub bad_listed : WorldDef Version Req → Version → List (Version × WorldOrigin) → Bool
  bad_listed w base versions =
      any (λ (e : Version × WorldOrigin). not_runnable base (Versions.get v (e.0) w.releases))
        versions

  failed-lint_if_released :
      (u base : Version) (o : Option (Release Version)) (r : Reported v toml)
      → failed (lint_if_released v toml u base o r) ≡ (failed r || not_runnable base o)
  failed-lint_if_released u base none r = ground arith
  failed-lint_if_released u base (some release) r = ground (
    arith,
    failed-push_if (not (runs_on v release base)) error (offered_by_older_lobbies u base) r,
  )

  pub failed-lint_listed :
      (w : WorldDef Version Req) (base : Version) (versions : List (Version × WorldOrigin))
      (r : Reported v toml)
      → failed (lint_listed v toml w base versions r) ≡ (failed r || bad_listed w base versions)
  failed-lint_listed w base [] r = ground arith
  failed-lint_listed w base ((u, o) ∷ versions) r = ground (
    arith,
    failed-lint_listed w base versions
        (lint_if_released v toml u base (Versions.get v u w.releases) r),
    failed-lint_if_released u base (Versions.get v u w.releases) r,
  )

  -- a minimum that is above the maximum
  abbrev pub runs_nowhere : Release Version → Bool
  runs_nowhere release = elim release.min_ap_version [
    | none ↦ false
    | some min ↦ elim release.max_ap_version [ none ↦ false | some max ↦ not (le min max) ]
  ]

  failed-lint_bounds :
      (u : Version) (min max : Option Version) (r : Reported v toml)
      → failed (lint_bounds v toml u min max r) ≡ (
          failed r
          || elim min [ none ↦ false | some a ↦ elim max [ none ↦ false | some b ↦ not (le a b) ] ])
  failed-lint_bounds u none max r = ground arith
  failed-lint_bounds u (some a) none r = ground arith
  failed-lint_bounds u (some a) (some b) r =
      ground (arith, failed-push_if (not (le a b)) error (Message.runs_nowhere u a b) r)

  failed-warning_if :
      (b : Bool) (m : Message Version Req) (r : Reported v toml)
      → failed (push_if v toml b warning m r) ≡ failed r
  failed-warning_if b m r = ground (arith, failed-push_if b warning m r)

  failed-lint_release :
      (w : WorldDef Version Req) (base u : Version) (release : Release Version)
      (r : Reported v toml)
      → failed (lint_release v toml w base u release r) ≡ (failed r || runs_nowhere release)
  failed-lint_release w base u release r =
      let in_versions = Versions.contains v u w.versions in
      let bounded = lint_bounds v toml u release.min_ap_version release.max_ap_version r in
      let redundant =
        in_versions
        && not (is_some release.min_ap_version || is_some release.max_ap_version)
        && not (is_some release.url || is_some release.local) in
      failed-warning_if (not in_versions && not w.disabled && runs_on v release base)
        (only_in_releases u base) (push_if v toml redundant warning (changes_nothing u) bounded)
      ∙ failed-warning_if redundant (changes_nothing u) bounded
      ∙ failed-lint_bounds u release.min_ap_version release.max_ap_version r

  abbrev pub any_nowhere : List (Version × Release Version) → Bool
  any_nowhere releases = any (λ (e : Version × Release Version). runs_nowhere (e.1)) releases

  pub failed-lint_releases :
      (w : WorldDef Version Req) (base : Version) (releases : List (Version × Release Version))
      (r : Reported v toml)
      → failed (lint_releases v toml w base releases r) ≡ (failed r || any_nowhere releases)
  failed-lint_releases w base [] r = ground arith
  failed-lint_releases w base ((u, release) ∷ more) r = ground (
    arith,
    failed-lint_releases w base more (lint_release v toml w base u release r),
    failed-lint_release w base u release r,
  )

  pub failed-lint_requirements :
      (bs : List Version) (overrides : List (Req × BaseOverride Version)) (r : Reported v toml)
      → failed (lint_requirements v toml bs overrides r) ≡ failed r
  failed-lint_requirements bs [] r = refl
  failed-lint_requirements bs ((q, _) ∷ more) r =
      failed-lint_requirements bs more _ ∙ failed-warning_if _ (matches_no_base q) r

  -- an error stays
  abbrev Keeps : (Reported v toml → Reported v toml) → Type 0
  Keeps f = (r : Reported v toml) → failed r ≡ true → failed (f r) ≡ true

  unknown_keys-Keeps :
      (table : List (String × Value)) (known : List String) (location : String)
      → Keeps (unknown_keys v toml table known location)
  unknown_keys-Keeps [] known location r h = h
  unknown_keys-Keeps ((key, _) ∷ table) known location r h =
      unknown_keys-Keeps table known location _ (
        ground (
          arith,
          failed-push_if (not (is_known v toml known key)) error (unknown_key key location) r,
        ))

  pub in_table-Keeps :
      (f : List (String × Value) → Reported v toml → Reported v toml)
      (o : Option (List (String × Value)))
      → ((table : List (String × Value)) → Keeps (f table))
      → Keeps (in_table v toml f o)
  in_table-Keeps f none k r h = h
  in_table-Keeps f (some table) k r h = k table r h

  pub inner_keys-Keeps :
      (known : List String) (location : String → String) (table : List (String × Value))
      → Keeps (lint_inner_keys v toml known location table)
  inner_keys-Keeps known location [] r h = h
  inner_keys-Keeps known location ((name, value) ∷ more) r h =
      inner_keys-Keeps known location more _ (
        in_table-Keeps (λ entry r. unknown_keys v toml entry known (location name) r)
          (as_table value) (λ entry. unknown_keys-Keeps entry known (location name)) r h)
