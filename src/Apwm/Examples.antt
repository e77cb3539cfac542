-- ===== src/Apwm/Examples.antt =====
-- The theorems on index sets, changes, downloads and the lint, on a small index.
use Prim.Native.String
use archipelago_xl.Base.{
  ℕ, ◌≡◌, ◌⊎◌, inl, inr, refl, ◌∙◌, ap, subst, String, true, false, none, some, List, [], ◌∷◌,
  str_eq, Bool-cases, some-injective, arith, ==_iff, ◌==◌,
}
use archipelago_xl.Apwm.Keyed.{insert, place, replace}
use archipelago_xl.Apwm.Worlds.{
  WorldDef, World, url, supported, latest, ok, fails, for_base, override_for, runs_on, origin,
}
use archipelago_xl.Apwm.Manifests.{Index, Resolved, resolve_world_version}
use archipelago_xl.Apwm.IndexSets.{IndexFile, IndexSet, view_for_base, new_set, all_releases}
use archipelago_xl.Apwm.IndexSets.Built.{IsBuilt, Builds, new_set-Builds}
use archipelago_xl.Apwm.IndexSets.Releases.{offered, offered_by, all_releases-offered}
use archipelago_xl.Apwm.Retries.{with_retries, retry_loop, retry_delay}
use archipelago_xl.Apwm.Changes.{Checksum, hash, Changes, compute_changes_between}
use archipelago_xl.Apwm.Changes.Between.{Differs, compute_changes_between-Differs}
use archipelago_xl.Apwm.Files.{Files, answered}
use archipelago_xl.Apwm.Downloads.{fetch, get_url_for_version, download_to, copy_to, with_version}
use archipelago_xl.Apwm.Checksums.{
  download_changed_apworlds, apply_checksums, download_from_changes,
}
use archipelago_xl.Apwm.Checksums.Recording.{HasRoom}
use archipelago_xl.Apwm.Checksums.Fetching.{download_from_changes-succeeds}
use archipelago_xl.Apwm.Locks.{IndexLock, get_checksum, set_checksum}
use archipelago_xl.Apwm.Refreshing.{Disk, read_lock, run_task, refresh_into}
use archipelago_xl.Apwm.Refreshing.Locked.{refresh_into-keeps}
use archipelago_xl.Apwm.Lint.{Toml}
use archipelago_xl.Apwm.Lint.Worlds.{lint_world}
use archipelago_xl.Apwm.Lint.Clean.{has_error}
use archipelago_xl.Apwm.Lint.Linted.{IsClean, lint_world-IsClean}
use archipelago_xl.Apwm.Lint.Resolving.{lint_world-resolves}
use archipelago_xl.Apwm.Tests.{numbers, strokes, hollow, world, index}

abbrev index_file : IndexFile ℕ
index_file = record { archipelago_version = 5; bases = [] }

new_set-Builds_example :
    Builds numbers index_file
      (("hk", hollow) ∷ [])
      (new_set numbers index_file (("hk", hollow) ∷ []))
new_set-Builds_example = new_set-Builds numbers index_file (("hk", hollow) ∷ [])

abbrev new_index : IndexSet ℕ ℕ
new_index = record { legacy_base = 5; bases = (5, index) ∷ []; world_defs = ("hk", hollow) ∷ [] }

is_new : new_set numbers index_file (("hk", hollow) ∷ []) ≡ ok new_index
unfolding new_set view_for_base for_base override_for runs_on origin insert place replace
is_new = refl

new_view : view_for_base numbers new_index 5 ≡ ok index
unfolding view_for_base for_base override_for runs_on origin insert place replace
new_view = refl

abbrev with_view : List (String × WorldDef ℕ ℕ) → Index ℕ → IndexSet ℕ ℕ
with_view defs i = record { legacy_base = 5; bases = (5, i) ∷ []; world_defs = defs }

with_view-IsBuilt :
    (defs : List (String × WorldDef ℕ ℕ)) (i : Index ℕ)
    → view_for_base numbers (with_view defs i) 5 ≡ ok i
    → IsBuilt numbers (with_view defs i)
with_view-IsBuilt defs i view base j e = elim (Bool-cases (5 == base)) [
  | inl h ↦
      subst (λ (b : ℕ). view_for_base numbers (with_view defs i) b ≡ ok j) ((==_iff 5 base).0 h)
        (view ∙ ap ok (some-injective _ _ (rw h at e)))
  | inr h ↦ ground (arith, rw h at e)
]

new_index-IsBuilt : IsBuilt numbers new_index
new_index-IsBuilt = with_view-IsBuilt (("hk", hollow) ∷ []) index new_view

-- the same world, of which only one version was listed
abbrev old_index : IndexSet ℕ ℕ
old_index = record {
  legacy_base = 4;
  bases = [];
  world_defs =
      (
        "hk",
        record hollow {
          versions = (3, url "https://example.org/3") ∷ [];
          releases = [];
          base_overrides = [];
        },
      )
      ∷ [];
}

compute_changes_between-Differs_example :
    Differs numbers old_index new_index (compute_changes_between numbers old_index new_index)
compute_changes_between-Differs_example =
    compute_changes_between-Differs numbers old_index new_index new_index-IsBuilt

all_releases-offered_example :
    (all : Index ℕ) × (all_releases numbers new_index ≡ some all)
    × ((name : String) (u : ℕ)
        → offered numbers all.worlds name u ≡ offered_by numbers new_index.bases name u)
all_releases-offered_example = all_releases-offered numbers new_index index refl refl

-- a server that always answers with the same body, and files that can be written
abbrev files : Files
files = record {
  Bytes = ℕ;
  join = λ dir name. String.◌++◌ dir (String.◌++◌ "/" name);
  parent = λ path. some ".";
  can_create_dir = λ path. true;
  can_open = λ path. true;
  can_write = λ path b. true;
  read = λ path. ok 0;
  send = λ uri n. answered 200 (some 7);
  sha256 = strokes;
}

abbrev changes : Changes ℕ
changes = record {
  worlds =
      (
        "hk",
        record {
          world_name = "Hollow Knight";
          added_versions = 3 ∷ 5 ∷ [];
          removed_versions = [];
          checksums = [];
          added_on = (3, 5 ∷ []) ∷ (5, 5 ∷ []) ∷ [];
          removed_from = [];
        },
      )
      ∷ [];
  bases = 5 ∷ [];
  added_bases = 5 ∷ [];
}

abbrev checksums : List (String × List (ℕ × Checksum))
checksums = ("hk", (3, hash (strokes 7)) ∷ (5, Checksum.supported) ∷ []) ∷ []

downloaded : (download_changed_apworlds numbers files changes index "out").result ≡ ok checksums
unfolding download_changed_apworlds copy_to get_url_for_version with_version download_to fetch
    with_retries retry_loop retry_delay insert place replace
downloaded = refl

room : HasRoom numbers files index "apworlds"
room name u = (refl, λ b. refl)

download_from_changes-succeeds_example :
    (download_from_changes numbers files
      (apply_checksums numbers files changes checksums)
      index
      "apworlds").result
    ≡ ok tt
download_from_changes-succeeds_example =
    download_from_changes-succeeds numbers files index "apworlds" changes "out" checksums room refl
      refl downloaded

-- a disk with a lock file, and nothing else
abbrev disk : Disk numbers files
disk = record {
  is_file = λ path. str_eq path "./index.lock";
  temporary = λ dir. ok "temporary";
  can_rename = λ from to. true;
  parse_lock = λ content. ok (("hk", (3, strokes 7) ∷ []) ∷ []);
}

abbrev lock : IndexLock ℕ
lock = record { path = "./index.lock"; apworlds = ("hk", (3, strokes 7) ∷ []) ∷ [] }

lock_read : (read_lock numbers files disk "./index.lock").result ≡ ok lock
unfolding read_lock
lock_read = refl

refreshed :
    (refresh_into numbers files disk "index.toml" index "apworlds" false none (1 ∷ [])).result
    ≡ ok lock
unfolding refresh_into read_lock run_task copy_to get_url_for_version with_version download_to fetch
    with_retries retry_loop retry_delay get_checksum set_checksum insert place replace
refreshed = refl

lock_has : get_checksum numbers lock "hk" 3 ≡ some (strokes 7)
unfolding get_checksum
lock_has = refl

refresh_into-keeps_example :
    (get_checksum numbers lock "hk" 3 ≡ none)
    ⊎ (get_checksum numbers lock "hk" 3 ≡ some (strokes 7))
refresh_into-keeps_example =
    refresh_into-keeps numbers files disk "index.toml" "." index "apworlds" false none (1 ∷ []) lock
      lock (refl, tt) refl lock_read refreshed "hk" 3 (strokes 7) lock_has

abbrev toml : Toml
toml = record {
  Value = String;
  as_table = λ value. none;
  read_table = λ path. fails;
  parent = λ path. some ".";
  strip_prefix = λ path root. none;
}

abbrev clean_world : WorldDef ℕ ℕ
clean_world = record hollow { releases = [] }

abbrev clean_view : Index ℕ
clean_view = record {
  archipelago_version = 5;
  worlds =
      (
        "hk",
        record world {
          versions =
              (3, url "https://example.org/3")
              ∷ (4, url "https://example.org/4")
              ∷ (5, supported)
              ∷ [];
        },
      )
      ∷ [];
}

abbrev clean_index : IndexSet ℕ ℕ
clean_index = with_view (("hk", clean_world) ∷ []) clean_view

clean_index-IsBuilt : IsBuilt numbers clean_index
unfolding view_for_base for_base override_for runs_on origin insert place replace
clean_index-IsBuilt = with_view-IsBuilt (("hk", clean_world) ∷ []) clean_view refl

no_errors :
    has_error numbers toml (lint_world numbers toml "hk.toml" "hk" clean_world clean_index [])
    ≡ false
unfolding lint_world
no_errors = refl

lint_world-IsClean_example : IsClean numbers toml "hk" clean_world clean_index
lint_world-IsClean_example =
    lint_world-IsClean numbers toml "hk.toml" "hk" clean_world clean_index [] no_errors

abbrev clean_hollow : World ℕ
clean_hollow = record world {
  versions =
      (3, url "https://example.org/3") ∷ (4, url "https://example.org/4") ∷ (5, supported) ∷ [];
}

lint_world-resolves_example :
    (version : ℕ) × (resolve_world_version numbers clean_hollow latest
      ≡ Resolved.ok (clean_hollow, version))
lint_world-resolves_example =
    lint_world-resolves numbers toml "hk.toml" "hk" clean_world clean_index [] 5 clean_view
      clean_hollow clean_index-IsBuilt no_errors refl refl (λ e. ground arith)
