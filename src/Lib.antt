-- ===== src/Lib.antt =====
-- ArchipelagoXL: the job queue, the word diff of the apworld viewer, the review rules, the
-- apworld manager and the lobby.
--
-- The lobby and the community tools hand work (validating and generating YAMLs) to workers
-- through a queue in Redis (wq). The diff viewer shows two versions of an apworld side by side
-- and marks the changed words of a line (apdiff-viewer). The community tools check uploaded
-- YAMLs against the rules of a preset (community-ap-tools). The lobby resolves the
-- worlds of a room with the apworld manager (apwm). The programs share no state but the queue, so
-- each is a tree of modules of its own over Base. Lobby also uses Apwm, Rules takes the test for
-- white space from WordDiff, and WorkQueue and the tests of Apwm take text functions from Rules.
--
-- Base: shared names, tests on numbers, lists, options, integers and texts.
--
-- WorkQueue (wq/src):
--   Status (lib.rs, errors, priorities, statuses), Keys (lib.rs, builder.rs: partitions, keys,
--   `WorkQueueBuilder`), Store (claim.rs, result.rs, the stored data and the monad of the
--   operations), Redis (the server: an interface whose laws are each command's documented
--   effect on a view of the keyspace, and the least server that has them, Memory), Jobs (enqueueing,
--   resolving, cancelling, statuses, results, stats), Claiming (`claim_job_in`), Waiting
--   (`wait_for_job`), Sweep (a round of the reclaim checker), Orphans
--   (`process_orphaned_job_results`), Encoding and Tests (the witnesses).
--   An operation takes the server's state and gives a result and the state that its commands
--   leave. A job's ID and the clock's readings are arguments. Where an operation waits, what the
--   other clients do meanwhile is an argument too, any function on the server's state; the
--   messages of a channel are a list, each with the time since the start of the wait. The inner
--   loop of `claim_job_in` runs on fuel, one round more than there are pending jobs, which
--   is enough because each round takes a job off; the outer loop is over the list of messages.
--   Keys expire on the server's clock, which is not modelled: a resolved status is taken as still
--   there. Not modelled: connection and protocol failures, the task that repeats the reclaim
--   round, and the HTTP routes.
--
-- WordDiff (apdiff-viewer/src/diff/word_diff.rs):
--   Words (`split_into_words`), Segments (the segments of the two sides; the diff of two lists of
--   words is the crate `similar`, an interface whose laws say that the old and the new values of
--   its changes are the lists), Consolidation (`consolidate_consecutive_changes` and the whole).
--   Lists take the place of indices: a position is counted from the start of the range.
--
-- Rules (community-ap-tools/src/review: rules.rs, builtin.rs, triggers.rs, api/evaluate.rs):
--   Text (the parsing and splitting of texts that the rules use), Values (the YAML values of
--   `saphyr`, the expressions of `regex` and `to_lowercase`, an interface), Syntax (rules and their
--   validation), Random and Bounds (random values), Checks (the checks of a value, over the
--   thread's cache of expressions), Predicates (predicates and rules), Builtin (builtin.rs: the
--   rule against plando for other players), Triggers (triggers.rs: `resolve_triggers`), Review
--   (api/evaluate.rs: `evaluate_single_yaml`, which puts the three together), and three modules
--   Tests (the witnesses).
--   An evaluation takes the cache and gives a value, an error or a panic of `unreachable!`, and
--   the cache that is left. An i64 is an integer; none of the checks computes with one. The rounds
--   of triggers run on fuel, which is the source's bound of 50. Writing a value runs on fuel, one
--   more than its height, which `Rules/Triggers/Heights` shows to be enough.
--
-- Apwm (apwm/src):
--   Semver (the crate `semver`: an interface with the order of versions and their texts), Maps
--   (`BTreeMap`s by version, as lists of entries), Keyed (the same for any type of keys, in which a
--   key that is there is replaced in its place), Worlds (index/world.rs: releases, overrides and
--   `WorldDef::for_base`), Manifests (manifest.rs: `VersionReq`, `Manifest` and its resolution),
--   Freezing (manifest.rs: `freeze` and the manifests made from an index), IndexSets
--   (index/mod.rs: `IndexSet`), Changes (changes.rs: `compute_changes_between`), Checksums
--   (changes.rs: downloading what was added, and from the changes), Retries (index/world.rs:
--   `with_retries`, whose loop is recursion on the retries left), Downloads (index/world.rs:
--   `World::copy_to`), Locks (index/lock.rs), Refreshing (index/mod.rs: `Index::refresh_into`),
--   Lint (lint.rs), Tests and Examples (the witnesses).
--   Files is what this code does to files: the effects in their order, and a result or an error,
--   whose text is left out; the file system, the paths, the network and the digest are an
--   interface, in which the answer to a request may differ from try to try. The downloads of a
--   refresh run at once; the order in which they end is a list of picks from the tasks that are
--   left, any list. The parser of TOML files is an interface too, and a message of the lint is the
--   kind of it with its values. An index holds the fields that this code computes with. Not
--   modelled: reading `index.toml` and the world files, writing the lock and the changes,
--   unpacking an apworld (`extract_to`), and `to_string_pretty` (manifest.rs).
--
-- Lobby (lobby/src):
--   BaseSwitch (base_switch.rs: what moving a room to another version does to its YAMLs, over
--   the manifests and indexes of Apwm; the report's lists are built from their ends, in the
--   order of the source's pushes), ManifestEditor (views/manifest_editor.rs: the rows that show a
--   room's manifest, and the manifest that a form gives, with `Manifest::add_version_req`; what the
--   page does with the rows is in a template, so what the form sends back is a hypothesis), Tests
--   (the witnesses).
--
-- The rest of the repository (web handlers, database queries, templates, the Python worker, the Go
-- proxy) is not modelled.
pub mod Base
pub mod WorkQueue
pub mod WordDiff
pub mod Rules
pub mod Apwm
pub mod Lobby
