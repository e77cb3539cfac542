-- ===== src/WorkQueue/Orphans.antt =====
-- wq/src/lib.rs: `process_orphaned_job_results`. `result_keys` is the server's answer to KEYS, and
-- `parse_uuid` reads the text of a job ID. The tasks that are spawned run later, in any order.
pub mod Kept
use archipelago_xl.Base.{String, Bool, true, false, Option, none, some, List, [], ◌∷◌}
use archipelago_xl.Rules.Text.{split}
use archipelago_xl.WorkQueue.Status.{redis, serialization}
use archipelago_xl.WorkQueue.Keys.{WorkQueue, JobId, get_job_key, get_result_key}
use archipelago_xl.WorkQueue.Store.{JobDesc, JobResult, Result, ok, err, Services}
use archipelago_xl.WorkQueue.Jobs.{ResolveCallback, get_str}

-- `next_back`
abbrev last : List String → Option String
last [] = none
last (x ∷ []) = some x
last (x ∷ y ∷ xs) = last (y ∷ xs)

-- what a spawned task takes with it
pub record Task (P R : Type 0) : Type 0 where
  pub desc : JobDesc P
  pub job_result : JobResult R
  pub job_key : String
  pub result_key : String

module _ {P R : Type 0} (s : Services P R) (q : WorkQueue) where
  -- how the pass ended, what it left and which tasks it spawned, after an error too
  pub record Pass : Type 0 where
    pub outcome : Result (Unit {0})
    pub db : s.redis.Db
    pub tasks : List (Task P R)

  -- a task, once the callback has answered
  unfoldable pub run_task : Task P R → Option Bool → s.redis.Db → s.redis.Db
  run_task task none d = d
  run_task task (some false) d = d
  run_task task (some true) d = s.redis.del task.result_key (s.redis.del task.job_key d)

  abbrev pub deleted : JobId → s.redis.Db → s.redis.Db
  deleted job_id d = s.redis.del (get_job_key q job_id) (s.redis.del (get_result_key q job_id) d)

  abbrev pub parsed : {A : Type 0} → (String → Option A) → Option String → Option A
  parsed from_str none = none
  parsed from_str (some text) = from_str text

  abbrev pub spawn :
      String
      → JobId
      → Option (JobDesc P)
      → Option (JobResult R)
      → (s.redis.Db → Pass)
      → s.redis.Db
      → Pass
  spawn result_key job_id none r rest d = record { outcome = err serialization; db = d; tasks = [] }
  spawn result_key job_id (some desc) none rest d = record {
    outcome = err redis;
    db = d;
    tasks = [];
  }
  spawn result_key job_id (some desc) (some r) rest d =
      let task : Task P R = record {
        desc = desc;
        job_result = r;
        job_key = get_job_key q job_id;
        result_key = result_key;
      } in
      let pass = rest d in record pass { tasks = task ∷ pass.tasks }

  abbrev pub with_desc : String → JobId → Option String → (s.redis.Db → Pass) → s.redis.Db → Pass
  with_desc result_key job_id none rest d = rest (deleted job_id d)
  with_desc result_key job_id (some params_str) rest d =
      spawn result_key job_id (s.desc.from_str params_str)
        (parsed s.result.from_str (get_str s q result_key d)) rest d

  abbrev pub with_id :
      (has_callback : Bool) → String → Option JobId → (s.redis.Db → Pass) → s.redis.Db → Pass
  with_id has_callback result_key none rest d = rest d
  with_id false result_key (some job_id) rest d = rest (deleted job_id d)
  with_id true result_key (some job_id) rest d =
      with_desc result_key job_id (get_str s q (get_job_key q job_id) d) rest d

  module _ (parse_uuid : String → Option JobId) where
    abbrev pub id_of : String → Option JobId
    id_of result_key = parsed parse_uuid (last (split 58 result_key))

    unfoldable pub process_orphaned_job_results :
        (has_callback : Bool) → List String → s.redis.Db → Pass
    process_orphaned_job_results has_callback [] d = record { outcome = ok tt; db = d; tasks = [] }
    process_orphaned_job_results has_callback (result_key ∷ result_keys) d =
        with_id has_callback result_key (id_of result_key)
          (process_orphaned_job_results has_callback result_keys) d
