-- ===== src/WorkQueue/Jobs.antt =====
-- wq/src/lib.rs: enqueueing, cancelling, resolving, refreshing a claim, and what is read back.
-- Every operation is one sequence of commands on the server; the readings of the clock and the
-- fresh job ID are arguments.

pub mod Resolving
pub mod Cancelling
use archipelago_xl.Base.{
  ℕ, ◌+◌, String, Bool, true, false, not, Option, none, some, List, [], ◌∷◌, str_eq, is_some,
  if◌then◌else◌, unwrap_or,
}
use archipelago_xl.WorkQueue.Status.{
  job_cancelled, worker_mismatch, invalid_job_status, redis, serialization, other, Priority, high,
  low, priority_score, JobStatus, pending, running, internal_error, status_code, status_of_code,
  is_resolved, as_stat_name,
}
use archipelago_xl.WorkQueue.Redis.{count_between}
use archipelago_xl.WorkQueue.Keys.{
  Checked, valid, refused, normalize, pending_key, WorkQueue, JobId, get_job_key, get_result_key,
  get_resolved_key, get_stats_key,
}
use archipelago_xl.WorkQueue.Store.{
  JobDesc, JobResult, Claim, Result, ok, err, refresh, Services, Op, and_then, ◌>>=◌, ◌>>◌, return,
  throw, send, ok_or,
}

abbrev pub of_checked : {Db A : Type 0} → Checked A → Op Db A
of_checked (valid a) d = (ok a, d)
of_checked (refused e) d = (err e, d)

abbrev pub of_result : {Db A : Type 0} → Result A → Op Db A
of_result r d = (r, d)

pub record QueueStats : Type 0 where
  pub jobs_failed : ℕ
  pub jobs_succeeded : ℕ
  pub jobs_errored : ℕ
  pub jobs_scheduled : ℕ
  pub jobs_claimed : ℕ

-- What the callback of a resolved job answers: `some processed`, or `none` for an error. What it
-- does elsewhere is outside of the queue.
abbrev pub ResolveCallback : Type 0 → Type 0 → Type 0
ResolveCallback P R = JobDesc P → JobResult R → Option Bool

-- `should_cleanup` and `final_status` of `resolve_job`
abbrev pub callback_outcome : JobStatus → Option (Option Bool) → Bool × JobStatus
callback_outcome status none = (false, status)
callback_outcome status (some (some processed)) = (processed, status)
callback_outcome status (some none) = (true, internal_error)

abbrev pub answer :
    {P R : Type 0} → Option (ResolveCallback P R) → JobDesc P → JobResult R → Option (Option Bool)
answer none desc r = none
answer (some callback) desc r = some (callback desc r)

module _ {P R : Type 0} (s : Services P R) (q : WorkQueue) where
  abbrev pub get_str : String → s.redis.Db → Option String
  get_str k d = (s.redis.view d).str k

  abbrev pub get_claim : JobId → s.redis.Db → Option String
  get_claim job_id d = (s.redis.view d).hash q.claims_key job_id

  -- `hget::<_, _, Option<Claim>>`: a text that is no claim is an error of the driver
  abbrev pub parse_claim : Option String → Op s.redis.Db (Option Claim)
  parse_claim none d = (ok none, d)
  parse_claim (some text) d =
      and_then (ok_or redis (s.claim.from_str text) d) (λ c. return (some c))

  abbrev pub hget_claim : JobId → Op s.redis.Db (Option Claim)
  hget_claim job_id d = parse_claim (get_claim job_id d) d

  -- `get::<_, String>(job_key)` and its deserialization
  abbrev pub get_desc : JobId → Op s.redis.Db (JobDesc P)
  get_desc job_id d =
      and_then (ok_or redis (get_str (get_job_key q job_id) d) d)
        (λ params_str. ok_or serialization (s.desc.from_str params_str))

  -- `if let Some(partition) = &partition { pipe.sadd(...) }`
  abbrev pub note_partition : Option String → s.redis.Db → s.redis.Db
  note_partition none d = d
  note_partition (some partition) d = s.redis.sadd q.pending.partitions_key partition d

  abbrev pub enqueue_pipe : JobId → Option String → String → Priority → s.redis.Db → s.redis.Db
  enqueue_pipe job_id partition text priority d =
      let key = pending_key q.pending partition in
      s.redis.publish key "0" (
        s.redis.zadd key job_id (priority_score priority)
          (note_partition partition (s.redis.set (get_job_key q job_id) text d)))

  unfoldable pub enqueue_job_in :
      Option String
      → P
      → Priority
      → (deadline_in : ℕ) → (job_id : JobId) → (now now' : ℕ) → Op s.redis.Db JobId
  enqueue_job_in partition params priority deadline_in job_id now now' = do
    partition ← of_checked (normalize q.pending partition)
    let desc : JobDesc P = record {
      params = params;
      submitted_at = now;
      deadline = now' + deadline_in;
      partition = partition;
    }
    send (enqueue_pipe job_id partition (s.desc.to_string desc) priority)
    return job_id

  unfoldable pub enqueue_job :
      P → Priority → (deadline_in : ℕ) → (job_id : JobId) → (now now' : ℕ) → Op s.redis.Db JobId
  unfolding enqueue_job_in
  enqueue_job = enqueue_job_in none

  -- the partition that the job's description names, and none without a readable description
  abbrev pub stored_partition : Option String → Option String
  stored_partition none = none
  stored_partition (some text) = unwrap_or (s.read_partition text) none

  unfoldable pub cancel_job : JobId → Op s.redis.Db (Unit {0})
  cancel_job job_id d =
      let key = pending_key q.pending (stored_partition (get_str (get_job_key q job_id) d)) in
      send
        (λ d.
          s.redis.hdel q.claims_key job_id
            (s.redis.del (get_job_key q job_id) (s.redis.zrem key job_id d)))
        d

  abbrev pub reclaim_found : JobId → String → ℕ → Option Claim → Op s.redis.Db (Unit {0})
  reclaim_found job_id worker_id now none = throw job_cancelled
  reclaim_found job_id worker_id now (some current_claim) = do
    current_claim ← of_result (refresh current_claim worker_id now)
    send (s.redis.hset q.claims_key job_id (s.claim.to_string current_claim))

  unfoldable pub reclaim_job : JobId → String → (now : ℕ) → Op s.redis.Db (Unit {0})
  unfolding refresh
  reclaim_job job_id worker_id now = do
    current_claim ← hget_claim job_id
    reclaim_found job_id worker_id now current_claim

  -- the pipeline that publishes a result, `name` its counter
  abbrev pub publish_result : JobId → JobResult R → String → s.redis.Db → s.redis.Db
  publish_result job_id final_result name d =
      let code = s.u8_to_string (status_code final_result.status) in
      s.redis.publish (get_result_key q job_id) code (
        s.redis.incr (get_stats_key q name) (
          s.redis.set (get_resolved_key q job_id) code
            (s.redis.set (get_result_key q job_id) (s.result.to_string final_result) d)))

  abbrev pub cleanup : Bool → JobId → s.redis.Db → s.redis.Db
  cleanup false job_id d = d
  cleanup true job_id d =
      s.redis.del (get_result_key q job_id) (s.redis.del (get_job_key q job_id) d)

  module _ (result_callback : Option (ResolveCallback P R)) where
    -- what `resolve_job` does once the callback has answered
    abbrev pub conclude : JobId → Option R → Bool × JobStatus → Op s.redis.Db (Unit {0})
    conclude job_id result (should_cleanup, final_status) = do
      name ← ok_or other (as_stat_name final_status)
      send (publish_result job_id (record { status = final_status; result = result }) name)
      send (cleanup should_cleanup job_id)

    abbrev pub resolve_claimed :
        String → JobId → JobStatus → Option R → Option Claim → Op s.redis.Db (Unit {0})
    resolve_claimed worker_id job_id status result none = throw job_cancelled
    resolve_claimed worker_id job_id status result (some current_claim) =
        if not (str_eq current_claim.worker_id worker_id) then throw worker_mismatch else do
          desc ← get_desc job_id
          send (s.redis.hdel q.claims_key job_id)
          conclude job_id result (
              callback_outcome status
                (answer result_callback desc (record { status = status; result = result })))

    unfoldable pub resolve_job : String → JobId → JobStatus → Option R → Op s.redis.Db (Unit {0})
    unfolding is_resolved as_stat_name
    resolve_job worker_id job_id status result =
        if not (is_resolved status)
        then throw (invalid_job_status "Trying to report a status that doesn't resolve the job")
        else do
          current_claim ← hget_claim job_id
          resolve_claimed worker_id job_id status result current_claim

  -- `get::<_, Option<JobResult<R>>>`
  abbrev pub parse_result : Option String → Op s.redis.Db (Option (JobResult R))
  parse_result none d = (ok none, d)
  parse_result (some text) d =
      and_then (ok_or redis (s.result.from_str text) d) (λ r. return (some r))

  abbrev pub unresolved_status : Bool → Bool → Option JobStatus
  unresolved_status true is_queued = some running
  unresolved_status false true = some pending
  unresolved_status false false = none

  abbrev pub status_from : Option (JobResult R) → Option JobStatus → Option JobStatus
  status_from none other_status = other_status
  status_from (some r) other_status = some r.status

  unfoldable pub get_job_status : JobId → Op s.redis.Db (Option JobStatus)
  get_job_status job_id d =
      let rest =
        unresolved_status (is_some (get_claim job_id d))
          (is_some (get_str (get_job_key q job_id) d)) in
      and_then (parse_result (get_str (get_result_key q job_id) d) d)
        (λ r. return (status_from r rest))

  -- `get::<_, Option<u8>>` and `JobStatus::try_from`
  abbrev pub parse_status : Option String → Op s.redis.Db (Option JobStatus)
  parse_status none d = (ok none, d)
  parse_status (some text) d =
      and_then (ok_or redis (s.parse_u8 text) d)
        (λ code d. and_then (ok_or other (status_of_code code) d) (λ st. return (some st)))

  unfoldable pub get_resolved_status : JobId → Op s.redis.Db (Option JobStatus)
  unfolding status_of_code
  get_resolved_status job_id d = parse_status (get_str (get_resolved_key q job_id) d) d

  unfoldable pub get_job_result : JobId → Op s.redis.Db (Option R)
  get_job_result job_id d =
      and_then (ok_or redis (get_str (get_result_key q job_id) d) d) (λ result_str d.
        and_then (ok_or serialization (s.result.from_str result_str) d) (λ r. return r.result))

  unfoldable pub delete_job_result : JobId → Op s.redis.Db (Unit {0})
  delete_job_result job_id =
      send (λ d. s.redis.del (get_job_key q job_id) (s.redis.del (get_result_key q job_id) d))

  abbrev pub scheduled_in : s.redis.Db → String → ℕ
  scheduled_in d key =
      count_between (priority_score high) (priority_score low) ((s.redis.view d).zset key)

  abbrev pub scheduled_in_all : s.redis.Db → List String → ℕ
  scheduled_in_all d [] = 0
  scheduled_in_all d (partition ∷ partitions) =
      scheduled_in d (pending_key q.pending (some partition)) + scheduled_in_all d partitions

  unfoldable pub get_stats : s.redis.Db → QueueStats
  get_stats d = record {
    jobs_failed = (s.redis.view d).counter (get_stats_key q "failed");
    jobs_succeeded = (s.redis.view d).counter (get_stats_key q "succeeded");
    jobs_errored = (s.redis.view d).counter (get_stats_key q "errored");
    jobs_scheduled =
        scheduled_in d q.queue_key
        + scheduled_in_all d (s.redis.smembers q.pending.partitions_key d);
    jobs_claimed = s.redis.hlen q.claims_key d;
  }
