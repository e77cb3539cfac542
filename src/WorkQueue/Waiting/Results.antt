-- ===== src/WorkQueue/Waiting/Results.antt =====
-- `wait_for_job` tells how a job ended, also if its result is gone by the time it looks.
use archipelago_xl.Base.{ℕ, Bool, ◌≡◌, refl, Option, none, some, List, arith, if◌then◌else◌}
use archipelago_xl.WorkQueue.Status.{JobStatus, status_code}
use archipelago_xl.WorkQueue.Status.Codes.{status_of_code_iff, status_code-lt}
use archipelago_xl.WorkQueue.Keys.{WorkQueue, JobId, get_resolved_key}
use archipelago_xl.WorkQueue.Store.{JobDesc, JobResult, ok, Services}
use archipelago_xl.WorkQueue.Jobs.{get_job_status, get_resolved_status, get_str}
use archipelago_xl.WorkQueue.Jobs.Resolving.{IsResolvedWith}
use archipelago_xl.WorkQueue.Waiting.{Push, wait_for_job}

module _ {P R : Type 0} (s : Services P R) (q : WorkQueue) (id : JobId) where
  kept_status :
      (st : JobStatus) (d : s.redis.Db)
      → get_str s q (get_resolved_key q id) d ≡ some (s.u8_to_string (status_code st))
      → get_resolved_status s q id d ≡ (ok (some st), d)
  unfolding get_resolved_status
  kept_status st d kept = ground (
    arith,
    s.parse_u8-to_string (status_code st) (status_code-lt st),
    (status_of_code_iff (status_code st) st).1 refl,
  )

  module _ {desc : JobDesc P} {result : JobResult R} {cleaned : Bool} {before after : s.redis.Db}
      (resolved : IsResolvedWith s q id desc result cleaned before after) (timeout : Option ℕ)
      (pushes : List Push) where
    status_after :
        get_job_status s q id after ≡ (ok (if cleaned then none else some result.status), after)
    unfolding get_job_status
    status_after = ground (
      arith,
      resolved.result_kept,
      resolved.desc_kept,
      resolved.unclaimed,
      s.result.from_str-to_string result,
    )

    -- Waiting for a job that has just been resolved gives the status that it was resolved with,
    -- whether or not its result and description have been cleaned up.
    pub wait_after_resolve :
        (wait_for_job s q id timeout (λ d. d) pushes after).0 ≡ ok (some result.status)
    unfolding wait_for_job
    wait_after_resolve = ground (
      arith,
      status_after,
      kept_status result.status after resolved.status_kept,
      resolved.result_kept,
      s.result.from_str-to_string result,
    )

    -- Waiting for a job that has a status when the wait begins, and is resolved, and possibly
    -- cleaned up, before the subscription, gives the status that it was resolved with.
    pub wait_during_resolve :
        (others : s.redis.Db → s.redis.Db) (st : JobStatus) (d : s.redis.Db)
        → get_job_status s q id d ≡ (ok (some st), d)
        → others d ≡ after
        → (wait_for_job s q id timeout others pushes d).0 ≡ ok (some result.status)
    unfolding wait_for_job
    wait_during_resolve others st d known became = ground (
      arith,
      known,
      became,
      kept_status result.status after resolved.status_kept,
      resolved.result_kept,
      s.result.from_str-to_string result,
    )
