-- ===== src/WorkQueue/Status.antt =====
-- wq/src/lib.rs: errors, priorities, statuses and their encodings.
pub mod Codes
use archipelago_xl.Base.{ℕ, String, Bool, true, false, Option, none, some, ◌==◌, if◌then◌else◌}
use archipelago_xl.Base.Int.{ℤ, negsuc, eqb_ℤ}

-- `redis` and `serialization` carry no cause: what the drivers report is not modelled.
pub data WorkQueueError : Type 0 where
  job_cancelled job_not_found job_already_claimed worker_mismatch : WorkQueueError
  invalid_job_status invalid_partition : String → WorkQueueError
  redis pool serialization other : WorkQueueError

pub data Priority : Type 0 where
  high normal low : Priority

-- `priority as i8`
unfoldable pub priority_score : Priority → ℤ
priority_score high = negsuc 9
priority_score normal = negsuc 4
priority_score low = negsuc 0

-- `FromRedisValue for Priority`; `none` is its parsing error
unfoldable pub priority_of_score : ℤ → Option Priority
priority_of_score v =
    if eqb_ℤ v (negsuc 9)
    then some high
    else if eqb_ℤ v (negsuc 4)
    then some normal
    else if eqb_ℤ v (negsuc 0)
    then some low
    else none

pub data JobStatus : Type 0 where
  pending running success failure internal_error : JobStatus

-- `status as u8`
unfoldable pub status_code : JobStatus → ℕ
status_code pending = 0
status_code running = 1
status_code success = 10
status_code failure = 11
status_code internal_error = 12

-- `TryFrom<u8> for JobStatus`; `none` is its error
unfoldable pub status_of_code : ℕ → Option JobStatus
status_of_code value =
    if value == 0
    then some pending
    else if value == 1
    then some running
    else if value == 10
    then some success
    else if value == 11
    then some failure
    else if value == 12
    then some internal_error
    else none

unfoldable pub is_resolved : JobStatus → Bool
is_resolved success = true
is_resolved failure = true
is_resolved internal_error = true
is_resolved _ = false

-- `none` where `assert!(self.is_resolved())` panics
unfoldable pub as_stat_name : JobStatus → Option String
as_stat_name success = some "succeeded"
as_stat_name failure = some "failed"
as_stat_name internal_error = some "errored"
as_stat_name _ = none
