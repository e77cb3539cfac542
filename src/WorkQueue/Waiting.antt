-- ===== src/WorkQueue/Waiting.antt =====
-- wq/src/lib.rs: `wait_for_job`. Other clients act on the server before the subscription; from
-- then on what the worker sees of them is the list of pushed messages.
pub mod Results
pub mod Time
use archipelago_xl.Base.{
  ℕ, ◌-◌, ◌*◌, String, Bool, true, false, Option, none, some, List, [], ◌∷◌, leb, str_eq, unwrap_or,
}
use archipelago_xl.WorkQueue.Status.{
  job_not_found, other, JobStatus, internal_error, status_of_code,
}
use archipelago_xl.WorkQueue.Keys.{WorkQueue, JobId, get_result_key}
use archipelago_xl.WorkQueue.Store.{Result, ok, err, Services, Op, and_then, throw, return}
use archipelago_xl.WorkQueue.Jobs.{get_str, parse_result, get_job_status, get_resolved_status}

pub data RawStatus : Type 0 where
  no_bulk_string not_utf8 : RawStatus
  text : String → RawStatus

-- What the channel yields: `lagged` is an error of the receiver; a message without a readable
-- channel name has `channel = none`.
pub data Received : Type 0 where
  lagged : Received
  push : (is_message : Bool) → (channel : Option String) → RawStatus → Received

pub record Push : Type 0 where
  pub elapsed : ℕ
  pub received : Received

-- Whether a message ends the loop, and with which answer.
pub data Verdict : Type 0 where
  skip : Verdict
  answer : JobStatus → Verdict
  fail : Verdict

abbrev pub read_code : Option JobStatus → Verdict
read_code none = fail
read_code (some status) = answer status

abbrev pub read_number : Option ℕ → Verdict
read_number none = answer internal_error
read_number (some code) = read_code (status_of_code code)

abbrev pub is_this : String → Option String → Bool
is_this channel_name none = false
is_this channel_name (some recv_channel) = str_eq recv_channel channel_name

abbrev pub default_timeout : ℕ
default_timeout = 3600 * 24 * 1000

module _ {P R : Type 0} (s : Services P R) (q : WorkQueue) where
  abbrev pub read_raw : RawStatus → Verdict
  read_raw no_bulk_string = skip
  read_raw not_utf8 = answer internal_error
  read_raw (text status) = read_number (s.parse_u8 status)

  abbrev pub read_matching : Bool → Bool → RawStatus → Verdict
  read_matching true true raw = read_raw raw
  read_matching true false raw = skip
  read_matching false _ raw = skip

  abbrev pub read_push : String → Bool → Option String → RawStatus → Verdict
  read_push channel_name is_message channel raw =
      read_matching is_message (is_this channel_name channel) raw

  -- one message: `rest` is the loop with the time that is left
  abbrev pub settle_push :
      Verdict → Op s.redis.Db (Option JobStatus) → Op s.redis.Db (Option JobStatus)
  settle_push skip rest d = rest d
  settle_push (answer status) rest d = (ok (some status), d)
  settle_push fail rest d = throw other d

  abbrev pub receive :
      String
      → (in_time : Bool) → Received
      → Op s.redis.Db (Option JobStatus)
      → Op s.redis.Db (Option JobStatus)
  receive channel_name in_time lagged rest d = throw other d
  receive channel_name false (push is_message channel raw) rest d = (ok none, d)
  receive channel_name true (push is_message channel raw) rest d =
      settle_push (read_push channel_name is_message channel raw) rest d

  unfoldable pub wait_loop :
      String → List Push → (remaining_time : ℕ) → Op s.redis.Db (Option JobStatus)
  unfolding status_of_code
  wait_loop channel_name [] remaining_time d = (ok none, d)
  wait_loop channel_name (p ∷ pushes) remaining_time d =
      receive channel_name (leb p.elapsed remaining_time) p.received
        (wait_loop channel_name pushes (remaining_time - p.elapsed)) d

  abbrev pub resolved_or :
      Op s.redis.Db (Option JobStatus) → Option JobStatus → Op s.redis.Db (Option JobStatus)
  resolved_or wait none d = wait d
  resolved_or wait (some status) d = (ok (some status), d)

  -- from the subscription on: the result, then the kept status, then the messages
  abbrev pub await : JobId → (remaining_time : ℕ) → List Push → Op s.redis.Db (Option JobStatus)
  await job_id remaining_time pushes d =
      and_then (parse_result s q (get_str s q (get_result_key q job_id) d) d) (λ result.
        elim result [
          | some r ↦ return (some r.status)
          | none ↦ λ d.
              and_then (get_resolved_status s q job_id d)
                (resolved_or (wait_loop (get_result_key q job_id) pushes remaining_time))
        ])

  -- `map_err(WorkQueueError::Other)`
  abbrev pub or_other : {A Db : Type 0} → Result A × Db → Result A × Db
  or_other (ok a, d) = (ok a, d)
  or_other (err e, d) = (err other, d)

  unfoldable pub wait_for_job :
      JobId
      → (timeout : Option ℕ) → (others : s.redis.Db → s.redis.Db) → List Push
      → Op s.redis.Db (Option JobStatus)
  unfolding wait_loop
  wait_for_job job_id timeout others pushes d =
      and_then (or_other (get_job_status s q job_id d)) (λ job_status. elim job_status [
        | none ↦
            λ d. and_then (get_resolved_status s q job_id d) (resolved_or (throw job_not_found))
        | some _ ↦ λ d. await job_id (unwrap_or timeout default_timeout) pushes (others d)
      ])
