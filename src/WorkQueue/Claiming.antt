-- ===== src/WorkQueue/Claiming.antt =====
-- wq/src/lib.rs: `claim_job_in`, its loop over pending jobs and its waits.
pub mod Taking
pub mod Roundtrip
pub mod Outcomes
use archipelago_xl.Base.{
  ℕ, zero, suc, ◌-◌, String, Bool, true, false, Option, none, some, List, [], ◌∷◌, ltb, leb, length,
}
use archipelago_xl.Base.Int.{ℤ}
use archipelago_xl.WorkQueue.Status.{redis, other, Priority, priority_of_score}
use archipelago_xl.WorkQueue.Redis.{pop_first}
use archipelago_xl.WorkQueue.Keys.{normalize, pending_key, WorkQueue, JobId}
use archipelago_xl.WorkQueue.Store.{
  JobDesc, Job, ok, new_claim, in_partition, Services, Op, and_then, ◌>>=◌, ◌>>◌, return, throw,
  send, ok_or,
}
use archipelago_xl.WorkQueue.Jobs.{of_checked, get_desc, cancel_job}

pub data Popped (P : Type 0) : Type 0 where
  found : JobId → Priority → P → Popped P
  nothing_pending out_of_fuel : Popped P

-- A message on the channel that the worker waits on: how long after the start of the call it comes,
-- what other clients did to the server while the worker waited, and the clock's readings from then.
pub record Wake (Db : Type 0) : Type 0 where
  pub elapsed : ℕ
  pub others : Db → Db
  pub clock : ℕ → ℕ

module _ {P R : Type 0} (s : Services P R) (q : WorkQueue) where
  abbrev pub zpopmin_first : String → s.redis.Db → Option (String × ℤ)
  zpopmin_first key d = pop_first ((s.redis.view d).zset key)

  -- a popped job is cancelled if its deadline has passed, and another one is taken
  abbrev pub examine :
      JobId
      → Priority
      → JobDesc P
      → (late : Bool) → Op s.redis.Db (Popped P)
      → Op s.redis.Db (Popped P)
  examine job_id priority desc true again d = and_then (cancel_job s q job_id d) (λ _. again)
  examine job_id priority desc false again d = (ok (found job_id priority desc.params), d)

  -- the loop without its waits; `clock f` is the clock's reading when `f` rounds are left
  unfoldable pub take_job : (fuel : ℕ) → (clock : ℕ → ℕ) → String → Op s.redis.Db (Popped P)
  take_job zero clock key d = (ok out_of_fuel, d)
  take_job (suc f) clock key d = elim (zpopmin_first key d) [
    | none ↦ (ok nothing_pending, d)
    | some (job_id, score) ↦
        and_then (ok_or redis (priority_of_score score) (s.redis.zpopmin key d)) (λ priority d.
          and_then (get_desc s q job_id d) (λ desc.
            examine job_id priority desc (ltb desc.deadline (clock f)) (take_job f clock key)))
  ]

  -- as many rounds as there are pending jobs, and one more
  unfoldable pub next_job : (clock : ℕ → ℕ) → String → Op s.redis.Db (Popped P)
  unfolding take_job
  next_job clock key d = take_job (suc (length ((s.redis.view d).zset key))) clock key d

  abbrev pub settle :
      Op s.redis.Db (Option (JobId × Priority × P))
      → Popped P
      → Op s.redis.Db (Option (JobId × Priority × P))
  settle wait (found job_id priority params) d = (ok (some (job_id, priority, params)), d)
  settle wait nothing_pending d = wait d
  settle wait out_of_fuel d = throw other d

  -- the loop with its waits; at the end of the list the wait times out
  unfoldable pub claim_loop :
      (clock : ℕ → ℕ)
      → String
      → List (Wake s.redis.Db)
      → (remaining_time : ℕ) → Op s.redis.Db (Option (JobId × Priority × P))
  claim_loop clock key [] remaining_time d = and_then (next_job clock key d) (settle (return none))
  claim_loop clock key (w ∷ wakes) remaining_time d = and_then (next_job clock key d) (
      settle (λ d. elim (leb w.elapsed remaining_time) [
        | true ↦ claim_loop w.clock key wakes (remaining_time - w.elapsed) (w.others d)
        | false ↦ (ok none, d)
      ]))

  abbrev pub give :
      String
      → Option String
      → (now : ℕ) → Option (JobId × Priority × P)
      → Op s.redis.Db (Option (Job P))
  give worker_id partition now none = return none
  give worker_id partition now (some (job_id, priority, params)) = do
    send (
        s.redis.hset q.claims_key job_id
          (s.claim.to_string (in_partition (new_claim worker_id job_id priority now) partition)))
    return (some (record { job_id = job_id; params = params }))

  unfoldable pub claim_job_in :
      Option String
      → String
      → (clock : ℕ → ℕ) → List (Wake s.redis.Db)
      → (now : ℕ) → Op s.redis.Db (Option (Job P))
  unfolding claim_loop new_claim in_partition
  claim_job_in partition worker_id clock wakes now = do
    partition ← of_checked (normalize q.pending partition)
    job ← claim_loop clock (pending_key q.pending partition) wakes q.claim_timeout
    give worker_id partition now job

  unfoldable pub claim_job :
      String → (clock : ℕ → ℕ) → List (Wake s.redis.Db) → (now : ℕ) → Op s.redis.Db (Option (Job P))
  unfolding claim_job_in
  claim_job = claim_job_in none
