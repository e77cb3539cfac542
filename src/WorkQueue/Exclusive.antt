-- ===== src/WorkQueue/Exclusive.antt =====
-- The runs of a queue (wq/src/lib.rs): each step is one of its operations, whole, on whatever the
-- steps before it left. A worker's wait is a claim that finds nothing, and a later one.
pub mod Shrinking
pub mod Resolved
pub mod Placing
pub mod Claims
pub mod Enqueued
pub mod Sweeping
pub mod Orphaned
pub mod Reached
pub mod Tests
use archipelago_xl.Base.{
  ℕ, String, Bool, true, false, not, ◌&&◌, ◌≡◌, Option, none, some, List, [], ◌∷◌,
}
use archipelago_xl.Base.Int.{ℤ}
use archipelago_xl.WorkQueue.Status.{Priority, JobStatus}
use archipelago_xl.WorkQueue.Keys.{WorkQueue, JobId, pending_key}
use archipelago_xl.WorkQueue.Store.{Claim, Services}
use archipelago_xl.WorkQueue.Jobs.{
  ResolveCallback, enqueue_job_in, cancel_job, reclaim_job, resolve_job, delete_job_result,
  get_claim,
}
use archipelago_xl.WorkQueue.Jobs.Cancelling.{is_member}
use archipelago_xl.WorkQueue.Claiming.{claim_job_in}
use archipelago_xl.WorkQueue.Claiming.Taking.{zset_at}
use archipelago_xl.WorkQueue.Sweep.{reclaim_round}
use archipelago_xl.WorkQueue.Orphans.{Task, run_task, process_orphaned_job_results}

abbrev pub has_distinct_members : List (String × ℤ) → Bool
has_distinct_members [] = true
has_distinct_members ((m, s) ∷ z) = not (is_member m z) && has_distinct_members z

module _ {P R : Type 0} (s : Services P R) (q : WorkQueue) where
  abbrev pub is_pending : JobId → Option String → s.redis.Db → Bool
  is_pending id r d = is_member id (zset_at s q (pending_key q.pending r) d)

  -- a new job ID: it was never given out
  pub record IsFresh (id : JobId) (d : s.redis.Db) : Type 0 where
    pub unclaimed : get_claim s q id d ≡ none
    pub not_pending : (r : Option String) → is_pending id r d ≡ false

  pub data Step : s.redis.Db → s.redis.Db → Type 0 where
    enqueues :
        (partition : Option String) (params : P) (priority : Priority) (deadline_in : ℕ)
        (id : JobId) (now now' : ℕ) (d : s.redis.Db)
        → IsFresh id d
        → Step d (enqueue_job_in s q partition params priority deadline_in id now now' d).1
    claims :
        (partition : Option String) (worker_id : String) (clock : ℕ → ℕ) (now : ℕ) (d : s.redis.Db)
        → Step d (claim_job_in s q partition worker_id clock [] now d).1
    refreshes :
        (id : JobId) (worker_id : String) (now : ℕ) (d : s.redis.Db)
        → Step d (reclaim_job s q id worker_id now d).1
    resolves :
        (callback : Option (ResolveCallback P R)) (worker_id : String) (id : JobId)
        (status : JobStatus) (result : Option R) (d : s.redis.Db)
        → Step d (resolve_job s q callback worker_id id status result d).1
    cancels : (id : JobId) (d : s.redis.Db) → Step d (cancel_job s q id d).1
    deletes : (id : JobId) (d : s.redis.Db) → Step d (delete_job_result s q id d).1
    sweeps : (now : ℕ) (d : s.redis.Db) → Step d (reclaim_round s q now d)
    orphans :
        (parse_uuid : String → Option JobId) (has_callback : Bool) (result_keys : List String)
        (d : s.redis.Db)
        → Step d (process_orphaned_job_results s q parse_uuid has_callback result_keys d).db
    tasks :
        (task : Task P R) (processed : Option Bool) (d : s.redis.Db)
        → Step d (run_task s q task processed d)

  pub data Run (start : s.redis.Db) : s.redis.Db → Type 0 where
    here : Run start start
    then_ : {d d' : s.redis.Db} → Run start d → Step d d' → Run start d'

  -- A job is in one place at most: claimed, or pending in one partition, once.
  pub record IsExclusive (d : s.redis.Db) : Type 0 where
    pub apart :
        (id : JobId) (r : Option String) → is_pending id r d ≡ true → get_claim s q id d ≡ none
    pub one_place :
        (id : JobId) (r r' : Option String)
        → is_pending id r d ≡ true
        → is_pending id r' d ≡ true
        → pending_key q.pending r ≡ pending_key q.pending r'
    pub once :
        (r : Option String) → has_distinct_members (zset_at s q (pending_key q.pending r) d) ≡ true
    pub named :
        (id : JobId) (text : String)
        → get_claim s q id d ≡ some text
        → (c : Claim) × (s.claim.from_str text ≡ some c) × (c.job_id ≡ id)
