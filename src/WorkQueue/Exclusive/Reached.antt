-- ===== src/WorkQueue/Exclusive/Reached.antt =====
-- What holds in every state that a queue can reach.
use archipelago_xl.WorkQueue.Keys.{WorkQueue}
use archipelago_xl.WorkQueue.Store.{Services}
use archipelago_xl.WorkQueue.Exclusive.{
  IsExclusive, Step, enqueues, claims, refreshes, resolves, cancels, deletes, sweeps, orphans,
  tasks, Run, here, then_,
}
use archipelago_xl.WorkQueue.Exclusive.Shrinking.{
  Shrinks-IsExclusive, cancel_job-Shrinks, delete_job_result-Shrinks,
}
use archipelago_xl.WorkQueue.Exclusive.Claims.{claim_job_in-IsExclusive, reclaim_job-IsExclusive}
use archipelago_xl.WorkQueue.Exclusive.Resolved.{resolve_job-Shrinks}
use archipelago_xl.WorkQueue.Exclusive.Enqueued.{enqueue_job_in-IsExclusive}
use archipelago_xl.WorkQueue.Exclusive.Orphaned.{orphans-Shrinks, run_task-Shrinks}
use archipelago_xl.WorkQueue.Exclusive.Sweeping.{reclaim_round-IsExclusive}

module _ {P R : Type 0} (s : Services P R) (q : WorkQueue) where
  Step-IsExclusive : {d d' : s.redis.Db} → Step s q d d' → IsExclusive s q d → IsExclusive s q d'
  Step-IsExclusive (enqueues partition params priority deadline_in id now now' d fresh) x =
      enqueue_job_in-IsExclusive s q params priority deadline_in id now now' d fresh x partition
  Step-IsExclusive (claims partition w clock now d) x =
      claim_job_in-IsExclusive s q partition w clock now d x
  Step-IsExclusive (refreshes id w now d) x = reclaim_job-IsExclusive s q id w now d x
  Step-IsExclusive (resolves callback w id status result d) x =
      Shrinks-IsExclusive s q (resolve_job-Shrinks s q callback id result w status d) x
  Step-IsExclusive (cancels id d) x = Shrinks-IsExclusive s q (cancel_job-Shrinks s q id d) x
  Step-IsExclusive (deletes id d) x = Shrinks-IsExclusive s q (delete_job_result-Shrinks s q id d) x
  Step-IsExclusive (sweeps now d) x = reclaim_round-IsExclusive s q d x now
  Step-IsExclusive (orphans parse_uuid has_callback result_keys d) x =
      Shrinks-IsExclusive s q (orphans-Shrinks s q parse_uuid has_callback result_keys d) x
  Step-IsExclusive (tasks task processed d) x =
      Shrinks-IsExclusive s q (run_task-Shrinks s q task processed d) x

  pub Run-IsExclusive :
      {start d : s.redis.Db} → IsExclusive s q start → Run s q start d → IsExclusive s q d
  Run-IsExclusive x here = x
  Run-IsExclusive x (then_ r st) = Step-IsExclusive st (Run-IsExclusive x r)
