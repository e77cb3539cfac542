-- ===== src/WorkQueue/Exclusive/Enqueued.antt =====
-- Enqueueing a job.
use archipelago_xl.Base.{ℕ, String, true, ◌≡◌, refl, Option, arith, eq_iff}
use archipelago_xl.WorkQueue.Status.{Priority, priority_score}
use archipelago_xl.WorkQueue.Keys.{
  Checked, valid, refused, normalize, WorkQueue, JobId, pending_key,
}
use archipelago_xl.WorkQueue.Store.{Services}
use archipelago_xl.WorkQueue.Jobs.{enqueue_job_in, enqueue_pipe}
use archipelago_xl.WorkQueue.Claiming.Roundtrip.{enqueued-zset_at, enqueued-claim, enqueue_runs}
use archipelago_xl.WorkQueue.Exclusive.{is_pending, IsFresh, IsExclusive}
use archipelago_xl.WorkQueue.Exclusive.Placing.{Places, Places-IsExclusive}

module _ {P R : Type 0} (s : Services P R) (q : WorkQueue) where
  module _ (params : P) (priority : Priority) (deadline_in : ℕ) (id : JobId) (now now' : ℕ)
      (d : s.redis.Db) (fresh : IsFresh s q id d) (x : IsExclusive s q d) where
    enqueued-Places :
        (r : Option String) (text : String)
        → Places s q id r (priority_score priority) d (enqueue_pipe s q id r text priority d)
    enqueued-Places r text = record {
      sets = enqueued-zset_at s q id r text priority d;
      claims = λ j.
          ground (arith, enqueued-claim s q id r text priority d j, fresh.unclaimed, eq_iff id j);
    }

    fresh_alone :
        (r r' : Option String)
        → is_pending s q id r' d ≡ true
        → pending_key q.pending r' ≡ pending_key q.pending r
    fresh_alone r r' h = cc (h, fresh.not_pending r')

    enqueue_pipe-IsExclusive :
        (r : Option String) (text : String)
        → IsExclusive s q (enqueue_pipe s q id r text priority d)
    enqueue_pipe-IsExclusive r text =
        Places-IsExclusive s q id r (priority_score priority) (enqueued-Places r text) x
          (fresh_alone r)

    normalized-IsExclusive :
        (partition : Option String) (c : Checked (Option String))
        → normalize q.pending partition ≡ c
        → IsExclusive s q (enqueue_job_in s q partition params priority deadline_in id now now' d).1
    normalized-IsExclusive partition (valid r) n =
        rw (enqueue_runs s q partition r params priority deadline_in id now now' d n)
          (enqueue_pipe-IsExclusive r _)
    normalized-IsExclusive partition (refused e) n = unfold enqueue_job_in in rw n x

    pub enqueue_job_in-IsExclusive :
        (partition : Option String)
        → IsExclusive s q (enqueue_job_in s q partition params priority deadline_in id now now' d).1
    enqueue_job_in-IsExclusive partition =
        normalized-IsExclusive partition (normalize q.pending partition) refl
