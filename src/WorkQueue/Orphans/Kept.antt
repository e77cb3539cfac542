-- ===== src/WorkQueue/Orphans/Kept.antt =====
-- What a pass over the orphaned results deletes.
use archipelago_xl.Base.{◌≡◌, String, true, Option, is_some}
use archipelago_xl.WorkQueue.Keys.{WorkQueue, JobId, get_job_key, get_result_key}
use archipelago_xl.WorkQueue.Keys.Distinct.{HasDistinctKeys}
use archipelago_xl.WorkQueue.Store.{Services}
use archipelago_xl.WorkQueue.Jobs.{get_str}
use archipelago_xl.WorkQueue.Orphans.{Pass}

module _ {P R : Type 0} (s : Services P R) (q : WorkQueue) (keys : HasDistinctKeys q)
    (parse_uuid : String → Option JobId) where
  -- the job's description and result are the same
  abbrev pub IsKept : JobId → s.redis.Db → s.redis.Db → Type 0
  IsKept id d d' =
      (get_str s q (get_job_key q id) d' ≡ get_str s q (get_job_key q id) d)
      × (get_str s q (get_result_key q id) d' ≡ get_str s q (get_result_key q id) d)

  module _ (id : JobId) where
    abbrev IsStored : s.redis.Db → Type 0
    IsStored d = is_some (get_str s q (get_job_key q id) d) ≡ true

    abbrev Keeps : (s.redis.Db → Pass s q) → Type 0
    Keeps pass = (d : s.redis.Db) → IsStored d → IsKept id d (pass d).db
