-- ===== src/WorkQueue/Exclusive/Orphaned.antt =====
-- The pass over the orphaned results, and the tasks that it spawns.
use archipelago_xl.Base.{String, Bool, true, false, Option, none, some, List, [], ◌∷◌}
use archipelago_xl.WorkQueue.Keys.{WorkQueue, JobId, get_job_key}
use archipelago_xl.WorkQueue.Store.{JobDesc, JobResult, Services}
use archipelago_xl.WorkQueue.Jobs.{get_str}
use archipelago_xl.WorkQueue.Orphans.{
  Task, Pass, run_task, deleted, parsed, spawn, with_desc, with_id, id_of,
  process_orphaned_job_results,
}
use archipelago_xl.WorkQueue.Exclusive.Shrinking.{
  Shrinks, same-Shrinks, Shrinks-twice, texts-Shrinks,
}

module _ {P R : Type 0} (s : Services P R) (q : WorkQueue) where
  pub run_task-Shrinks :
      (task : Task P R) (processed : Option Bool) (d : s.redis.Db)
      → Shrinks s q d (run_task s q task processed d)
  unfolding run_task
  run_task-Shrinks task none d = same-Shrinks s q d
  run_task-Shrinks task (some false) d = same-Shrinks s q d
  run_task-Shrinks task (some true) d =
      texts-Shrinks s q d _ (simp s.redis.del-view) (simp s.redis.del-view)

  deleted-Shrinks : (id : JobId) (d : s.redis.Db) → Shrinks s q d (deleted s q id d)
  deleted-Shrinks id d = texts-Shrinks s q d _ (simp s.redis.del-view) (simp s.redis.del-view)

  module _ (rest : s.redis.Db → Pass s q)
      (shrinks : (d : s.redis.Db) → Shrinks s q d (rest d).db) where
    spawned-Shrinks :
        (result_key : String) (id : JobId) (desc : Option (JobDesc P)) (r : Option (JobResult R))
        (d : s.redis.Db)
        → Shrinks s q d (spawn s q result_key id desc r rest d).db
    spawned-Shrinks result_key id none r d = same-Shrinks s q d
    spawned-Shrinks result_key id (some desc) none d = same-Shrinks s q d
    spawned-Shrinks result_key id (some desc) (some r) d = shrinks d

    described-Shrinks :
        (result_key : String) (id : JobId) (text : Option String) (d : s.redis.Db)
        → Shrinks s q d (with_desc s q result_key id text rest d).db
    described-Shrinks result_key id none d =
        Shrinks-twice s q (deleted-Shrinks id d) (shrinks (deleted s q id d))
    described-Shrinks result_key id (some text) d =
        spawned-Shrinks result_key id (s.desc.from_str text)
          (parsed s q s.result.from_str (get_str s q result_key d)) d

    named-Shrinks :
        (has_callback : Bool) (result_key : String) (id : Option JobId) (d : s.redis.Db)
        → Shrinks s q d (with_id s q has_callback result_key id rest d).db
    named-Shrinks has_callback result_key none d = shrinks d
    named-Shrinks false result_key (some id) d =
        Shrinks-twice s q (deleted-Shrinks id d) (shrinks (deleted s q id d))
    named-Shrinks true result_key (some id) d =
        described-Shrinks result_key id (get_str s q (get_job_key q id) d) d

  pub orphans-Shrinks :
      (parse_uuid : String → Option JobId) (has_callback : Bool) (result_keys : List String)
      (d : s.redis.Db)
      → Shrinks s q d (process_orphaned_job_results s q parse_uuid has_callback result_keys d).db
  unfolding process_orphaned_job_results
  orphans-Shrinks parse_uuid has_callback [] d = same-Shrinks s q d
  orphans-Shrinks parse_uuid has_callback (result_key ∷ result_keys) d =
      named-Shrinks (process_orphaned_job_results s q parse_uuid has_callback result_keys)
        (orphans-Shrinks parse_uuid has_callback result_keys) has_callback result_key
        (id_of s q parse_uuid result_key) d
