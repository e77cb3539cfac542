-- ===== src/WorkQueue/Jobs/Cancelling.antt =====
-- `cancel_job`: what it does to the server, and what a worker that holds the job meets afterwards.
use archipelago_xl.Base.{
  ℕ, ◌≤◌, String, Bool, true, false, ◌≡◌, ◌≢◌, refl, Option, none, some, List, [], ◌∷◌, arith,
  eq_iff, eq_refl, str_eq, length, if◌then◌else◌,
}
use archipelago_xl.Base.Int.{ℤ}
use archipelago_xl.WorkQueue.Status.{JobStatus, is_resolved, job_cancelled}
use archipelago_xl.WorkQueue.Redis.{remove_member}
use archipelago_xl.WorkQueue.Keys.{WorkQueue, JobId, pending_key, get_job_key, get_result_key}
use archipelago_xl.WorkQueue.Keys.Distinct.{HasDistinctKeys}
use archipelago_xl.WorkQueue.Store.{JobDesc, ok, err, Services}
use archipelago_xl.WorkQueue.Jobs.{
  ResolveCallback, cancel_job, reclaim_job, resolve_job, get_job_status, stored_partition, get_str,
  get_claim,
}

abbrev pub is_member : String → List (String × ℤ) → Bool
is_member m [] = false
is_member m ((n, s) ∷ z) = let rest = is_member m z in if str_eq n m then true else rest

pub remove_member-gone :
    (m : String) (z : List (String × ℤ)) → is_member m (remove_member m z) ≡ false
remove_member-gone m [] = refl
remove_member-gone m ((n, s) ∷ z) = ground (arith, remove_member-gone m z)

pub length-remove_member :
    (m : String) (z : List (String × ℤ)) → length (remove_member m z) ≤ length z
length-remove_member m [] = omega arith
length-remove_member m ((n, s) ∷ z) = ground (arith, length-remove_member m z)

module _ {P R : Type 0} (s : Services P R) (q : WorkQueue) (id : JobId) (d : s.redis.Db) where
  abbrev pub cancelled : s.redis.Db
  cancelled = (cancel_job s q id d).1

  abbrev pub cancel_key : String
  cancel_key = pending_key q.pending (stored_partition s q (get_str s q (get_job_key q id) d))

  pub cancel_job_ok : (cancel_job s q id d).0 ≡ ok tt
  unfolding cancel_job
  cancel_job_ok = refl

  pub cancelled-zset :
      (key : String)
      → (s.redis.view cancelled).zset key ≡ (
          if str_eq cancel_key key
          then remove_member id ((s.redis.view d).zset cancel_key)
          else (s.redis.view d).zset key)
  unfolding cancel_job
  cancelled-zset key = simp (s.redis.hdel-view, s.redis.del-view, s.redis.zrem-view)

  pub cancelled-str :
      (j : String)
      → (s.redis.view cancelled).str j
        ≡ (if str_eq (get_job_key q id) j then none else (s.redis.view d).str j)
  unfolding cancel_job
  cancelled-str j = simp (s.redis.hdel-view, s.redis.del-view, s.redis.zrem-view)

  pub cancelled-claim :
      (j : JobId)
      → (s.redis.view cancelled).hash q.claims_key j
        ≡ (if str_eq id j then none else (s.redis.view d).hash q.claims_key j)
  unfolding cancel_job
  cancelled-claim j = simp (s.redis.hdel-view, s.redis.del-view, s.redis.zrem-view, eq_refl)

  dropped :
      {p : Option String}
      → stored_partition s q (get_str s q (get_job_key q id) d) ≡ p
      → is_member id ((s.redis.view cancelled).zset (pending_key q.pending p)) ≡ false
  dropped e = rw (← e) (
      rw (cancelled-zset cancel_key) (
        ground
          (arith, eq_refl cancel_key, remove_member-gone id ((s.redis.view d).zset cancel_key))))

  reclaim_unclaimed :
      (d : s.redis.Db) (w : String) (now : ℕ)
      → get_claim s q id d ≡ none
      → (reclaim_job s q id w now d).0 ≡ err job_cancelled
  unfolding reclaim_job
  reclaim_unclaimed d w now h = ground arith

  resolve_unclaimed :
      (d : s.redis.Db) (cb : Option (ResolveCallback P R)) (w : String) (st : JobStatus)
      (res : Option R)
      → is_resolved st ≡ true
      → get_claim s q id d ≡ none
      → (resolve_job s q cb w id st res d).0 ≡ err job_cancelled
  unfolding resolve_job
  resolve_unclaimed d cb w st res resolved h = ground arith

  status_unknown :
      (d : s.redis.Db)
      → get_str s q (get_result_key q id) d ≡ none
      → get_claim s q id d ≡ none
      → get_str s q (get_job_key q id) d ≡ none
      → (get_job_status s q id d).0 ≡ ok none
  unfolding get_job_status
  status_unknown d a b c = ground arith

  -- On a queue with distinct keys, a cancelled job, whose description was stored and which has no
  -- result, is unknown to the
  -- queue: it has no status and is not pending in its partition; the worker that may hold it is
  -- told so when it refreshes its claim or reports a status that resolves the job. The claims and
  -- descriptions of the other jobs stay.
  pub cancel_job_stops :
      (cb : Option (ResolveCallback P R)) (desc : JobDesc P) (w : String) (now : ℕ) (st : JobStatus)
      (res : Option R) (j : JobId)
      → HasDistinctKeys q
      → get_str s q (get_job_key q id) d ≡ some (s.desc.to_string desc)
      → get_str s q (get_result_key q id) d ≡ none
      → is_resolved st ≡ true
      → j ≢ id
      → ((cancel_job s q id d).0 ≡ ok tt)
        × ((get_job_status s q id cancelled).0 ≡ ok none)
        × (is_member id ((s.redis.view cancelled).zset (pending_key q.pending desc.partition))
            ≡ false)
        × ((reclaim_job s q id w now cancelled).0 ≡ err job_cancelled)
        × ((resolve_job s q cb w id st res cancelled).0 ≡ err job_cancelled)
        × (get_claim s q j cancelled ≡ get_claim s q j d)
        × (get_str s q (get_job_key q j) cancelled ≡ get_str s q (get_job_key q j) d)
  cancel_job_stops cb desc w now st res j k described unresolved resolved ne = (
    cancel_job_ok,
    status_unknown cancelled (ground (arith, cancelled-str (get_result_key q id)))
        (ground (arith, cancelled-claim id, eq_refl id))
        (ground (arith, cancelled-str (get_job_key q id), eq_refl (get_job_key q id))),
    dropped (ground (arith, s.read_partition-to_string desc)),
    reclaim_unclaimed cancelled w now (ground (arith, cancelled-claim id, eq_refl id)),
    resolve_unclaimed cancelled cb w st res resolved
        (ground (arith, cancelled-claim id, eq_refl id)),
    ground (arith, cancelled-claim j, eq_iff id j),
    ground (
      arith,
      cancelled-str (get_job_key q j),
      eq_iff (get_job_key q id) (get_job_key q j),
      k.job_inj id j,
    ),
  )
