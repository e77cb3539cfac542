-- ===== src/WorkQueue/Jobs/Resolving.antt =====
-- `resolve_job`: its errors leave the server as it was, and its success.
use archipelago_xl.Base.{
  suc, String, Bool, true, false, ◌≡◌, ◌≢◌, refl, Option, none, some, [], ◌∷◌, ◌++◌, arith, eq_iff,
  eq_refl, str_eq, if◌then◌else◌,
}
use archipelago_xl.WorkQueue.Status.{
  JobStatus, WorkQueueError, is_resolved, as_stat_name, status_code,
}
use archipelago_xl.WorkQueue.Redis.{update}
use archipelago_xl.WorkQueue.Keys.{
  WorkQueue, JobId, get_job_key, get_result_key, get_resolved_key, get_stats_key,
}
use archipelago_xl.WorkQueue.Keys.Distinct.{HasDistinctKeys}
use archipelago_xl.WorkQueue.Store.{JobDesc, JobResult, Claim, ok, err, Services}
use archipelago_xl.WorkQueue.Jobs.{
  ResolveCallback, resolve_job, publish_result, cleanup, callback_outcome, answer, get_str,
  get_claim,
}

module _ {P R : Type 0} (s : Services P R) (q : WorkQueue) where
  pub publish_result-view :
      (id : JobId) (r : JobResult R) (name : String) (d : s.redis.Db)
      → let code = s.u8_to_string (status_code r.status) in
        s.redis.view (publish_result s q id r name d) ≡ record (s.redis.view d) {
          str =
              update
                (update (s.redis.view d).str (get_result_key q id) (some (s.result.to_string r)))
                (get_resolved_key q id)
                (some code);
          counter =
              update
                (s.redis.view d).counter
                (get_stats_key q name)
                (suc ((s.redis.view d).counter (get_stats_key q name)));
          published = (s.redis.view d).published ++ (get_result_key q id, code) ∷ [];
        }
  publish_result-view id r name d = simp (s.redis.publish-view, s.redis.incr-view, s.redis.set-view)

  pub cleanup-view :
      (b : Bool) (id : JobId) (d : s.redis.Db)
      → s.redis.view (cleanup s q b id d) ≡ record (s.redis.view d) {
        str =
            if b
            then update
                (update (s.redis.view d).str (get_job_key q id) none)
                (get_result_key q id)
                none
            else (s.redis.view d).str;
      }
  cleanup-view true id d = simp s.redis.del-view
  cleanup-view false id d = refl

-- What a resolved job looks like on the server: `before` and `after` are the server's states.
pub record IsResolvedWith {P R : Type 0} (s : Services P R) (q : WorkQueue) (id : JobId)
    (desc : JobDesc P) (result : JobResult R) (cleaned : Bool) (before after : s.redis.Db)
    : Type 0 where
  pub name : String
  pub named : as_stat_name result.status ≡ some name
  pub unclaimed : get_claim s q id after ≡ none
  pub others : (j : JobId) → j ≢ id → get_claim s q j after ≡ get_claim s q j before
  pub status_kept :
      get_str s q (get_resolved_key q id) after ≡ some (s.u8_to_string (status_code result.status))
  pub result_kept :
      get_str s q (get_result_key q id) after
      ≡ (if cleaned then none else some (s.result.to_string result))
  pub desc_kept :
      get_str s q (get_job_key q id) after
      ≡ (if cleaned then none else some (s.desc.to_string desc))
  pub counted :
      (s.redis.view after).counter (get_stats_key q name)
      ≡ suc ((s.redis.view before).counter (get_stats_key q name))
  pub told :
      (s.redis.view after).published
      ≡ (s.redis.view before).published
        ++ (get_result_key q id, s.u8_to_string (status_code result.status)) ∷ []

module _ {P R : Type 0} (s : Services P R) (q : WorkQueue) (k : HasDistinctKeys q) where
  module _ (id : JobId) (r : JobResult R) (name : String) (b : Bool) (d : s.redis.Db) where
    abbrev concluded : s.redis.Db
    concluded = cleanup s q b id (publish_result s q id r name (s.redis.hdel q.claims_key id d))

    abbrev published_at : String → Option String
    published_at j =
        if str_eq (get_resolved_key q id) j
        then some (s.u8_to_string (status_code r.status))
        else if str_eq (get_result_key q id) j
        then some (s.result.to_string r)
        else get_str s q j d

    concluded-str :
        (j : String)
        → get_str s q j concluded ≡ (
            if b
            then if str_eq (get_result_key q id) j
              then none
              else if str_eq (get_job_key q id) j
              then none
              else published_at j
            else published_at j)
    concluded-str j = ground (
      arith,
      cleanup-view s q b id (publish_result s q id r name (s.redis.hdel q.claims_key id d)),
      publish_result-view s q id r name (s.redis.hdel q.claims_key id d),
      s.redis.hdel-view q.claims_key id d,
    )

    concluded-claim :
        (j : JobId) → get_claim s q j concluded ≡ (if str_eq id j then none else get_claim s q j d)
    concluded-claim j =
        simp (get_claim, cleanup-view, publish_result-view, s.redis.hdel-view, eq_refl)

  concluded_is_resolved :
      (id : JobId) (desc : JobDesc P) (r : JobResult R) (name : String) (b : Bool) (d : s.redis.Db)
      → as_stat_name r.status ≡ some name
      → get_str s q (get_job_key q id) d ≡ some (s.desc.to_string desc)
      → IsResolvedWith s q id desc r b d
          (cleanup s q b id (publish_result s q id r name (s.redis.hdel q.claims_key id d)))
  concluded_is_resolved id desc r name b d named described = record {
    name = name;
    named = named;
    unclaimed = ground (arith, concluded-claim id r name b d id, eq_refl id);
    others = λ j ne. ground (arith, concluded-claim id r name b d j, eq_iff id j);
    status_kept = ground (
      arith,
      concluded-str id r name b d (get_resolved_key q id),
      eq_refl (get_resolved_key q id),
      eq_iff (get_result_key q id) (get_resolved_key q id),
      k.result-resolved id id,
      eq_iff (get_job_key q id) (get_resolved_key q id),
      k.job-resolved id id,
    );
    result_kept = ground (
      arith,
      concluded-str id r name b d (get_result_key q id),
      eq_refl (get_result_key q id),
      eq_iff (get_resolved_key q id) (get_result_key q id),
      k.result-resolved id id,
    );
    desc_kept = ground (
      arith,
      concluded-str id r name b d (get_job_key q id),
      eq_refl (get_job_key q id),
      eq_iff (get_resolved_key q id) (get_job_key q id),
      k.job-resolved id id,
      eq_iff (get_result_key q id) (get_job_key q id),
      k.job-result id id,
    );
    counted = simp (cleanup-view, publish_result-view, s.redis.hdel-view, eq_refl);
    told = simp (cleanup-view, publish_result-view, s.redis.hdel-view);
  }

module _ {P R : Type 0} (s : Services P R) (q : WorkQueue) (cb : Option (ResolveCallback P R)) where
  -- Whatever error `resolve_job` ends in, the server is as it was: an unresolved status, a missing
  -- claim, another worker's claim, and a claim or description that cannot be read.
  pub resolve_job_error_unchanged :
      (w : String) (id : JobId) (st : JobStatus) (res : Option R) (d : s.redis.Db)
      (e : WorkQueueError)
      → (resolve_job s q cb w id st res d).0 ≡ err e
      → (resolve_job s q cb w id st res d).1 ≡ d
  unfolding resolve_job
  resolve_job_error_unchanged w id st res d e h = ground arith

  outcome-is_resolved :
      (st : JobStatus) (a : Option (Option Bool))
      → is_resolved st ≡ true
      → is_resolved (callback_outcome st a).1 ≡ true
  unfolding is_resolved
  outcome-is_resolved st a h = ground arith

  stat_name_of_resolved :
      (st : JobStatus) → is_resolved st ≡ true → (name : String) × (as_stat_name st ≡ some name)
  unfolding is_resolved as_stat_name
  stat_name_of_resolved JobStatus.success h = ("succeeded", refl)
  stat_name_of_resolved JobStatus.failure h = ("failed", refl)
  stat_name_of_resolved JobStatus.internal_error h = ("errored", refl)
  stat_name_of_resolved _ h = cc

  module _ (w : String) (id : JobId) (st : JobStatus) (res : Option R) (d : s.redis.Db) (c : Claim)
      (desc : JobDesc P) (claimed : get_claim s q id d ≡ some (s.claim.to_string c))
      (owned : c.worker_id ≡ w)
      (described : get_str s q (get_job_key q id) d ≡ some (s.desc.to_string desc))
      (resolved : is_resolved st ≡ true) where
    abbrev outcome : Bool × JobStatus
    outcome = callback_outcome st (answer cb desc (record { status = st; result = res }))

    resolve_job_runs :
        (name : String)
        → as_stat_name outcome.1 ≡ some name
        → resolve_job s q cb w id st res d ≡ (
          ok tt,
          cleanup s q outcome.0 id (
              publish_result s q id
                (record { status = outcome.1; result = res })
                name
                (s.redis.hdel q.claims_key id d)),
        )
    unfolding resolve_job
    resolve_job_runs name named =
        ground (
          arith,
          s.claim.from_str-to_string c,
          s.desc.from_str-to_string desc,
          eq_iff c.worker_id w,
        )

    -- If the job's claim is this worker's, its description is stored and the status is a resolving
    -- one, then on distinct keys `resolve_job` succeeds, and after it the job is resolved with the
    -- given result and the status that the callback, if there is one, turns the given status into.
    pub resolve_job_outcome :
        HasDistinctKeys q
        → ((resolve_job s q cb w id st res d).0 ≡ ok tt)
          × IsResolvedWith s q id desc
              (record { status = outcome.1; result = res })
              outcome.0
              d
              (resolve_job s q cb w id st res d).1
    resolve_job_outcome k =
        let (name, named) = stat_name_of_resolved outcome.1 (outcome-is_resolved st _ resolved) in
        rw (resolve_job_runs name named) (
          refl,
          concluded_is_resolved s q k id desc (record { status = outcome.1; result = res }) name
              outcome.0 d named described,
        )
