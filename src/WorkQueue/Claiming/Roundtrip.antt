-- ===== src/WorkQueue/Claiming/Roundtrip.antt =====
-- Enqueueing a job, and claiming it.
use archipelago_xl.Base.{
  ℕ, ◌+◌, ◌≤◌, String, ◌≡◌, refl, Option, none, some, List, [], ◌∷◌, arith, eq_refl, eq_iff, ◌∙◌,
  ap, str_eq, if◌then◌else◌,
}
use archipelago_xl.WorkQueue.Status.{Priority, priority_score, pending, running}
use archipelago_xl.WorkQueue.Status.Codes.{priority_of_score_iff}
use archipelago_xl.WorkQueue.Redis.{Keyspace, insert_member, remove_member}
use archipelago_xl.WorkQueue.Keys.{
  valid, normalize, pending_key, WorkQueue, JobId, get_job_key, get_result_key,
}
use archipelago_xl.WorkQueue.Keys.Distinct.{HasDistinctKeys}
use archipelago_xl.WorkQueue.Store.{JobDesc, ok, Services}
use archipelago_xl.WorkQueue.Jobs.{
  get_str, get_claim, enqueue_job_in, enqueue_pipe, note_partition, get_job_status,
}
use archipelago_xl.WorkQueue.Claiming.{found, Wake, claim_job_in, take_job, next_job, claim_loop}
use archipelago_xl.WorkQueue.Claiming.Taking.{zset_at, popped-str}

module _ {P R : Type 0} (s : Services P R) (q : WorkQueue) where
  noted-view :
      (r : Option String) (d : s.redis.Db)
      → ((s.redis.view (note_partition s q r d)).str ≡ (s.redis.view d).str)
        × ((s.redis.view (note_partition s q r d)).zset ≡ (s.redis.view d).zset)
        × ((s.redis.view (note_partition s q r d)).hash ≡ (s.redis.view d).hash)
  noted-view none d = (refl, refl, refl)
  noted-view (some p) d =
      let e = s.redis.sadd-view q.pending.partitions_key p d in
      (
        ap (λ (v : Keyspace). v.str) e,
        ap (λ (v : Keyspace). v.zset) e,
        ap (λ (v : Keyspace). v.hash) e,
      )

  module _ (id : JobId) (r : Option String) (text : String) (priority : Priority)
      (d : s.redis.Db) where
    abbrev pub key : String
    key = pending_key q.pending r

    abbrev pub enqueued : s.redis.Db
    enqueued = enqueue_pipe s q id r text priority d

    abbrev described : s.redis.Db
    described = s.redis.set (get_job_key q id) text d

    abbrev noted : s.redis.Db
    noted = note_partition s q r described

    -- all that an enqueued job changes in the parts that the other operations read
    enqueued-view : (s.redis.view enqueued).str ≡ (s.redis.view described).str
    enqueued-view =
        ap (λ (v : Keyspace). v.str)
          (s.redis.publish-view key "0" (s.redis.zadd key id (priority_score priority) noted))
        ∙ ap (λ (v : Keyspace). v.str) (s.redis.zadd-view key id (priority_score priority) noted)
        ∙ (noted-view r described).0

    enqueued-str :
        (j : String)
        → get_str s q j enqueued
          ≡ (if str_eq (get_job_key q id) j then some text else get_str s q j d)
    enqueued-str j =
        ap (λ (f : String → Option String). f j) enqueued-view
        ∙ ap (λ (v : Keyspace). v.str j) (s.redis.set-view (get_job_key q id) text d)

    pub enqueued-zset_at :
        (other : String)
        → zset_at s q other enqueued ≡ (
            if str_eq key other
            then insert_member s.redis.tie id
                (priority_score priority)
                (remove_member id (zset_at s q key d))
            else zset_at s q other d)
    enqueued-zset_at other = ground (
      arith,
      s.redis.publish-view key "0" (s.redis.zadd key id (priority_score priority) noted),
      s.redis.zadd-view key id (priority_score priority) noted,
      noted-view r described,
      s.redis.set-view (get_job_key q id) text d,
    )

    enqueued-zset :
        zset_at s q (pending_key q.pending r) enqueued
        ≡ insert_member s.redis.tie id
            (priority_score priority)
            (remove_member id (zset_at s q (pending_key q.pending r) d))
    enqueued-zset = enqueued-zset_at key ∙ rw (eq_refl key) refl

    pub enqueued-claim : (j : JobId) → get_claim s q j enqueued ≡ get_claim s q j d
    enqueued-claim j = ground (
      arith,
      s.redis.publish-view key "0" (s.redis.zadd key id (priority_score priority) noted),
      s.redis.zadd-view key id (priority_score priority) noted,
      noted-view r described,
      s.redis.set-view (get_job_key q id) text d,
    )

  module _ (id : JobId) (r : Option String) (priority : Priority) (desc : JobDesc P)
      (d : s.redis.Db) (clock : ℕ → ℕ)
      (alone : zset_at s q (pending_key q.pending r) d ≡ (id, priority_score priority) ∷ [])
      (stored : get_str s q (get_job_key q id) d ≡ some (s.desc.to_string desc))
      (in_time : clock 1 ≤ desc.deadline) where
    next_job_alone :
        next_job s q clock (pending_key q.pending r) d
        ≡ (ok (found id priority desc.params), s.redis.zpopmin (pending_key q.pending r) d)
    unfolding next_job
    next_job_alone = rw alone (
        unfold take_job in
        ground (
          arith,
          alone,
          (priority_of_score_iff (priority_score priority) priority).1 refl,
          popped-str s q (pending_key q.pending r) (get_job_key q id) d,
          stored,
          s.desc.from_str-to_string desc,
          in_time,
        ))

    claim_loop_alone :
        (wakes : List (Wake s.redis.Db)) (remaining_time : ℕ)
        → claim_loop s q clock (pending_key q.pending r) wakes remaining_time d
          ≡ (ok (some (id, priority, desc.params)), s.redis.zpopmin (pending_key q.pending r) d)
    unfolding claim_loop
    claim_loop_alone [] remaining_time = rw next_job_alone
    claim_loop_alone (w ∷ wakes) remaining_time = rw next_job_alone

    claim_alone :
        (partition : Option String) (w : String) (wakes : List (Wake s.redis.Db)) (now : ℕ)
        → normalize q.pending partition ≡ valid r
        → claim_job_in s q partition w clock wakes now d ≡ (
          ok (some (record { job_id = id; params = desc.params })),
          s.redis.hset q.claims_key id
              (s.claim.to_string (record {
                job_id = id;
                priority = priority;
                worker_id = w;
                time = now;
                partition = r;
              }))
              (s.redis.zpopmin (pending_key q.pending r) d),
        )
    unfolding claim_job_in
    claim_alone partition w wakes now n = rw n (rw (claim_loop_alone wakes q.claim_timeout) refl)

  status_pending :
      (id : JobId) (d : s.redis.Db) {text : String}
      → get_str s q (get_result_key q id) d ≡ none
      → get_claim s q id d ≡ none
      → get_str s q (get_job_key q id) d ≡ some text
      → (get_job_status s q id d).0 ≡ ok (some pending)
  unfolding get_job_status
  status_pending id d a b c = ground arith

  status_running :
      (id : JobId) (d : s.redis.Db) {text : String}
      → get_str s q (get_result_key q id) d ≡ none
      → get_claim s q id d ≡ some text
      → (get_job_status s q id d).0 ≡ ok (some running)
  unfolding get_job_status
  status_running id d a b = ground arith

  claimed-result :
      (key : String) (j id : JobId) (text : String) (d : s.redis.Db)
      → get_str s q key (s.redis.hset q.claims_key id text d) ≡ get_str s q key d
  claimed-result key j id text d =
      ap (λ (v : Keyspace). v.str key) (s.redis.hset-view q.claims_key id text d)

  claimed-claim :
      (id : JobId) (text : String) (d : s.redis.Db)
      → get_claim s q id (s.redis.hset q.claims_key id text d) ≡ some text
  claimed-claim id text d =
      ap (λ (v : Keyspace). v.hash q.claims_key id) (s.redis.hset-view q.claims_key id text d)
      ∙ rw (eq_refl q.claims_key, eq_refl id)

  abbrev pub desc_of : P → ℕ → ℕ → Option String → JobDesc P
  desc_of params now deadline r = record {
    params = params;
    submitted_at = now;
    deadline = deadline;
    partition = r;
  }

  pub enqueue_runs :
      (partition r : Option String) (params : P) (priority : Priority) (deadline_in : ℕ)
      (id : JobId) (now now' : ℕ) (d : s.redis.Db)
      → normalize q.pending partition ≡ valid r
      → enqueue_job_in s q partition params priority deadline_in id now now' d ≡ (
        ok id,
        enqueue_pipe s q id r
            (s.desc.to_string (desc_of params now (now' + deadline_in) r))
            priority
            d,
      )
  unfolding enqueue_job_in
  enqueue_runs partition r params priority deadline_in id now now' d n = rw n refl

  -- On a queue with distinct keys, a job whose ID has no claim and no result, enqueued in a valid
  -- partition where nothing is pending, has the status
  -- "pending"; a worker that asks for the partition before the deadline is given that job, without
  -- a wait, and then the job's status is "running".
  pub enqueue-claim :
      (partition r : Option String) (params : P) (priority : Priority) (deadline_in : ℕ)
      (id : JobId) (now now' claimed_at : ℕ) (w : String) (clock : ℕ → ℕ)
      (wakes : List (Wake s.redis.Db)) (d : s.redis.Db)
      → HasDistinctKeys q
      → normalize q.pending partition ≡ valid r
      → zset_at s q (pending_key q.pending r) d ≡ []
      → get_claim s q id d ≡ none
      → get_str s q (get_result_key q id) d ≡ none
      → clock 1 ≤ now' + deadline_in
      → let (queued, d1) = enqueue_job_in s q partition params priority deadline_in id now now' d in
        let (claimed, d2) = claim_job_in s q partition w clock wakes claimed_at d1 in
        (queued ≡ ok id)
        × ((get_job_status s q id d1).0 ≡ ok (some pending))
        × (claimed ≡ ok (some (record { job_id = id; params = params })))
        × ((get_job_status s q id d2).0 ≡ ok (some running))
  enqueue-claim partition r params priority deadline_in id now now' claimed_at w clock wakes d k n
        nothing unclaimed unresolved in_time =
      let desc = desc_of params now (now' + deadline_in) r in
      let text = s.desc.to_string desc in
      let d1 = enqueue_pipe s q id r text priority d in
      let stored : get_str s q (get_job_key q id) d1 ≡ some text =
        enqueued-str id r text priority d (get_job_key q id) ∙ rw (eq_refl (get_job_key q id)) in
      let alone : zset_at s q (pending_key q.pending r) d1 ≡ (id, priority_score priority) ∷ [] =
        enqueued-zset id r text priority d ∙ rw nothing in
      let fresh : get_str s q (get_result_key q id) d1 ≡ none = ground (
        arith,
        enqueued-str id r text priority d (get_result_key q id),
        k.job-result id id,
        eq_iff (get_job_key q id) (get_result_key q id),
        unresolved,
      ) in
      let runs =
        claim_alone id r priority desc d1 clock alone stored in_time partition w wakes claimed_at
          n in
      rw (enqueue_runs partition r params priority deadline_in id now now' d n) (
        refl,
        status_pending id d1 fresh (enqueued-claim id r text priority d id ∙ unclaimed) stored,
        ap (λ o. o.0) runs,
        rw runs (
            status_running id _
              (claimed-result (get_result_key q id) id id _ _
                ∙ popped-str s q (pending_key q.pending r) (get_result_key q id) d1
                ∙ fresh)
              (claimed-claim id _ _)),
      )
