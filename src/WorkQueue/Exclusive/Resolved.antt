-- ===== src/WorkQueue/Exclusive/Resolved.antt =====
-- Resolving a job.
use archipelago_xl.Base.{
  String, Bool, true, false, not, ◌≡◌, refl, inl, inr, Option, none, some, arith, ap, sym, subst,
  ◌∙◌, eq_refl, str_eq, Bool-cases, if◌then◌else◌,
}
use archipelago_xl.WorkQueue.Status.{JobStatus, as_stat_name, is_resolved}
use archipelago_xl.WorkQueue.Redis.{Keyspace}
use archipelago_xl.WorkQueue.Keys.{WorkQueue, JobId}
use archipelago_xl.WorkQueue.Store.{JobResult, Claim, Result, ok, err, Services, Op, and_then}
use archipelago_xl.WorkQueue.Jobs.{
  ResolveCallback, resolve_job, get_claim, get_desc, hget_claim, publish_result, cleanup, conclude,
  resolve_claimed, callback_outcome, answer,
}
use archipelago_xl.WorkQueue.Jobs.Resolving.{publish_result-view, cleanup-view}
use archipelago_xl.WorkQueue.Exclusive.Shrinking.{
  Shrinks, same-Shrinks, Shrinks-twice, texts-Shrinks,
}

module _ {P R : Type 0} (s : Services P R) (q : WorkQueue) where
  hdel-claim :
      (id j : JobId) (d : s.redis.Db)
      → get_claim s q j (s.redis.hdel q.claims_key id d)
        ≡ (if str_eq id j then none else get_claim s q j d)
  hdel-claim id j d =
      ap (λ (v : Keyspace). v.hash q.claims_key j) (s.redis.hdel-view q.claims_key id d)
      ∙ rw (eq_refl q.claims_key) refl

  hdel-Shrinks : (id : JobId) (d : s.redis.Db) → Shrinks s q d (s.redis.hdel q.claims_key id d)
  hdel-Shrinks id d = record {
    pending = λ m key h. ground (arith, s.redis.hdel-view q.claims_key id d);
    distinct = λ key h. ground (arith, s.redis.hdel-view q.claims_key id d);
    claims = λ j. elim (Bool-cases (str_eq id j)) [
      | inl e ↦ inl (hdel-claim id j d ∙ rw e refl)
      | inr e ↦ inr (hdel-claim id j d ∙ rw e refl)
    ];
  }

  published-Shrinks :
      (id : JobId) (r : JobResult R) (name : String) (b : Bool) (d : s.redis.Db)
      → Shrinks s q d (cleanup s q b id (publish_result s q id r name d))
  published-Shrinks id r name b d =
      texts-Shrinks s q d _ (simp (cleanup-view, publish_result-view))
        (simp (cleanup-view, publish_result-view))

  concluded-Shrinks :
      (id : JobId) (res : Option R) (b : Bool) (st : JobStatus) (o : Option String)
      (cb : Option (ResolveCallback P R)) (d : s.redis.Db)
      → as_stat_name st ≡ o
      → Shrinks s q d (conclude s q cb id res (b, st) d).1
  concluded-Shrinks id res b st none cb d e = rw e (same-Shrinks s q d)
  concluded-Shrinks id res b st (some name) cb d e =
      rw e (published-Shrinks id (record { status = st; result = res }) name b d)

  either-Shrinks :
      {A : Type 0} (b : Bool) (m n : Op s.redis.Db A) (d : s.redis.Db)
      → Shrinks s q d (m d).1
      → Shrinks s q d (n d).1
      → Shrinks s q d ((if b then m else n) d).1
  either-Shrinks true m n d h k = h
  either-Shrinks false m n d h k = k

  -- what is read leaves the state as it is
  read-Shrinks :
      {A B : Type 0} (f : A → Op s.redis.Db B) (r : Result A × s.redis.Db) (d : s.redis.Db)
      → r.1 ≡ d
      → ((a : A) → Shrinks s q d (f a d).1)
      → Shrinks s q d (and_then r f).1
  read-Shrinks f (err x, d') d e h = subst (Shrinks s q d) (sym e) (same-Shrinks s q d)
  read-Shrinks f (ok a, d') d e h = subst (λ x. Shrinks s q d (f a x).1) (sym e) (h a)

  module _ (cb : Option (ResolveCallback P R)) (id : JobId) (res : Option R) where
    outcome-Shrinks :
        (o : Bool × JobStatus) (d : s.redis.Db) → Shrinks s q d (conclude s q cb id res o d).1
    outcome-Shrinks (b, st) d = concluded-Shrinks id res b st (as_stat_name st) cb d refl

    get_desc_reads : (d : s.redis.Db) → (get_desc s q id d).1 ≡ d
    get_desc_reads d = ground arith

    hget_claim_reads : (d : s.redis.Db) → (hget_claim s q id d).1 ≡ d
    hget_claim_reads d = ground arith

    claimed-Shrinks :
        (w : String) (st : JobStatus) (c : Option Claim) (d : s.redis.Db)
        → Shrinks s q d (resolve_claimed s q cb w id st res c d).1
    claimed-Shrinks w st none d = same-Shrinks s q d
    claimed-Shrinks w st (some c) d =
        either-Shrinks (not (str_eq c.worker_id w)) _ _ d (same-Shrinks s q d) (
          read-Shrinks _ (get_desc s q id d) d (get_desc_reads d) (λ desc.
            Shrinks-twice s q (hdel-Shrinks id d) (
              outcome-Shrinks
                (callback_outcome st (answer cb desc (record { status = st; result = res }))) _)))

    pub resolve_job-Shrinks :
        (w : String) (st : JobStatus) (d : s.redis.Db)
        → Shrinks s q d (resolve_job s q cb w id st res d).1
    unfolding resolve_job
    resolve_job-Shrinks w st d = either-Shrinks (not (is_resolved st)) _ _ d (same-Shrinks s q d) (
        read-Shrinks _ (hget_claim s q id d) d (hget_claim_reads d) (λ c. claimed-Shrinks w st c d))
