-- ===== src/WorkQueue/Sweep.antt =====
-- wq/src/lib.rs: one round of `reclaim_checker_inner`.
pub mod Requeue
use Prim.Native.String
use archipelago_xl.Base.{
  ℕ, ◌-◌, ◌+◌, String, Bool, Option, none, some, List, [], ◌∷◌, ltb, if◌then◌else◌,
}
use archipelago_xl.WorkQueue.Status.{priority_score}
use archipelago_xl.WorkQueue.Keys.{WorkQueue, JobId, pending_key}
use archipelago_xl.WorkQueue.Store.{Claim, Services}

-- `now.signed_duration_since(time).abs() > reclaim_timeout`: of the two differences one is 0
abbrev pub is_expired : ℕ → ℕ → Claim → Bool
is_expired reclaim_timeout now c = ltb reclaim_timeout ((now - c.time) + (c.time - now))

module _ {P R : Type 0} (s : Services P R) (q : WorkQueue) where
  abbrev pub job_claim_key : JobId → String
  job_claim_key job_id = String.◌++◌ q.claims_key (String.◌++◌ ":" job_id)

  unfoldable pub reinsert : Claim → s.redis.Db → s.redis.Db
  reinsert c d =
      let key = pending_key q.pending c.partition in
      s.redis.publish key "0" (
        s.redis.hdel q.claims_key c.job_id (
          s.redis.del (job_claim_key c.job_id)
            (s.redis.zadd key c.job_id (priority_score c.priority) d)))

  unfoldable pub reinsert_expired : ℕ → List Claim → s.redis.Db → s.redis.Db
  reinsert_expired now [] d = d
  reinsert_expired now (c ∷ claims) d =
      reinsert_expired now claims (if is_expired q.reclaim_timeout now c then reinsert c d else d)

  -- `hgetall::<_, HashMap<String, Claim>>`: one unreadable claim makes the whole reply an error
  abbrev pub cons_claim : Option Claim → Option (List Claim) → Option (List Claim)
  cons_claim none claims = none
  cons_claim (some c) none = none
  cons_claim (some c) (some claims) = some (c ∷ claims)

  unfoldable pub parse_claims : List (String × String) → Option (List Claim)
  parse_claims [] = some []
  parse_claims ((_, text) ∷ fields) = cons_claim (s.claim.from_str text) (parse_claims fields)

  abbrev pub sweep_claims : ℕ → Option (List Claim) → s.redis.Db → s.redis.Db
  sweep_claims now none d = d
  sweep_claims now (some claims) d = reinsert_expired now claims d

  -- one round of the loop, after its sleep
  unfoldable pub reclaim_round : ℕ → s.redis.Db → s.redis.Db
  unfolding parse_claims reinsert_expired reinsert
  reclaim_round now d = sweep_claims now (parse_claims (s.redis.hgetall q.claims_key d)) d
