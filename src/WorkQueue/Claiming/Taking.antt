-- ===== src/WorkQueue/Claiming/Taking.antt =====
-- `take_job` and `next_job`: the loop ends, and what it ends in.
use archipelago_xl.Base.{
  ℕ, zero, suc, ◌≤◌, ◌<◌, String, false, ◌≡◌, ◌≢◌, refl, inl, inr, some, List, [], ◌∷◌, arith, ltb,
  length, Bool-cases, Option-cases, eq_refl, eq_iff, sym, ◌∙◌, ap,
}
use archipelago_xl.Base.Int.{ℤ}
use archipelago_xl.WorkQueue.Status.{
  WorkQueueError, redis, serialization, Priority, priority_of_score,
}
use archipelago_xl.WorkQueue.Redis.{Keyspace, pop_rest}
use archipelago_xl.WorkQueue.Keys.{WorkQueue, JobId, get_job_key}
use archipelago_xl.WorkQueue.Store.{JobDesc, ok, err, Services}
use archipelago_xl.WorkQueue.Jobs.{get_str, cancel_job}
use archipelago_xl.WorkQueue.Jobs.Cancelling.{
  length-remove_member, cancel_job_ok, cancel_key, cancelled-zset,
}
use archipelago_xl.WorkQueue.Claiming.{found, nothing_pending, out_of_fuel, take_job}

module _ {P R : Type 0} (s : Services P R) (q : WorkQueue) where
  abbrev pub zset_at : String → s.redis.Db → List (String × ℤ)
  zset_at key d = (s.redis.view d).zset key

  cancelled-length :
      (id : JobId) (key : String) (d : s.redis.Db)
      → length (zset_at key (cancel_job s q id d).1) ≤ length (zset_at key d)
  cancelled-length id key d = ground (
    arith,
    cancelled-zset s q id d key,
    eq_iff (cancel_key s q id d) key,
    length-remove_member id (zset_at key d),
  )

  pub popped-zset :
      (key : String) (d : s.redis.Db)
      → zset_at key (s.redis.zpopmin key d) ≡ pop_rest (zset_at key d)
  popped-zset key d =
      ap (λ (v : Keyspace). v.zset key) (s.redis.zpopmin-view key d) ∙ rw (eq_refl key)

  shorter :
      (key : String) (d : s.redis.Db) {e : String × ℤ} {z : List (String × ℤ)}
      → zset_at key d ≡ e ∷ z
      → length (zset_at key (s.redis.zpopmin key d)) < length (zset_at key d)
  shorter key d e = rw (popped-zset key d) (rw e (omega arith))

  pub popped-str :
      (key j : String) (d : s.redis.Db) → get_str s q j (s.redis.zpopmin key d) ≡ get_str s q j d
  popped-str key j d = ap (λ (v : Keyspace). v.str j) (s.redis.zpopmin-view key d)

  -- One round of the loop.
  pub data Round (f : ℕ) (clock : ℕ → ℕ) (key : String) (d : s.redis.Db) : Type 0 where
    empty :
        zset_at key d ≡ []
        → take_job s q (suc f) clock key d ≡ (ok nothing_pending, d)
        → Round f clock key d
    broken :
        (e : WorkQueueError)
        → take_job s q (suc f) clock key d ≡ (err e, s.redis.zpopmin key d)
        → Round f clock key d
    given :
        (id : JobId) (priority : Priority) (score : ℤ) (text : String) (desc : JobDesc P)
        (z : List (String × ℤ))
        → zset_at key d ≡ (id, score) ∷ z
        → priority_of_score score ≡ some priority
        → get_str s q (get_job_key q id) d ≡ some text
        → s.desc.from_str text ≡ some desc
        → ltb desc.deadline (clock f) ≡ false
        → take_job s q (suc f) clock key d
          ≡ (ok (found id priority desc.params), s.redis.zpopmin key d)
        → Round f clock key d
    skipped :
        (id : JobId) (score : ℤ) (z : List (String × ℤ))
        → zset_at key d ≡ (id, score) ∷ z
        → take_job s q (suc f) clock key d
          ≡ take_job s q f clock key (cancel_job s q id (s.redis.zpopmin key d)).1
        → Round f clock key d

  pub round : (f : ℕ) (clock : ℕ → ℕ) (key : String) (d : s.redis.Db) → Round f clock key d
  unfolding take_job
  round f clock key d = pending_set (zset_at key d) refl
    where
      d1 : s.redis.Db
      d1 = s.redis.zpopmin key d

      timed :
          (id : JobId) (score : ℤ) (z : List (String × ℤ)) (priority : Priority) (text : String)
          (desc : JobDesc P)
          → zset_at key d ≡ (id, score) ∷ z
          → priority_of_score score ≡ some priority
          → get_str s q (get_job_key q id) d1 ≡ some text
          → s.desc.from_str text ≡ some desc
          → Round f clock key d
      timed id score z priority text desc e p t r =
          elim (Bool-cases (ltb desc.deadline (clock f))) [
            | inl late ↦ skipped id score z e (ground (arith, cancel_job_ok s q id d1))
            | inr in_time ↦
                given id priority score text desc z e p (sym (popped-str key _ d) ∙ t) r in_time
                  (ground arith)
          ]

      read :
          (id : JobId) (score : ℤ) (z : List (String × ℤ)) (priority : Priority) (text : String)
          → zset_at key d ≡ (id, score) ∷ z
          → priority_of_score score ≡ some priority
          → get_str s q (get_job_key q id) d1 ≡ some text
          → Round f clock key d
      read id score z priority text e p t = elim (Option-cases (s.desc.from_str text)) [
        | inl n ↦ broken serialization (ground arith)
        | inr (desc, r) ↦ timed id score z priority text desc e p t r
      ]

      fetch :
          (id : JobId) (score : ℤ) (z : List (String × ℤ)) (priority : Priority)
          → zset_at key d ≡ (id, score) ∷ z
          → priority_of_score score ≡ some priority
          → Round f clock key d
      fetch id score z priority e p = elim (Option-cases (get_str s q (get_job_key q id) d1)) [
        | inl n ↦ broken redis (ground arith)
        | inr (text, t) ↦ read id score z priority text e p t
      ]

      pending_set : (z : List (String × ℤ)) → zset_at key d ≡ z → Round f clock key d
      pending_set [] e = empty e (ground arith)
      pending_set ((id, score) ∷ z) e = elim (Option-cases (priority_of_score score)) [
        | inl n ↦ broken redis (ground arith)
        | inr (priority, p) ↦ fetch id score z priority e p
      ]

  -- One round more than there are pending jobs is enough: the loop never stops for want of rounds.
  pub take_job_ends :
      (f : ℕ) (clock : ℕ → ℕ) (key : String) (d : s.redis.Db)
      → length (zset_at key d) < f
      → (take_job s q f clock key d).0 ≢ ok out_of_fuel
  take_job_ends zero clock key d h = absurd (omega arith)
  take_job_ends (suc f) clock key d h = elim (round f clock key d) [
    | empty e r ↦ rw r (λ x. cc)
    | broken e r ↦ rw r (λ x. cc)
    | given id priority score text desc z e p t o b r ↦ rw r (λ x. cc)
    | skipped id score z e r ↦ rw r (
        take_job_ends f clock key (cancel_job s q id (s.redis.zpopmin key d)).1
          (omega (arith, cancelled-length id key (s.redis.zpopmin key d), shorter key d e, h)))
  ]
