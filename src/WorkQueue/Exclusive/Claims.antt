-- ===== src/WorkQueue/Exclusive/Claims.antt =====
-- Claiming, and refreshing a claim.
use archipelago_xl.Base.{
  ℕ, zero, suc, String, true, false, ◌≡◌, refl, inl, inr, Option, none, some, List, [], ◌∷◌, arith,
  ap, sym, subst, ◌∙◌, eq_iff, eq_refl, str_eq, Bool-cases, Option-cases, length, some-injective,
  if◌then◌else◌,
}
use archipelago_xl.Base.Int.{ℤ}
use archipelago_xl.WorkQueue.Redis.{Keyspace}
use archipelago_xl.WorkQueue.Keys.{
  Checked, valid, refused, normalize, WorkQueue, JobId, pending_key,
}
use archipelago_xl.WorkQueue.Store.{
  Claim, Result, ok, err, refresh, new_claim, in_partition, Services, and_then, ◌>>=◌,
}
use archipelago_xl.WorkQueue.Jobs.{parse_claim, reclaim_job, reclaim_found, get_claim, of_checked}
use archipelago_xl.WorkQueue.Jobs.Cancelling.{is_member}
use archipelago_xl.WorkQueue.Claiming.{
  Popped, found, nothing_pending, out_of_fuel, take_job, next_job, claim_loop, claim_job_in, give,
  settle,
}
use archipelago_xl.WorkQueue.Claiming.Taking.{empty, broken, given, skipped, round, zset_at}
use archipelago_xl.WorkQueue.Exclusive.{has_distinct_members, is_pending, IsExclusive}
use archipelago_xl.WorkQueue.Exclusive.Shrinking.{
  popped-Shrinks, popped-other, cancel_job-Shrinks, Shrinks-IsExclusive,
}

module _ {P R : Type 0} (s : Services P R) (q : WorkQueue) where
  abbrev pub IsNowhere : JobId → s.redis.Db → Type 0
  IsNowhere id d = (r : Option String) → is_pending s q id r d ≡ false

  hset-claim :
      (id j : JobId) (text : String) (d : s.redis.Db)
      → get_claim s q j (s.redis.hset q.claims_key id text d)
        ≡ (if str_eq id j then some text else get_claim s q j d)
  hset-claim id j text d =
      ap (λ (v : Keyspace). v.hash q.claims_key j) (s.redis.hset-view q.claims_key id text d)
      ∙ rw (eq_refl q.claims_key) refl

  hset-zset :
      (id : JobId) (text key : String) (d : s.redis.Db)
      → zset_at s q key (s.redis.hset q.claims_key id text d) ≡ zset_at s q key d
  hset-zset id text key d =
      ap (λ (v : Keyspace). v.zset key) (s.redis.hset-view q.claims_key id text d)

  was_pending :
      (id j : JobId) (text : String) (r : Option String) (d : s.redis.Db)
      → is_pending s q j r (s.redis.hset q.claims_key id text d) ≡ true
      → is_pending s q j r d ≡ true
  was_pending id j text r d h =
      subst (λ (z : List (String × ℤ)). is_member j z ≡ true)
        (hset-zset id text (pending_key q.pending r) d) h

  module _ (c : Claim) (id : JobId) (d : s.redis.Db) (own : c.job_id ≡ id)
      (nowhere : IsNowhere id d) (x : IsExclusive s q d) where
    abbrev after : s.redis.Db
    after = s.redis.hset q.claims_key id (s.claim.to_string c) d

    hset-apart :
        (j : JobId) (r : Option String) → is_pending s q j r d ≡ true → get_claim s q j after ≡ none
    hset-apart j r was =
        ground
          (arith, hset-claim id j (s.claim.to_string c) d, eq_iff id j, nowhere r, x.apart j r was)

    hset-named :
        (j : JobId) (text : String)
        → get_claim s q j after ≡ some text
        → (c' : Claim) × (s.claim.from_str text ≡ some c') × (c'.job_id ≡ j)
    hset-named j text h = elim (Bool-cases (str_eq id j)) [
      | inl e ↦ (
        c,
        ap s.claim.from_str (ground (arith, hset-claim id j (s.claim.to_string c) d))
            ∙ s.claim.from_str-to_string c,
        own ∙ (eq_iff id j).0 e,
      )
      | inr e ↦ x.named j text (ground (arith, hset-claim id j (s.claim.to_string c) d))
    ]

    -- a claim on a job that is pending nowhere
    hset-IsExclusive : IsExclusive s q after
    hset-IsExclusive = record {
      apart = λ j r h. hset-apart j r (was_pending id j (s.claim.to_string c) r d h);
      one_place = λ j r r' h h'.
          x.one_place j r r' (was_pending id j (s.claim.to_string c) r d h)
            (was_pending id j (s.claim.to_string c) r' d h');
      once = λ r.
          subst (λ (z : List (String × ℤ)). has_distinct_members z ≡ true)
            (sym (hset-zset id (s.claim.to_string c) (pending_key q.pending r) d)) (x.once r);
      named = hset-named;
    }

  module _ (r : Option String) (id : JobId) (score : ℤ) (z : List (String × ℤ)) (d : s.redis.Db)
      (first : zset_at s q (pending_key q.pending r) d ≡ (id, score) ∷ z)
      (x : IsExclusive s q d) where
    only_there :
        (r' : Option String)
        → is_pending s q id r' d ≡ true
        → pending_key q.pending r' ≡ pending_key q.pending r
    only_there r' h = x.one_place id r' r h (ground (arith, eq_refl id))

    popped-IsNowhere : IsNowhere id (s.redis.zpopmin (pending_key q.pending r) d)
    popped-IsNowhere r' =
        elim (Bool-cases (str_eq (pending_key q.pending r) (pending_key q.pending r'))) [
          | inl e ↦ ground (
            arith,
            popped-other s q (pending_key q.pending r) (pending_key q.pending r') d,
            x.once r,
          )
          | inr e ↦ elim (Bool-cases (is_pending s q id r' d)) [
            | inl h ↦ ground (
              arith,
              only_there r' h,
              eq_iff (pending_key q.pending r) (pending_key q.pending r'),
            )
            | inr h ↦
                ground
                  (arith, popped-other s q (pending_key q.pending r) (pending_key q.pending r') d)
          ]
        ]

  -- what the loop over the pending jobs leaves
  abbrev IsLeft : Result (Popped P) × s.redis.Db → Type 0
  IsLeft (ok (found id priority params), d) = IsExclusive s q d × IsNowhere id d
  IsLeft (ok nothing_pending, d) = IsExclusive s q d
  IsLeft (ok out_of_fuel, d) = IsExclusive s q d
  IsLeft (err e, d) = IsExclusive s q d

  popped-IsExclusive :
      (key : String) (d : s.redis.Db) → IsExclusive s q d → IsExclusive s q (s.redis.zpopmin key d)
  popped-IsExclusive key d = Shrinks-IsExclusive s q (popped-Shrinks s q key d)

  take_job-IsLeft :
      (f : ℕ) (clock : ℕ → ℕ) (r : Option String) (d : s.redis.Db)
      → IsExclusive s q d
      → IsLeft (take_job s q f clock (pending_key q.pending r) d)
  take_job-IsLeft zero clock r d x = unfold take_job in x
  take_job-IsLeft (suc f) clock r d x = elim (round s q f clock (pending_key q.pending r) d) [
    | empty e t ↦ rw t x
    | broken e t ↦ rw t (popped-IsExclusive (pending_key q.pending r) d x)
    | given id priority score text desc z e p t o b k ↦
        rw k (popped-IsExclusive (pending_key q.pending r) d x, popped-IsNowhere r id score z d e x)
    | skipped id score z e t ↦ rw t (
        take_job-IsLeft f clock r _ (
          Shrinks-IsExclusive s q (cancel_job-Shrinks s q id _)
            (popped-IsExclusive (pending_key q.pending r) d x)))
  ]

  give-IsExclusive :
      (w : String) (r : Option String) (now : ℕ) (out : Result (Popped P) × s.redis.Db)
      → IsLeft out
      → IsExclusive s q
          (and_then (and_then out (settle s q (λ d. (ok none, d)))) (give s q w r now)).1
  unfolding new_claim in_partition
  give-IsExclusive w r now (ok (found id priority params), d) (x, nowhere) =
      hset-IsExclusive (in_partition (new_claim w id priority now) r) id d refl nowhere x
  give-IsExclusive w r now (ok nothing_pending, d) x = x
  give-IsExclusive w r now (ok out_of_fuel, d) x = x
  give-IsExclusive w r now (err e, d) x = x

  checked-IsExclusive :
      (w : String) (clock : ℕ → ℕ) (now : ℕ) (c : Checked (Option String)) (d : s.redis.Db)
      → IsExclusive s q d
      → IsExclusive s q
          (and_then (of_checked c d) (λ r.
            claim_loop s q clock (pending_key q.pending r) [] q.claim_timeout
            >>= give s q w r now)).1
  unfolding claim_loop next_job
  checked-IsExclusive w clock now (valid r) d x =
      give-IsExclusive w r now (next_job s q clock (pending_key q.pending r) d)
        (take_job-IsLeft (suc (length (zset_at s q (pending_key q.pending r) d))) clock r d x)
  checked-IsExclusive w clock now (refused e) d x = x

  pub claim_job_in-IsExclusive :
      (partition : Option String) (w : String) (clock : ℕ → ℕ) (now : ℕ) (d : s.redis.Db)
      → IsExclusive s q d
      → IsExclusive s q (claim_job_in s q partition w clock [] now d).1
  unfolding claim_job_in
  claim_job_in-IsExclusive partition w clock now d =
      checked-IsExclusive w clock now (normalize q.pending partition) d

  pub claimed-IsNowhere :
      (id : JobId) (text : String) (d : s.redis.Db)
      → IsExclusive s q d
      → get_claim s q id d ≡ some text
      → IsNowhere id d
  claimed-IsNowhere id text d x g r = elim (Bool-cases (is_pending s q id r d)) [
    | inl h ↦ cc (g, x.apart id r h)
    | inr h ↦ h
  ]

  module _ (id : JobId) (w : String) (now : ℕ) (d : s.redis.Db) (x : IsExclusive s q d) where
    refreshed-IsExclusive :
        (c : Claim) (text : String)
        → get_claim s q id d ≡ some text
        → s.claim.from_str text ≡ some c
        → IsExclusive s q (reclaim_found s q id w now (some c) d).1
    unfolding refresh
    refreshed-IsExclusive c text g e =
        let (c', e', same) = x.named id text g in
        let own : c.job_id ≡ id =
          ap (λ (k : Claim). k.job_id) (some-injective _ _ (sym e ∙ e')) ∙ same in
        elim (Bool-cases (str_eq w c.worker_id)) [
          | inl mine ↦ rw mine (
              hset-IsExclusive (record c { time = now }) id d own (claimed-IsNowhere id text d x g)
                x)
          | inr other ↦ rw other x
        ]

    found-IsExclusive :
        (o : Option String)
        → get_claim s q id d ≡ o
        → IsExclusive s q (and_then (parse_claim s q o d) (reclaim_found s q id w now)).1
    found-IsExclusive none g = x
    found-IsExclusive (some text) g = elim (Option-cases (s.claim.from_str text)) [
      | inl e ↦ rw e x
      | inr (c, e) ↦ rw e (refreshed-IsExclusive c text g e)
    ]

    pub reclaim_job-IsExclusive : IsExclusive s q (reclaim_job s q id w now d).1
    unfolding reclaim_job
    reclaim_job-IsExclusive = found-IsExclusive (get_claim s q id d) refl
