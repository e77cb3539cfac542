-- ===== src/WorkQueue/Sweep/Requeue.antt =====
-- One round of the reclaim checker puts the jobs of expired claims back, and touches nothing else.
use mathlib.Core.List.{Memᴰ}
use archipelago_xl.Base.{
  ℕ, String, Bool, true, false, ◌||◌, ◌≡◌, refl, none, some, List, [], ◌∷◌, arith, All, str_eq,
  is_some, Option-cases, inl, inr, eq_iff, eq_refl, if◌then◌else◌, ap, ◌∙◌,
}
use archipelago_xl.Base.Int.{ℤ}
use archipelago_xl.WorkQueue.Status.{priority_score}
use archipelago_xl.WorkQueue.Redis.{insert_member, remove_member}
use archipelago_xl.WorkQueue.Keys.{WorkQueue, JobId, pending_key, get_job_key}
use archipelago_xl.WorkQueue.Keys.Distinct.{HasDistinctKeys}
use archipelago_xl.WorkQueue.Store.{Claim, Services}
use archipelago_xl.WorkQueue.Jobs.{get_str, get_claim}
use archipelago_xl.WorkQueue.Jobs.Cancelling.{is_member}
use archipelago_xl.WorkQueue.Claiming.Taking.{zset_at}
use archipelago_xl.WorkQueue.Sweep.{
  is_expired, job_claim_key, reinsert, reinsert_expired, parse_claims, reclaim_round,
}

pub is_member-insert_member :
    (tie : String → String → Bool) (m n : String) (s : ℤ) (z : List (String × ℤ))
    → is_member m (insert_member tie n s z) ≡ (str_eq n m || is_member m z)
is_member-insert_member tie m n s [] = ground arith
is_member-insert_member tie m n s ((k, t) ∷ z) = ground (arith, is_member-insert_member tie m n s z)

is_member-remove_other :
    (m n : String) (z : List (String × ℤ))
    → str_eq n m ≡ false
    → is_member m (remove_member n z) ≡ is_member m z
is_member-remove_other m n [] h = refl
is_member-remove_other m n ((k, t) ∷ z) h =
    ground (arith, is_member-remove_other m n z h, eq_iff k m, eq_iff k n, eq_iff n m)

pub is_member-requeue :
    (tie : String → String → Bool) (m n : String) (s : ℤ) (z : List (String × ℤ))
    → is_member m (insert_member tie n s (remove_member n z)) ≡ (str_eq n m || is_member m z)
is_member-requeue tie m n s z =
    ground
      (arith, is_member-insert_member tie m n s (remove_member n z), is_member-remove_other m n z)

All-of_mem {ℓ κ} : {A : Type ℓ} {P : A → Type κ} (l : List A) → ((a : A) → Memᴰ a l → P a) → All P l
All-of_mem [] h = tt
All-of_mem (a ∷ l) h = (h a (Memᴰ.head refl), All-of_mem l (λ b m. h b (Memᴰ.tail m)))

module _ {P R : Type 0} (s : Services P R) (q : WorkQueue) where
  module _ (c : Claim) (d : s.redis.Db) where
    abbrev pub home : String
    home = pending_key q.pending c.partition

    pub reinserted-claim :
        (j : JobId)
        → (s.redis.view (reinsert s q c d)).hash q.claims_key j
          ≡ (if str_eq c.job_id j then none else (s.redis.view d).hash q.claims_key j)
    unfolding reinsert
    reinserted-claim j =
        simp (s.redis.publish-view, s.redis.hdel-view, s.redis.del-view, s.redis.zadd-view, eq_refl)

    reinserted-str :
        (k : String)
        → (s.redis.view (reinsert s q c d)).str k
          ≡ (if str_eq (job_claim_key s q c.job_id) k then none else (s.redis.view d).str k)
    unfolding reinsert
    reinserted-str k =
        simp (s.redis.publish-view, s.redis.hdel-view, s.redis.del-view, s.redis.zadd-view)

    pub reinserted-zset :
        (key : String)
        → (s.redis.view (reinsert s q c d)).zset key ≡ (
            if str_eq home key
            then insert_member s.redis.tie c.job_id
                (priority_score c.priority)
                (remove_member c.job_id ((s.redis.view d).zset home))
            else (s.redis.view d).zset key)
    unfolding reinsert
    reinserted-zset key =
        simp (s.redis.publish-view, s.redis.hdel-view, s.redis.del-view, s.redis.zadd-view)

    reinserted-pending :
        (m : JobId) (key : String)
        → is_member m (zset_at s q key (reinsert s q c d)) ≡ (
            if str_eq home key
            then str_eq c.job_id m || is_member m (zset_at s q key d)
            else is_member m (zset_at s q key d))
    reinserted-pending m key = ground (
      arith,
      reinserted-zset key,
      eq_iff home key,
      is_member-requeue s.redis.tie m c.job_id (priority_score c.priority) (zset_at s q key d),
    )

  -- what the round does to one claim
  abbrev swept_one : ℕ → Claim → s.redis.Db → s.redis.Db
  swept_one now c d = if is_expired q.reclaim_timeout now c then reinsert s q c d else d

  stays_pending :
      (now : ℕ) (claims : List Claim) (d : s.redis.Db) (m : JobId) (key : String)
      → is_member m (zset_at s q key d) ≡ true
      → is_member m (zset_at s q key (reinsert_expired s q now claims d)) ≡ true
  unfolding reinsert_expired
  stays_pending now [] d m key h = h
  stays_pending now (c ∷ claims) d m key h =
      stays_pending now claims (swept_one now c d) m key
        (ground (arith, reinserted-pending c d m key))

  stays_unclaimed :
      (now : ℕ) (claims : List Claim) (d : s.redis.Db) (j : JobId)
      → get_claim s q j d ≡ none
      → get_claim s q j (reinsert_expired s q now claims d) ≡ none
  unfolding reinsert_expired
  stays_unclaimed now [] d j h = h
  stays_unclaimed now (c ∷ claims) d j h =
      stays_unclaimed now claims (swept_one now c d) j (ground (arith, reinserted-claim c d j))

  requeues :
      (now : ℕ) (claims : List Claim) (c : Claim) (d : s.redis.Db)
      → Memᴰ c claims
      → is_expired q.reclaim_timeout now c ≡ true
      → (get_claim s q c.job_id (reinsert_expired s q now claims d) ≡ none)
        × (is_member c.job_id
              (zset_at s q (pending_key q.pending c.partition) (reinsert_expired s q now claims d))
            ≡ true)
  unfolding reinsert_expired
  requeues now [] c d m x = elim m [ ]
  requeues now (c' ∷ claims) c d (Memᴰ.head e) x = rw e (
    stays_unclaimed now claims (swept_one now c' d) c'.job_id (
        ground (
          arith,
          reinserted-claim c' d c'.job_id,
          eq_refl c'.job_id,
          ap (is_expired q.reclaim_timeout now) e,
        )),
    stays_pending now claims (swept_one now c' d) c'.job_id (pending_key q.pending c'.partition) (
        ground (
          arith,
          reinserted-pending c' d c'.job_id (pending_key q.pending c'.partition),
          eq_refl c'.job_id,
          eq_refl (pending_key q.pending c'.partition),
          ap (is_expired q.reclaim_timeout now) e,
        )),
  )
  requeues now (c' ∷ claims) c d (Memᴰ.tail m) x = requeues now claims c (swept_one now c' d) m x

  spares :
      (now : ℕ) (claims : List Claim) (j : JobId) (d : s.redis.Db)
      → All (λ c. c.job_id ≡ j → is_expired q.reclaim_timeout now c ≡ false) claims
      → get_claim s q j (reinsert_expired s q now claims d) ≡ get_claim s q j d
  unfolding reinsert_expired
  spares now [] j d h = refl
  spares now (c ∷ claims) j d (h, hs) =
      spares now claims j (swept_one now c d) hs
      ∙ ground (arith, reinserted-claim c d j, eq_iff c.job_id j)

  keeps_descriptions :
      (now : ℕ) (claims : List Claim) (j : JobId) (d : s.redis.Db)
      → HasDistinctKeys q
      → get_str s q (get_job_key q j) (reinsert_expired s q now claims d)
        ≡ get_str s q (get_job_key q j) d
  unfolding reinsert_expired
  keeps_descriptions now [] j d k = refl
  keeps_descriptions now (c ∷ claims) j d k =
      keeps_descriptions now claims j (swept_one now c d) k
      ∙ ground (
        arith,
        reinserted-str c d (get_job_key q j),
        k.job-claim j c.job_id,
        eq_iff (job_claim_key s q c.job_id) (get_job_key q j),
      )

  -- the claims that are read are the ones that the fields hold
  pub record AreRead (fields : List (String × String)) (claims : List Claim) : Type 0 where
    pub runs : parse_claims s q fields ≡ some claims
    pub reads :
        (f text : String) (c : Claim)
        → Memᴰ (f, text) fields
        → s.claim.from_str text ≡ some c
        → Memᴰ c claims
    pub stored :
        (c : Claim)
        → Memᴰ c claims
        → (f : String) × (text : String) × Memᴰ (f, text) fields × (s.claim.from_str text ≡ some c)

  no_field-AreRead : AreRead [] []
  unfolding parse_claims
  no_field-AreRead = record {
    runs = refl;
    reads = λ f text c m. elim m [ ];
    stored = λ c m. elim m [ ];
  }

  read_more :
      (f text f' text' : String) (fields : List (String × String)) (c c' : Claim)
      (claims : List Claim)
      → s.claim.from_str text ≡ some c
      → AreRead fields claims
      → Memᴰ (f', text') ((f, text) ∷ fields)
      → s.claim.from_str text' ≡ some c'
      → Memᴰ c' (c ∷ claims)
  read_more f text f' text' fields c c' claims e r (Memᴰ.head same) e' = Memᴰ.head (ground arith)
  read_more f text f' text' fields c c' claims e r (Memᴰ.tail m) e' =
      Memᴰ.tail (r.reads f' text' c' m e')

  stored_more :
      (f text : String) (fields : List (String × String)) (c c' : Claim) (claims : List Claim)
      → s.claim.from_str text ≡ some c
      → AreRead fields claims
      → Memᴰ c' (c ∷ claims)
      → (f' : String) × (text' : String) × Memᴰ (f', text') ((f, text) ∷ fields)
        × (s.claim.from_str text' ≡ some c')
  stored_more f text fields c c' claims e r (Memᴰ.head same) = (f, text, Memᴰ.head refl, rw same e)
  stored_more f text fields c c' claims e r (Memᴰ.tail m) =
      let (f', text', at, e') = r.stored c' m in (f', text', Memᴰ.tail at, e')

  one_more :
      (f text : String) (fields : List (String × String)) (c : Claim) (claims : List Claim)
      → s.claim.from_str text ≡ some c
      → AreRead fields claims
      → AreRead ((f, text) ∷ fields) (c ∷ claims)
  unfolding parse_claims
  one_more f text fields c claims e r = record {
    runs = rw e (rw r.runs refl);
    reads = λ f' text' c'. read_more f text f' text' fields c c' claims e r;
    stored = λ c'. stored_more f text fields c c' claims e r;
  }

  all_read :
      (fields : List (String × String))
      → ((f text : String) → Memᴰ (f, text) fields → is_some (s.claim.from_str text) ≡ true)
      → (claims : List Claim) × AreRead fields claims
  all_read [] readable = ([], no_field-AreRead)
  all_read ((f, text) ∷ fields) readable =
      let (claims, r) = all_read fields (λ f' text' m. readable f' text' (Memᴰ.tail m)) in
      elim (Option-cases (s.claim.from_str text)) [
        | inl e ↦ cc (e, readable f text (Memᴰ.head refl))
        | inr (c, e) ↦ (c ∷ claims, one_more f text fields c claims e r)
      ]

  module _ (now : ℕ) (d : s.redis.Db)
      (readable : (f text : String)
        → get_claim s q f d ≡ some text
        → is_some (s.claim.from_str text) ≡ true) where
    pub round_reads : (claims : List Claim) × AreRead (s.redis.hgetall q.claims_key d) claims
    round_reads =
        all_read (s.redis.hgetall q.claims_key d)
          (λ f text m. readable f text ((s.redis.hgetall-view q.claims_key f text d).0 m))

    pub reclaim_round_runs : reclaim_round s q now d ≡ reinsert_expired s q now (round_reads.0) d
    unfolding reclaim_round
    reclaim_round_runs = rw (round_reads.1).runs

    -- On a queue with distinct keys, if every stored claim can be read, then after a round of the
    -- checker the job that a stored claim names, if the claim had expired, is unclaimed, is pending
    -- in the partition that the claim names, and has its description still.
    pub reclaim_round_requeues :
        (c : Claim) (f text : String)
        → HasDistinctKeys q
        → get_claim s q f d ≡ some text
        → s.claim.from_str text ≡ some c
        → is_expired q.reclaim_timeout now c ≡ true
        → (get_claim s q c.job_id (reclaim_round s q now d) ≡ none)
          × (is_member c.job_id
                (zset_at s q (pending_key q.pending c.partition) (reclaim_round s q now d))
              ≡ true)
          × (get_str s q (get_job_key q c.job_id) (reclaim_round s q now d)
              ≡ get_str s q (get_job_key q c.job_id) d)
    reclaim_round_requeues c f text k g e x =
        let m =
          (round_reads.1).reads f text c ((s.redis.hgetall-view q.claims_key f text d).1 g) e in
        rw reclaim_round_runs (
          (requeues now (round_reads.0) c d m x).0,
          (requeues now (round_reads.0) c d m x).1,
          keeps_descriptions now (round_reads.0) c.job_id d k,
        )

    -- If every stored claim can be read, a round of the checker leaves the claim of a job as it
    -- is, if no stored claim that names that job has expired.
    pub reclaim_round_spares :
        (j : JobId)
        → ((f text : String) (c : Claim)
            → get_claim s q f d ≡ some text
            → s.claim.from_str text ≡ some c
            → c.job_id ≡ j
            → is_expired q.reclaim_timeout now c ≡ false)
        → get_claim s q j (reclaim_round s q now d) ≡ get_claim s q j d
    reclaim_round_spares j current = rw reclaim_round_runs (
        spares now (round_reads.0) j d (
          All-of_mem (round_reads.0) (λ c m.
            let (f, text, at, e) = (round_reads.1).stored c m in
            current f text c ((s.redis.hgetall-view q.claims_key f text d).0 at) e)))
