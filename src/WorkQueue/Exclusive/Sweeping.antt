-- ===== src/WorkQueue/Exclusive/Sweeping.antt =====
-- A round of the reclaim checker.
use mathlib.Core.List.{Memᴰ}
use archipelago_xl.Base.{
  ℕ, String, Bool, true, false, ◌≡◌, refl, ◌⊎◌, inl, inr, Option, some, is_some, List, [], ◌∷◌, ap,
  sym, ◌∙◌, some-injective, if◌then◌else◌,
}
use archipelago_xl.WorkQueue.Status.{priority_score}
use archipelago_xl.WorkQueue.Keys.{WorkQueue, JobId, pending_key}
use archipelago_xl.WorkQueue.Store.{Claim, Services}
use archipelago_xl.WorkQueue.Jobs.{get_claim}
use archipelago_xl.WorkQueue.Sweep.{is_expired, reinsert, reinsert_expired, reclaim_round}
use archipelago_xl.WorkQueue.Sweep.Requeue.{
  round_reads, reclaim_round_runs, reinserted-claim, reinserted-zset,
}
use archipelago_xl.WorkQueue.Exclusive.{is_pending, IsExclusive}
use archipelago_xl.WorkQueue.Exclusive.Placing.{Places, placed_back, Places-IsExclusive}

module _ {P R : Type 0} (s : Services P R) (q : WorkQueue) where
  abbrev home_of : Claim → String
  home_of c = pending_key q.pending c.partition

  -- the claim's job is pending at most where the claim will put it
  abbrev IsReady : s.redis.Db → Claim → Type 0
  IsReady d c =
      (r : Option String) → is_pending s q c.job_id r d ≡ true → pending_key q.pending r ≡ home_of c

  abbrev Agree : List Claim → Type 0
  Agree claims =
      (c c' : Claim)
      → Memᴰ c claims
      → Memᴰ c' claims
      → c.job_id ≡ c'.job_id
      → home_of c ≡ home_of c'

  reinsert-Places :
      (c : Claim) (d : s.redis.Db)
      → Places s q c.job_id c.partition (priority_score c.priority) d (reinsert s q c d)
  reinsert-Places c d = record { sets = reinserted-zset s q c d; claims = reinserted-claim s q c d }

  ready_after :
      (c c' : Claim) (d : s.redis.Db) (r : Option String)
      → (c.job_id ≡ c'.job_id → home_of c ≡ home_of c')
      → IsReady d c'
      → ((c.job_id ≡ c'.job_id) × (pending_key q.pending r ≡ home_of c))
        ⊎ (is_pending s q c'.job_id r d ≡ true)
      → pending_key q.pending r ≡ home_of c'
  ready_after c c' d r agree ready (inl (same, k)) = k ∙ agree same
  ready_after c c' d r agree ready (inr was) = ready r was

  module _ (now : ℕ) where
    swept-IsExclusive :
        (b : Bool) (c : Claim) (d : s.redis.Db)
        → IsExclusive s q d
        → IsReady d c
        → IsExclusive s q (if b then reinsert s q c d else d)
    swept-IsExclusive true c d x ready =
        Places-IsExclusive s q c.job_id c.partition (priority_score c.priority)
          (reinsert-Places c d) x ready
    swept-IsExclusive false c d x ready = x

    swept-IsReady :
        (b : Bool) (c c' : Claim) (d : s.redis.Db)
        → (c.job_id ≡ c'.job_id → home_of c ≡ home_of c')
        → IsReady d c'
        → IsReady (if b then reinsert s q c d else d) c'
    swept-IsReady true c c' d agree ready r h = ready_after c c' d r agree ready (
        placed_back s q c.job_id c.partition (priority_score c.priority) (reinsert-Places c d)
          c'.job_id r h)
    swept-IsReady false c c' d agree ready r h = ready r h

    reinsert_expired-IsExclusive :
        (claims : List Claim) (d : s.redis.Db)
        → IsExclusive s q d
        → ((c : Claim) → Memᴰ c claims → IsReady d c)
        → Agree claims
        → IsExclusive s q (reinsert_expired s q now claims d)
    unfolding reinsert_expired
    reinsert_expired-IsExclusive [] d x ready agree = x
    reinsert_expired-IsExclusive (c ∷ claims) d x ready agree =
        let b = is_expired q.reclaim_timeout now c in
        reinsert_expired-IsExclusive claims (if b then reinsert s q c d else d)
          (swept-IsExclusive b c d x (ready c (Memᴰ.head refl)))
          (λ c' m.
            swept-IsReady b c c' d (agree c c' (Memᴰ.head refl) (Memᴰ.tail m))
              (ready c' (Memᴰ.tail m)))
          (λ c1 c2 m1 m2. agree c1 c2 (Memᴰ.tail m1) (Memᴰ.tail m2))

  module _ (d : s.redis.Db) (x : IsExclusive s q d) where
    all_readable :
        (f text : String) → get_claim s q f d ≡ some text → is_some (s.claim.from_str text) ≡ true
    all_readable f text h = let (c, e, same) = x.named f text h in ap (is_some {0}) e

    module _ (now : ℕ) where
      abbrev claims : List Claim
      claims = (round_reads s q now d all_readable).0

      -- a claim that is read is the one that its job's field holds
      read_claim :
          (c : Claim)
          → Memᴰ c claims
          → (text : String) × (get_claim s q c.job_id d ≡ some text)
            × (s.claim.from_str text ≡ some c)
      read_claim c m =
          let (f, text, at, e) = (round_reads s q now d all_readable).1.stored c m in
          let g = (s.redis.hgetall-view q.claims_key f text d).0 at in
          let (c', e', same) = x.named f text g in
          let held : c.job_id ≡ f =
            ap (λ (k : Claim). k.job_id) (some-injective _ _ (sym e ∙ e')) ∙ same in
          (text, ap (λ (j : JobId). get_claim s q j d) held ∙ g, e)

      claims-IsReady : (c : Claim) → Memᴰ c claims → IsReady d c
      claims-IsReady c m r h = let (text, g, e) = read_claim c m in cc (g, x.apart c.job_id r h)

      claims-Agree : Agree claims
      claims-Agree c c' m m' same =
          let (text, g, e) = read_claim c m in
          let (text', g', e') = read_claim c' m' in
          let one_text : text ≡ text' =
            some-injective _ _ (sym g ∙ ap (λ (j : JobId). get_claim s q j d) same ∙ g') in
          ap home_of (some-injective _ _ (sym e ∙ ap s.claim.from_str one_text ∙ e'))

      pub reclaim_round-IsExclusive : IsExclusive s q (reclaim_round s q now d)
      reclaim_round-IsExclusive =
          rw (reclaim_round_runs s q now d all_readable)
            (reinsert_expired-IsExclusive now claims d x claims-IsReady claims-Agree)
