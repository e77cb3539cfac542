-- ===== src/WorkQueue/Exclusive/Shrinking.antt =====
-- The operations that only take away: cancelling, deleting, and what a claim pops.
use archipelago_xl.Base.{
  String, true, false, ◌≡◌, refl, ◌⊎◌, inl, inr, Option, none, some, List, [], ◌∷◌, arith, ap, sym,
  subst, ◌∙◌, eq_iff, str_eq, Bool-cases, if◌then◌else◌,
}
use archipelago_xl.Base.Int.{ℤ}
use archipelago_xl.WorkQueue.Redis.{Keyspace, remove_member, pop_rest}
use archipelago_xl.WorkQueue.Keys.{WorkQueue, JobId}
use archipelago_xl.WorkQueue.Store.{Services}
use archipelago_xl.WorkQueue.Jobs.{cancel_job, delete_job_result, get_claim}
use archipelago_xl.WorkQueue.Jobs.Cancelling.{
  is_member, cancelled-zset, cancelled-claim, cancel_key,
}
use archipelago_xl.WorkQueue.Claiming.Taking.{zset_at}
use archipelago_xl.WorkQueue.Claiming.Outcomes.{is_member-remove_member, is_member-pop_rest}
use archipelago_xl.WorkQueue.Exclusive.{has_distinct_members, IsExclusive}

not_member-remove_member :
    (m n : String) (z : List (String × ℤ))
    → is_member m z ≡ false
    → is_member m (remove_member n z) ≡ false
not_member-remove_member m n z h = elim (Bool-cases (is_member m (remove_member n z))) [
  | inl e ↦ cc (h, is_member-remove_member m n z e)
  | inr e ↦ e
]

pub distinct-remove_member :
    (m : String) (z : List (String × ℤ))
    → has_distinct_members z ≡ true
    → has_distinct_members (remove_member m z) ≡ true
distinct-remove_member m [] h = refl
distinct-remove_member m ((n, s) ∷ z) h =
    ground (arith, distinct-remove_member m z, not_member-remove_member n m z)

distinct-pop_rest :
    (z : List (String × ℤ))
    → has_distinct_members z ≡ true
    → has_distinct_members (pop_rest z) ≡ true
distinct-pop_rest [] h = refl
distinct-pop_rest ((n, s) ∷ z) h = ground arith

module _ {P R : Type 0} (s : Services P R) (q : WorkQueue) where
  -- nothing is pending, and nothing claimed, that was not before
  pub record Shrinks (d d' : s.redis.Db) : Type 0 where
    pub pending :
        (m key : String)
        → is_member m (zset_at s q key d') ≡ true
        → is_member m (zset_at s q key d) ≡ true
    pub distinct :
        (key : String)
        → has_distinct_members (zset_at s q key d) ≡ true
        → has_distinct_members (zset_at s q key d') ≡ true
    pub claims :
        (j : JobId) → (get_claim s q j d' ≡ none) ⊎ (get_claim s q j d' ≡ get_claim s q j d)

  pub same-Shrinks : (d : s.redis.Db) → Shrinks d d
  same-Shrinks d = record { pending = λ m key h. h; distinct = λ key h. h; claims = λ j. inr refl }

  claims_twice :
      (j : JobId) (d d' d'' : s.redis.Db)
      → (get_claim s q j d' ≡ none) ⊎ (get_claim s q j d' ≡ get_claim s q j d)
      → (get_claim s q j d'' ≡ none) ⊎ (get_claim s q j d'' ≡ get_claim s q j d')
      → (get_claim s q j d'' ≡ none) ⊎ (get_claim s q j d'' ≡ get_claim s q j d)
  claims_twice j d d' d'' a (inl e) = inl e
  claims_twice j d d' d'' (inl a) (inr e) = inl (e ∙ a)
  claims_twice j d d' d'' (inr a) (inr e) = inr (e ∙ a)

  pub Shrinks-twice : {d d' d'' : s.redis.Db} → Shrinks d d' → Shrinks d' d'' → Shrinks d d''
  Shrinks-twice {d} {d'} {d''} a b = record {
    pending = λ m key h. a.pending m key (b.pending m key h);
    distinct = λ key h. b.distinct key (a.distinct key h);
    claims = λ j. claims_twice j d d' d'' (a.claims j) (b.claims j);
  }

  still_apart :
      (j : JobId) (d d' : s.redis.Db)
      → (get_claim s q j d' ≡ none) ⊎ (get_claim s q j d' ≡ get_claim s q j d)
      → get_claim s q j d ≡ none
      → get_claim s q j d' ≡ none
  still_apart j d d' (inl e) h = e
  still_apart j d d' (inr e) h = e ∙ h

  was_claimed :
      (j : JobId) (d d' : s.redis.Db) (text : String)
      → (get_claim s q j d' ≡ none) ⊎ (get_claim s q j d' ≡ get_claim s q j d)
      → get_claim s q j d' ≡ some text
      → get_claim s q j d ≡ some text
  was_claimed j d d' text (inl e) h = cc
  was_claimed j d d' text (inr e) h = sym e ∙ h

  pub Shrinks-IsExclusive :
      {d d' : s.redis.Db} → Shrinks d d' → IsExclusive s q d → IsExclusive s q d'
  Shrinks-IsExclusive {d} {d'} a x = record {
    apart = λ id r h. still_apart id d d' (a.claims id) (x.apart id r (a.pending id _ h));
    one_place = λ id r r' h h'. x.one_place id r r' (a.pending id _ h) (a.pending id _ h');
    once = λ r. a.distinct _ (x.once r);
    named = λ id text h. x.named id text (was_claimed id d d' text (a.claims id) h);
  }

  pub cancel_job-Shrinks : (id : JobId) (d : s.redis.Db) → Shrinks d (cancel_job s q id d).1
  cancel_job-Shrinks id d = record {
    pending = λ m key h. ground (
      arith,
      cancelled-zset s q id d key,
      eq_iff (cancel_key s q id d) key,
      is_member-remove_member m id (zset_at s q key d),
    );
    distinct = λ key h. ground (
      arith,
      cancelled-zset s q id d key,
      eq_iff (cancel_key s q id d) key,
      distinct-remove_member id (zset_at s q key d),
    );
    claims = λ j. elim (Bool-cases (str_eq id j)) [
      | inl e ↦ inl (cancelled-claim s q id d j ∙ rw e refl)
      | inr e ↦ inr (cancelled-claim s q id d j ∙ rw e refl)
    ];
  }

  pub popped-other :
      (key other : String) (d : s.redis.Db)
      → zset_at s q other (s.redis.zpopmin key d)
        ≡ (if str_eq key other then pop_rest (zset_at s q key d) else zset_at s q other d)
  popped-other key other d = ap (λ (v : Keyspace). v.zset other) (s.redis.zpopmin-view key d)

  pub popped-claim :
      (key : String) (j : JobId) (d : s.redis.Db)
      → get_claim s q j (s.redis.zpopmin key d) ≡ get_claim s q j d
  popped-claim key j d = ap (λ (v : Keyspace). v.hash q.claims_key j) (s.redis.zpopmin-view key d)

  pub popped-Shrinks : (key : String) (d : s.redis.Db) → Shrinks d (s.redis.zpopmin key d)
  popped-Shrinks key d = record {
    pending = λ m other h. ground (
      arith,
      popped-other key other d,
      eq_iff key other,
      is_member-pop_rest m (zset_at s q other d),
    );
    distinct = λ other h. ground (
      arith,
      popped-other key other d,
      eq_iff key other,
      distinct-pop_rest (zset_at s q other d),
    );
    claims = λ j. inr (popped-claim key j d);
  }

  -- texts, counters and messages are no jobs
  pub texts-Shrinks :
      (d d' : s.redis.Db)
      → (s.redis.view d').zset ≡ (s.redis.view d).zset
      → (s.redis.view d').hash ≡ (s.redis.view d).hash
      → Shrinks d d'
  texts-Shrinks d d' z h = record {
    pending = λ m key. subst (λ (f : String → List (String × ℤ)). is_member m (f key) ≡ true) z;
    distinct = λ key.
        subst (λ (f : String → List (String × ℤ)). has_distinct_members (f key) ≡ true) (sym z);
    claims = λ j. inr (ap (λ (f : String → String → Option String). f q.claims_key j) h);
  }

  pub delete_job_result-Shrinks :
      (id : JobId) (d : s.redis.Db) → Shrinks d (delete_job_result s q id d).1
  unfolding delete_job_result
  delete_job_result-Shrinks id d = texts-Shrinks d _ (simp s.redis.del-view) (simp s.redis.del-view)
