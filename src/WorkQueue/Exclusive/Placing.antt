-- ===== src/WorkQueue/Exclusive/Placing.antt =====
-- The operations that put a job in the pending set of a partition.
use archipelago_xl.Base.{
  String, Bool, true, false, ◌≡◌, refl, ◌⊎◌, inl, inr, Option, none, some, List, [], ◌∷◌, arith,
  sym, subst, ◌∙◌, eq_iff, str_eq, Bool-cases, if◌then◌else◌,
}
use archipelago_xl.Base.Int.{ℤ}
use archipelago_xl.WorkQueue.Redis.{insert_member, remove_member}
use archipelago_xl.WorkQueue.Keys.{WorkQueue, JobId, pending_key}
use archipelago_xl.WorkQueue.Store.{Claim, Services}
use archipelago_xl.WorkQueue.Jobs.{get_claim}
use archipelago_xl.WorkQueue.Jobs.Cancelling.{is_member, remove_member-gone}
use archipelago_xl.WorkQueue.Claiming.Taking.{zset_at}
use archipelago_xl.WorkQueue.Sweep.Requeue.{is_member-requeue, is_member-insert_member}
use archipelago_xl.WorkQueue.Exclusive.{has_distinct_members, is_pending, IsExclusive}
use archipelago_xl.WorkQueue.Exclusive.Shrinking.{distinct-remove_member}

distinct-insert_member :
    (tie : String → String → Bool) (m : String) (s : ℤ) (z : List (String × ℤ))
    → is_member m z ≡ false
    → has_distinct_members z ≡ true
    → has_distinct_members (insert_member tie m s z) ≡ true
distinct-insert_member tie m s [] out h = refl
distinct-insert_member tie m s ((n, t) ∷ z) out h = ground (
  arith,
  distinct-insert_member tie m s z,
  is_member-insert_member tie n m s z,
  eq_iff m n,
  eq_iff n m,
)

distinct-requeue :
    (tie : String → String → Bool) (m : String) (s : ℤ) (z : List (String × ℤ))
    → has_distinct_members z ≡ true
    → has_distinct_members (insert_member tie m s (remove_member m z)) ≡ true
distinct-requeue tie m s z h =
    distinct-insert_member tie m s (remove_member m z) (remove_member-gone m z)
      (distinct-remove_member m z h)

module _ {P R : Type 0} (s : Services P R) (q : WorkQueue) where
  -- `id` is put in the set of `partition`, and is no longer claimed
  pub record Places (id : JobId) (partition : Option String) (score : ℤ) (d d' : s.redis.Db)
      : Type 0 where
    pub sets :
        (key : String)
        → zset_at s q key d' ≡ (
            if str_eq (pending_key q.pending partition) key
            then insert_member s.redis.tie id score
                (remove_member id (zset_at s q (pending_key q.pending partition) d))
            else zset_at s q key d)
    pub claims :
        (j : JobId) → get_claim s q j d' ≡ (if str_eq id j then none else get_claim s q j d)

  module _ (id : JobId) (partition : Option String) (score : ℤ) {d d' : s.redis.Db}
      (p : Places id partition score d d') where
    abbrev home : String
    home = pending_key q.pending partition

    -- what is pending now, was or is the job
    pub placed_back :
        (j : JobId) (r : Option String)
        → is_pending s q j r d' ≡ true
        → ((id ≡ j) × (pending_key q.pending r ≡ home)) ⊎ (is_pending s q j r d ≡ true)
    placed_back j r h = elim (Bool-cases (str_eq home (pending_key q.pending r))) [
      | inl e ↦ elim (Bool-cases (str_eq id j)) [
        | inl same ↦ inl ((eq_iff id j).0 same, sym ((eq_iff home (pending_key q.pending r)).0 e))
        | inr other ↦ inr (
            ground (
              arith,
              p.sets (pending_key q.pending r),
              eq_iff home (pending_key q.pending r),
              is_member-requeue s.redis.tie j id score (zset_at s q home d),
            ))
      ]
      | inr e ↦ inr (ground (arith, p.sets (pending_key q.pending r)))
    ]

    module _ (x : IsExclusive s q d)
        (alone : (r : Option String)
          → is_pending s q id r d ≡ true
          → pending_key q.pending r ≡ home) where
      place_of :
          (r : Option String) → is_pending s q id r d' ≡ true → pending_key q.pending r ≡ home
      place_of r h = elim (placed_back id r h) [ inl (e, k) ↦ k | inr was ↦ alone r was ]

      still_apart :
          (j : JobId) (r : Option String)
          → ((id ≡ j) × (pending_key q.pending r ≡ home)) ⊎ (is_pending s q j r d ≡ true)
          → get_claim s q j d' ≡ none
      still_apart j r (inl (e, k)) = ground (arith, p.claims j, eq_iff id j)
      still_apart j r (inr was) = ground (arith, p.claims j, x.apart j r was)

      place_at :
          (j : JobId) (r : Option String)
          → id ≡ j
          → is_pending s q j r d' ≡ true
          → pending_key q.pending r ≡ home
      place_at j r same h =
          place_of r (subst (λ (i : JobId). is_pending s q i r d' ≡ true) (sym same) h)

      was_pending :
          (j : JobId) (r : Option String)
          → str_eq id j ≡ false
          → is_pending s q j r d' ≡ true
          → is_pending s q j r d ≡ true
      was_pending j r other h = elim (placed_back j r h) [
        | inl (same, k) ↦ ground (arith, eq_iff id j)
        | inr was ↦ was
      ]

      still_one_place :
          (j : JobId) (r r' : Option String)
          → is_pending s q j r d' ≡ true
          → is_pending s q j r' d' ≡ true
          → pending_key q.pending r ≡ pending_key q.pending r'
      still_one_place j r r' h h' = elim (Bool-cases (str_eq id j)) [
        | inl e ↦ place_at j r ((eq_iff id j).0 e) h ∙ sym (place_at j r' ((eq_iff id j).0 e) h')
        | inr e ↦ x.one_place j r r' (was_pending j r e h) (was_pending j r' e h')
      ]

      was_named :
          (j : JobId) (text : String)
          → get_claim s q j d' ≡ some text
          → (c : Claim) × (s.claim.from_str text ≡ some c) × (c.job_id ≡ j)
      was_named j text h = x.named j text (ground (arith, p.claims j))

      still_once :
          (r : Option String)
          → has_distinct_members (zset_at s q (pending_key q.pending r) d') ≡ true
      still_once r = ground (
        arith,
        p.sets (pending_key q.pending r),
        x.once r,
        distinct-requeue s.redis.tie id score (zset_at s q home d),
        x.once partition,
      )

      pub Places-IsExclusive : IsExclusive s q d'
      Places-IsExclusive = record {
        apart = λ j r h. still_apart j r (placed_back j r h);
        one_place = still_one_place;
        once = still_once;
        named = was_named;
      }
