-- ===== src/WorkQueue/Keys/Partitions.antt =====
-- Partition names: what is accepted, and that two names share a pending set only if they are one.
use archipelago_xl.Base.{String, ◌≡◌, ◌≢◌, ap, ◌↔◌, ◌⊎◌, Option, none, some, arith, eq_iff, true}
use archipelago_xl.WorkQueue.Keys.{
  PendingKeys, valid, validate_partition, names_default, normalize, pending_key, WorkQueue,
}
use archipelago_xl.WorkQueue.Keys.Distinct.{HasDistinctKeys}

names_default_iff : (o : Option String) (p : String) → (names_default o p ≡ true) ↔ (o ≡ some p)
names_default_iff none p = ground arith
names_default_iff (some d) p = ground (arith, eq_iff d p)

-- An accepted name is valid, and is stored as it is unless it names the default partition.
pub normalize_cases :
    (keys : PendingKeys) (p : String) (r : Option String)
    → normalize keys (some p) ≡ valid r
    → (validate_partition p ≡ none)
      × (((r ≡ none) × (keys.default_partition ≡ some p))
          ⊎ ((r ≡ some p) × (keys.default_partition ≢ some p)))
unfolding normalize
normalize_cases keys p r e = ground (arith, names_default_iff keys.default_partition p)

pub normalize_inj :
    (keys : PendingKeys) (p p' : String) (r : Option String)
    → normalize keys (some p) ≡ valid r
    → normalize keys (some p') ≡ valid r
    → p ≡ p'
normalize_inj keys p p' r e e' =
    ground (arith, normalize_cases keys p r e, normalize_cases keys p' r e')

normalize_same :
    (keys : PendingKeys) (p p' : String) (r r' : Option String)
    → p ≡ p'
    → normalize keys (some p) ≡ valid r
    → normalize keys (some p') ≡ valid r'
    → r ≡ r'
normalize_same keys p p' r r' same e e' = cc

-- On a queue with distinct keys, two accepted names share a pending set exactly if they are one
-- name, and a name shares the set of the unnamed partition exactly if it is the default's name.
pub shared_pending_iff :
    (q : WorkQueue) (p p' : String) (r r' : Option String)
    → HasDistinctKeys q
    → normalize q.pending (some p) ≡ valid r
    → normalize q.pending (some p') ≡ valid r'
    → ((pending_key q.pending r ≡ pending_key q.pending r') ↔ (p ≡ p'))
      × ((pending_key q.pending r ≡ pending_key q.pending none)
          ↔ (q.pending.default_partition ≡ some p))
shared_pending_iff q p p' r r' k e e' = (
  (
    λ same. normalize_inj q.pending p p' r e (rw (k.pending_inj r r' same) e'),
    λ same. ap (pending_key q.pending) (normalize_same q.pending p p' r r' same e e'),
  ),
  (
    λ same. ground (arith, normalize_cases q.pending p r e, k.pending_inj r none same),
    λ default. ground (arith, normalize_cases q.pending p r e),
  ),
)
