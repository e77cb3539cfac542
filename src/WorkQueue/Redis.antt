-- ===== src/WorkQueue/Redis.antt =====
-- The Redis server, which the queue only calls: an interface with the documented effect of each
-- command that the queue sends. `Keyspace` says what the server holds; a server is any state type
-- with a view of it, whose commands act on the view as documented. The keys of the queue are each
-- used at one type, so the server's WRONGTYPE error is not modelled, and neither are I/O failures.
pub mod Memory
use mathlib.Core.List.{Memᴰ}
use archipelago_xl.Base.{
  ℕ, suc, String, ◌≡◌, ◌↔◌, Bool, true, ◌&&◌, ◌||◌, Option, none, some, List, [], ◌∷◌, ◌++◌, str_eq,
  is_some, if◌then◌else◌,
}
use archipelago_xl.Base.Int.{ℤ, ltb_ℤ, leb_ℤ}

abbrev pub update {ℓ} : {A : Type ℓ} → (String → A) → String → A → String → A
update f k v j = if str_eq k j then v else f j

pub record Keyspace : Type 0 where
  pub str : String → Option String
  pub counter : String → ℕ
  pub hash : String → String → Option String
  pub zset : String → List (String × ℤ)
  pub members : String → String → Bool
  pub published : List (String × String)

-- The members of a sorted set stand in the order in which ZPOPMIN takes them: by score, and
-- `tie` orders the members of one score.
abbrev pub remove_member : String → List (String × ℤ) → List (String × ℤ)
remove_member m [] = []
remove_member m ((n, s) ∷ z) =
    let rest = remove_member m z in if str_eq n m then rest else (n, s) ∷ rest

abbrev pub insert_member :
    (String → String → Bool) → String → ℤ → List (String × ℤ) → List (String × ℤ)
insert_member tie m s [] = (m, s) ∷ []
insert_member tie m s ((n, t) ∷ z) =
    let rest = insert_member tie m s z in
    if ltb_ℤ s t || leb_ℤ s t && tie m n then (m, s) ∷ (n, t) ∷ z else (n, t) ∷ rest

abbrev pub pop_rest : List (String × ℤ) → List (String × ℤ)
pop_rest [] = []
pop_rest (_ ∷ z) = z

abbrev pub pop_first : List (String × ℤ) → Option (String × ℤ)
pop_first [] = none
pop_first (e ∷ _) = some e

abbrev pub count_between : ℤ → ℤ → List (String × ℤ) → ℕ
count_between lo hi [] = 0
count_between lo hi ((_, s) ∷ z) =
    let rest = count_between lo hi z in if leb_ℤ lo s && leb_ℤ s hi then suc rest else rest

pub record Redis : Type 1 where
  pub Db : Type 0
  pub view : Db → Keyspace
  pub tie : String → String → Bool
  pub set : String → String → Db → Db
  pub set-view :
      (k v : String) (d : Db)
      → view (set k v d) ≡ record (view d) { str = update (view d).str k (some v) }
  -- DEL of a key that holds a string
  pub del : String → Db → Db
  pub del-view :
      (k : String) (d : Db) → view (del k d) ≡ record (view d) { str = update (view d).str k none }
  pub incr : String → Db → Db
  pub incr-view :
      (k : String) (d : Db)
      → view (incr k d)
        ≡ record (view d) { counter = update (view d).counter k (suc ((view d).counter k)) }
  pub hset : String → String → String → Db → Db
  pub hset-view :
      (k f v : String) (d : Db)
      → view (hset k f v d)
        ≡ record (view d) { hash = update (view d).hash k (update ((view d).hash k) f (some v)) }
  pub hdel : String → String → Db → Db
  pub hdel-view :
      (k f : String) (d : Db)
      → view (hdel k f d)
        ≡ record (view d) { hash = update (view d).hash k (update ((view d).hash k) f none) }
  pub hgetall : String → Db → List (String × String)
  pub hgetall-view :
      (k f v : String) (d : Db) → Memᴰ (f, v) (hgetall k d) ↔ ((view d).hash k f ≡ some v)
  pub hlen : String → Db → ℕ
  pub zadd : String → String → ℤ → Db → Db
  pub zadd-view :
      (k m : String) (s : ℤ) (d : Db)
      → view (zadd k m s d) ≡ record (view d) {
        zset = update (view d).zset k (insert_member tie m s (remove_member m ((view d).zset k)));
      }
  pub zrem : String → String → Db → Db
  pub zrem-view :
      (k m : String) (d : Db)
      → view (zrem k m d)
        ≡ record (view d) { zset = update (view d).zset k (remove_member m ((view d).zset k)) }
  -- what ZPOPMIN leaves; what it returns is the first of the view
  pub zpopmin : String → Db → Db
  pub zpopmin-view :
      (k : String) (d : Db)
      → view (zpopmin k d)
        ≡ record (view d) { zset = update (view d).zset k (pop_rest ((view d).zset k)) }
  pub sadd : String → String → Db → Db
  pub sadd-view :
      (k m : String) (d : Db)
      → view (sadd k m d) ≡ record (view d) {
        members = update (view d).members k (update ((view d).members k) m true);
      }
  pub smembers : String → Db → List String
  pub smembers-view :
      (k m : String) (d : Db) → Memᴰ m (smembers k d) ↔ ((view d).members k m ≡ true)
  pub publish : String → String → Db → Db
  pub publish-view :
      (c m : String) (d : Db)
      → view (publish c m d) ≡ record (view d) { published = (view d).published ++ (c, m) ∷ [] }
