-- ===== src/WorkQueue/Redis/Memory.antt =====
-- The least server: hashes and sets are lists, and every command does what is documented.
use mathlib.Core.List.{Memᴰ}
use archipelago_xl.Base.{
  ℕ, suc, String, ◌≡◌, ◌↔◌, refl, ap, ◌∙◌, sym, Bool, true, false, ◌||◌, Option, none, some, List,
  [], ◌∷◌, ◌++◌, arith, str_eq, eq_refl, eq_iff, if◌then◌else◌, fun_ext, inl, inr, Bool-cases,
  length,
}
use archipelago_xl.Base.Int.{ℤ}
use archipelago_xl.WorkQueue.Redis.{update, Keyspace, insert_member, remove_member, pop_rest, Redis}

pub record Memory : Type 0 where
  pub str : String → Option String
  pub counter : String → ℕ
  pub hashes : String → List (String × String)
  pub zset : String → List (String × ℤ)
  pub sets : String → List String
  pub published : List (String × String)

abbrev pub lookup : String → List (String × String) → Option String
lookup f [] = none
lookup f ((g, v) ∷ l) = let rest = lookup f l in if str_eq g f then some v else rest

abbrev has_field : String → List (String × String) → Bool
has_field f [] = false
has_field f ((g, v) ∷ l) = str_eq g f || has_field f l

abbrev pub remove_field : String → List (String × String) → List (String × String)
remove_field f [] = []
remove_field f ((g, v) ∷ l) =
    let rest = remove_field f l in if str_eq g f then rest else (g, v) ∷ rest

-- each field that is there, with its first value
abbrev pub fields : List (String × String) → List (String × String)
fields [] = []
fields ((g, v) ∷ l) = (g, v) ∷ remove_field g (fields l)

abbrev pub contains : String → List String → Bool
contains m [] = false
contains m (n ∷ l) = str_eq n m || contains m l

abbrev pub view : Memory → Keyspace
view d = record {
  str = d.str;
  counter = d.counter;
  hash = λ k f. lookup f (d.hashes k);
  zset = d.zset;
  members = λ k m. contains m (d.sets k);
  published = d.published;
}

lookup-remove_field :
    (g f : String) (l : List (String × String))
    → lookup g (remove_field f l) ≡ (if str_eq f g then none else lookup g l)
lookup-remove_field g f [] = ground arith
lookup-remove_field g f ((h, v) ∷ l) =
    ground (arith, lookup-remove_field g f l, eq_iff h f, eq_iff h g, eq_iff f g)

pub hset-view :
    (k f v : String) (d : Memory)
    → view (record d { hashes = update d.hashes k ((f, v) ∷ d.hashes k) })
      ≡ record (view d) { hash = update (view d).hash k (update ((view d).hash k) f (some v)) }
hset-view k f v d =
    ap (λ (h : String → String → Option String). record (view d) { hash = h })
      (fun_ext (λ j. fun_ext (λ g. ground arith)))

pub hdel-view :
    (k f : String) (d : Memory)
    → view (record d { hashes = update d.hashes k (remove_field f (d.hashes k)) })
      ≡ record (view d) { hash = update (view d).hash k (update ((view d).hash k) f none) }
hdel-view k f d =
    ap (λ (h : String → String → Option String). record (view d) { hash = h })
      (fun_ext (λ j. fun_ext (λ g. ground (arith, lookup-remove_field g f (d.hashes k)))))

abbrev pub add_member : String → List String → List String
add_member m l = if contains m l then l else m ∷ l

contains-add_member :
    (m n : String) (l : List String)
    → contains n (add_member m l) ≡ (if str_eq m n then true else contains n l)
contains-add_member m n l = elim (Bool-cases (str_eq m n)) [
  | inl e ↦ rw ((eq_iff m n).0 e) (rw (eq_refl n) (ground (arith, eq_refl n)))
  | inr e ↦ ground arith
]

pub sadd-view :
    (k m : String) (d : Memory)
    → view (record d { sets = update d.sets k (add_member m (d.sets k)) })
      ≡ record (view d) { members = update (view d).members k (update ((view d).members k) m true) }
sadd-view k m d =
    ap (λ (h : String → String → Bool). record (view d) { members = h })
      (fun_ext (λ j. fun_ext (λ g. ground (arith, contains-add_member m g (d.sets k)))))

lookup-fields : (f : String) (l : List (String × String)) → lookup f (fields l) ≡ lookup f l
lookup-fields f [] = refl
lookup-fields f ((g, v) ∷ l) = ground (arith, lookup-remove_field f g (fields l), lookup-fields f l)

mem-lookup : (f v : String) (l : List (String × String)) → lookup f l ≡ some v → Memᴰ (f, v) l
mem-lookup f v [] h = ground arith
mem-lookup f v ((g, w) ∷ l) h = elim (Bool-cases (str_eq g f)) [
  | inl e ↦ Memᴰ.head (ground (arith, eq_iff g f))
  | inr e ↦ Memᴰ.tail (mem-lookup f v l (rw e at h))
]

kept_field :
    (f v g h w : String) (l : List (String × String))
    → str_eq h g ≡ false
    → Memᴰ (f, v) ((h, w) ∷ remove_field g l)
    → (Memᴰ (f, v) (remove_field g l) → (str_eq g f ≡ false) × Memᴰ (f, v) l)
    → (str_eq g f ≡ false) × Memᴰ (f, v) ((h, w) ∷ l)
kept_field f v g h w l other (Memᴰ.head e) rest =
    (ground (arith, eq_iff g f, eq_iff h g), Memᴰ.head e)
kept_field f v g h w l other (Memᴰ.tail m) rest = let (apart, at) = rest m in (apart, Memᴰ.tail at)

contained : (m : String) (l : List String) → Memᴰ m l → contains m l ≡ true
contained m [] i = elim i [ ]
contained m (n ∷ l) (Memᴰ.head e) = ground (arith, eq_iff n m)
contained m (n ∷ l) (Memᴰ.tail i) = ground (arith, contained m l i)

listed : (m : String) (l : List String) → contains m l ≡ true → Memᴰ m l
listed m [] h = ground arith
listed m (n ∷ l) h = elim (Bool-cases (str_eq n m)) [
  | inl e ↦ Memᴰ.head (sym ((eq_iff n m).0 e))
  | inr e ↦ Memᴰ.tail (listed m l (rw e at h))
]

mem-remove_field :
    (f v g : String) (l : List (String × String))
    → Memᴰ (f, v) (remove_field g l)
    → (str_eq g f ≡ false) × Memᴰ (f, v) l
mem-remove_field f v g [] m = elim m [ ]
mem-remove_field f v g ((h, w) ∷ l) m = elim (Bool-cases (str_eq h g)) [
  | inl e ↦ let (other, at) = mem-remove_field f v g l (rw e at m) in (other, Memᴰ.tail at)
  | inr e ↦ kept_field f v g h w l e (rw e at m) (mem-remove_field f v g l)
]

lookup-mem_fields :
    (f v : String) (l : List (String × String)) → Memᴰ (f, v) (fields l) → lookup f l ≡ some v
lookup-mem_fields f v [] m = elim m [ ]
lookup-mem_fields f v ((g, w) ∷ l) (Memᴰ.head e) = ground (arith, eq_refl f, eq_iff g f)
lookup-mem_fields f v ((g, w) ∷ l) (Memᴰ.tail m) =
    let (other, at) = mem-remove_field f v g (fields l) m in rw other (lookup-mem_fields f v l at)

pub hgetall-view :
    (f v : String) (l : List (String × String)) → Memᴰ (f, v) (fields l) ↔ (lookup f l ≡ some v)
hgetall-view f v l =
    (lookup-mem_fields f v l, λ h. mem-lookup f v (fields l) (lookup-fields f l ∙ h))

pub smembers-view : (m : String) (l : List String) → Memᴰ m l ↔ (contains m l ≡ true)
smembers-view m l = (contained m l, listed m l)

abbrev pub memory : Redis
memory = record {
  Db = Memory;
  view = view;
  tie = λ m n. true;
  set = λ k v d. record d { str = update d.str k (some v) };
  set-view = λ k v d. refl;
  del = λ k d. record d { str = update d.str k none };
  del-view = λ k d. refl;
  incr = λ k d. record d { counter = update d.counter k (suc (d.counter k)) };
  incr-view = λ k d. refl;
  hset = λ k f v d. record d { hashes = update d.hashes k ((f, v) ∷ d.hashes k) };
  hset-view = hset-view;
  hdel = λ k f d. record d { hashes = update d.hashes k (remove_field f (d.hashes k)) };
  hdel-view = hdel-view;
  hgetall = λ k d. fields (d.hashes k);
  hgetall-view = λ k f v d. hgetall-view f v (d.hashes k);
  hlen = λ k d. length (fields (d.hashes k));
  zadd = λ k m s d. record d {
    zset = update d.zset k (insert_member (λ m n. true) m s (remove_member m (d.zset k)));
  };
  zadd-view = λ k m s d. refl;
  zrem = λ k m d. record d { zset = update d.zset k (remove_member m (d.zset k)) };
  zrem-view = λ k m d. refl;
  zpopmin = λ k d. record d { zset = update d.zset k (pop_rest (d.zset k)) };
  zpopmin-view = λ k d. refl;
  sadd = λ k m d. record d { sets = update d.sets k (add_member m (d.sets k)) };
  sadd-view = sadd-view;
  smembers = λ k d. d.sets k;
  smembers-view = λ k m d. smembers-view m (d.sets k);
  publish = λ c m d. record d { published = d.published ++ (c, m) ∷ [] };
  publish-view = λ c m d. refl;
}
