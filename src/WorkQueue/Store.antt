-- ===== src/WorkQueue/Store.antt =====
-- The data that the queue stores (wq/src/lib.rs, claim.rs, result.rs), and the monad of its
-- operations: a computation over the server's state that ends in a value or an error, and keeps
-- what its earlier commands wrote when it ends in an error.
use archipelago_xl.Base.{ℕ, String, ◌≡◌, not, Option, none, some, ◌<◌, str_eq, if◌then◌else◌}
use archipelago_xl.WorkQueue.Status.{WorkQueueError, other, Priority, JobStatus}
use archipelago_xl.WorkQueue.Redis.{Redis}
use archipelago_xl.WorkQueue.Keys.{JobId}

-- Times are in milliseconds since the epoch.
pub record JobDesc (P : Type 0) : Type 0 where
  pub params : P
  pub submitted_at : ℕ
  pub deadline : ℕ
  pub partition : Option String

pub record Job (P : Type 0) : Type 0 where
  pub job_id : JobId
  pub params : P

pub record JobResult (R : Type 0) : Type 0 where
  pub status : JobStatus
  pub result : Option R

pub record Claim : Type 0 where
  pub job_id : JobId
  pub priority : Priority
  pub worker_id : String
  pub time : ℕ
  pub partition : Option String

pub data Result {ℓ} (A : Type ℓ) : Type ℓ where
  ok : A → Result A
  err : WorkQueueError → Result A

-- `Claim::new`, at the clock's reading `now`
unfoldable pub new_claim : String → JobId → Priority → ℕ → Claim
new_claim worker_id job_id priority now = record {
  job_id = job_id;
  priority = priority;
  worker_id = worker_id;
  time = now;
  partition = none;
}

unfoldable pub in_partition : Claim → Option String → Claim
in_partition c partition = record c { partition = partition }

unfoldable pub refresh : Claim → String → ℕ → Result Claim
refresh c worker_id now =
    if not (str_eq worker_id c.worker_id) then err other else ok (record c { time = now })

-- serde_json (and, for the status, the driver's decimal numbers): a text of a value reads back.
pub record Codec (A : Type 0) : Type 0 where
  pub to_string : A → String
  pub from_str : String → Option A
  pub from_str-to_string : (a : A) → from_str (to_string a) ≡ some a

-- What the queue uses of its libraries. `read_partition` reads a stored job description as a
-- `JobPartition`, which has that one field of it.
pub record Services (P R : Type 0) : Type 1 where
  pub redis : Redis
  pub desc : Codec (JobDesc P)
  pub claim : Codec Claim
  pub result : Codec (JobResult R)
  pub read_partition : String → Option (Option String)
  pub read_partition-to_string :
      (d : JobDesc P) → read_partition (desc.to_string d) ≡ some d.partition
  pub u8_to_string : ℕ → String
  pub parse_u8 : String → Option ℕ
  pub parse_u8-to_string : (n : ℕ) → n < 256 → parse_u8 (u8_to_string n) ≡ some n

abbrev pub Op : Type 0 → Type 0 → Type 0
Op Db A = Db → Result A × Db

abbrev pub and_then : {Db A B : Type 0} → Result A × Db → (A → Op Db B) → Result B × Db
and_then (ok a, d) f = f a d
and_then (err e, d) f = (err e, d)

infixl 5 ◌>>=◌ ◌>>◌
abbrev pub ◌>>=◌ : {Db A B : Type 0} → Op Db A → (A → Op Db B) → Op Db B
◌>>=◌ m f d = and_then (m d) f

abbrev pub ◌>>◌ : {Db B : Type 0} → Op Db (Unit {0}) → Op Db B → Op Db B
◌>>◌ m k d = and_then (m d) (λ _. k)

abbrev pub return : {Db A : Type 0} → A → Op Db A
return a d = (ok a, d)

abbrev pub throw : {Db A : Type 0} → WorkQueueError → Op Db A
throw e d = (err e, d)

-- a command that returns nothing
abbrev pub send : {Db : Type 0} → (Db → Db) → Op Db (Unit {0})
send f d = (ok tt, f d)

abbrev pub ok_or : {Db A : Type 0} → WorkQueueError → Option A → Op Db A
ok_or e none d = (err e, d)
ok_or e (some a) d = (ok a, d)
