-- ===== src/WorkQueue/Keys.antt =====
-- wq/src/lib.rs, builder.rs: partition names, the keys of the queue, and its builder.
pub mod Distinct
pub mod Partitions
use Prim.Native.Char.{code}
use Prim.Native.String
use Prim.Native.String.{len}
use archipelago_xl.Base.{
  ℕ, String, Bool, true, false, not, ◌&&◌, ◌||◌, Option, none, some, ◌==◌, leb, str_eq,
  if◌then◌else◌,
}
use archipelago_xl.WorkQueue.Status.{WorkQueueError, invalid_partition}

infixr 65 ◌++◌
abbrev ◌++◌ : String → String → String
s ++ t = String.◌++◌ s t

abbrev pub max_partition_len : ℕ
max_partition_len = 64

-- `c.is_ascii_alphanumeric() || matches!(c, '.' | '_' | '-' | '+')`
abbrev pub is_partition_char : ℕ → Bool
is_partition_char c =
    leb b'0' c && leb c b'9'
    || leb b'A' c && leb c b'Z'
    || leb b'a' c && leb c b'z'
    || c == b'.'
    || c == b'_'
    || c == b'-'
    || c == b'+'

abbrev pub all_chars : (ℕ → Bool) → String → Bool
all_chars p String.[] = true
all_chars p (String.◌∷◌ c s) = p (code c) && all_chars p s

-- `none` is `Ok(())`
unfoldable pub validate_partition : String → Option WorkQueueError
validate_partition partition =
    if not (len partition == 0)
      && leb (len partition) max_partition_len
      && all_chars is_partition_char partition
    then none
    else some (invalid_partition partition)

pub record PendingKeys : Type 0 where
  pub default_key : String
  pub partitions_key : String
  pub partition_prefix : String
  pub default_partition : Option String

pub data Checked {ℓ} (A : Type ℓ) : Type ℓ where
  valid : A → Checked A
  refused : WorkQueueError → Checked A

abbrev pub names_default : Option String → String → Bool
names_default none partition = false
names_default (some d) partition = str_eq d partition

abbrev pub checked_as {ℓ} : {A : Type ℓ} → Option WorkQueueError → A → Checked A
checked_as none a = valid a
checked_as (some e) a = refused e

unfoldable pub normalize : PendingKeys → Option String → Checked (Option String)
unfolding validate_partition
normalize keys none = valid none
normalize keys (some partition) =
    checked_as (validate_partition partition)
      (if names_default keys.default_partition partition then none else some partition)

unfoldable pub pending_key : PendingKeys → Option String → String
pending_key keys none = keys.default_key
pending_key keys (some partition) = keys.partition_prefix ++ ":" ++ partition ++ ":queue"

-- The fields of `WorkQueue` that hold keys and timeouts; the pool, the client and the callback are
-- arguments of the operations that use them. Durations are in milliseconds.
pub record WorkQueue : Type 0 where
  pub queue_key : String
  pub claims_key : String
  pub results_key : String
  pub resolved_key : String
  pub stats_key : String
  pub pending : PendingKeys
  pub reclaim_timeout : ℕ
  pub claim_timeout : ℕ

pub record WorkQueueBuilder : Type 0 where
  pub queue_name : String
  pub default_partition : Option String
  pub reclaim_timeout : ℕ
  pub claim_timeout : ℕ

unfoldable pub new_builder : String → WorkQueueBuilder
new_builder queue_name = record {
  queue_name = queue_name;
  default_partition = none;
  reclaim_timeout = 30_000;
  claim_timeout = 30_000;
}

pub with_default_partition : WorkQueueBuilder → String → WorkQueueBuilder
with_default_partition b partition = record b { default_partition = some partition }

pub with_reclaim_timeout : WorkQueueBuilder → ℕ → WorkQueueBuilder
with_reclaim_timeout b timeout = record b { reclaim_timeout = timeout }

pub with_claim_timeout : WorkQueueBuilder → ℕ → WorkQueueBuilder
with_claim_timeout b timeout = record b { claim_timeout = timeout }

abbrev check_default : Option String → Option WorkQueueError
check_default none = none
check_default (some partition) = validate_partition partition

-- the struct that `build` fills in
unfoldable pub queue_of : WorkQueueBuilder → WorkQueue
queue_of b = record {
  queue_key = "wq:" ++ b.queue_name ++ ":queue";
  claims_key = "wq:" ++ b.queue_name ++ ":claims";
  results_key = "wq:" ++ b.queue_name ++ ":results";
  resolved_key = "wq:" ++ b.queue_name ++ ":resolved";
  stats_key = "wq:" ++ b.queue_name ++ ":stats";
  pending = record {
    default_key = "wq:" ++ b.queue_name ++ ":queue";
    partitions_key = "wq:" ++ b.queue_name ++ ":partitions";
    partition_prefix = "wq:" ++ b.queue_name ++ ":partition";
    default_partition = b.default_partition;
  };
  reclaim_timeout = b.reclaim_timeout;
  claim_timeout = b.claim_timeout;
}

unfoldable pub build : WorkQueueBuilder → Checked WorkQueue
unfolding queue_of validate_partition
build b = checked_as (check_default b.default_partition) (queue_of b)

-- A job ID is used by the queue only in its hyphenated text form.
abbrev pub JobId : Type 0
JobId = String

unfoldable pub get_job_key : WorkQueue → JobId → String
get_job_key q job_id = q.queue_key ++ ":" ++ job_id

unfoldable pub get_result_key : WorkQueue → JobId → String
get_result_key q job_id = q.results_key ++ ":" ++ job_id

unfoldable pub get_resolved_key : WorkQueue → JobId → String
get_resolved_key q job_id = q.resolved_key ++ ":" ++ job_id

unfoldable pub get_stats_key : WorkQueue → String → String
get_stats_key q stat_name = q.stats_key ++ ":" ++ stat_name
