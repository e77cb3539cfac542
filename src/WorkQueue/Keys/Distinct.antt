-- ===== src/WorkQueue/Keys/Distinct.antt =====
-- Keys of different kinds never coincide, and a key determines what it was made of.
use Prim.Native.String
use text.Mathlib.TextLemmas.{append_cancel_left, append_cancel_right}
use archipelago_xl.Base.{ℕ, String, ◌≡◌, ◌≢◌, refl, sym, ap, Option, none, some, arith}
use archipelago_xl.Base.Text.{append_tail, append_clash, cancel_two, cancel_two_end}
use archipelago_xl.WorkQueue.Keys.{
  pending_key, WorkQueue, WorkQueueBuilder, queue_of, JobId, get_job_key, get_result_key,
  get_resolved_key,
}

-- What the operations need of the keys of a queue.
pub record HasDistinctKeys (q : WorkQueue) : Type 0 where
  pub job-result : (i j : JobId) → get_job_key q i ≢ get_result_key q j
  pub job-resolved : (i j : JobId) → get_job_key q i ≢ get_resolved_key q j
  pub result-resolved : (i j : JobId) → get_result_key q i ≢ get_resolved_key q j
  pub job-claim : (i j : JobId) → get_job_key q i ≢ String.◌++◌ q.claims_key (String.◌++◌ ":" j)
  pub job_inj : (i j : JobId) → get_job_key q i ≡ get_job_key q j → i ≡ j
  pub result_inj : (i j : JobId) → get_result_key q i ≡ get_result_key q j → i ≡ j
  pub pending_inj :
      (p p' : Option String) → pending_key q.pending p ≡ pending_key q.pending p' → p ≡ p'

abbrev q_ne_r : ◌≢◌ {A = ℕ} b'q' b'r'
q_ne_r = omega arith

abbrev q_ne_c : ◌≢◌ {A = ℕ} b'q' b'c'
q_ne_c = omega arith

abbrev u_ne_o : ◌≢◌ {A = ℕ} b'u' b'o'
u_ne_o = omega arith

abbrev q_ne_p : ◌≢◌ {A = ℕ} b'q' b'p'
q_ne_p = omega arith

module _ (b : WorkQueueBuilder) where
  queue_job-result : (i j : JobId) → get_job_key (queue_of b) i ≢ get_result_key (queue_of b) j
  unfolding queue_of get_job_key get_result_key
  queue_job-result i j e = append_clash "q" "r" "ueue" "esults" _ _ q_ne_r (
      append_tail ":" "queue" "results" _ _
        (cancel_two "wq:" b.queue_name ":queue" ":results" _ _ e))

  queue_job-resolved : (i j : JobId) → get_job_key (queue_of b) i ≢ get_resolved_key (queue_of b) j
  unfolding queue_of get_job_key get_resolved_key
  queue_job-resolved i j e = append_clash "q" "r" "ueue" "esolved" _ _ q_ne_r (
      append_tail ":" "queue" "resolved" _ _
        (cancel_two "wq:" b.queue_name ":queue" ":resolved" _ _ e))

  queue_result-resolved :
      (i j : JobId) → get_result_key (queue_of b) i ≢ get_resolved_key (queue_of b) j
  unfolding queue_of get_result_key get_resolved_key
  queue_result-resolved i j e = append_clash "u" "o" "lts" "lved" _ _ u_ne_o (
      append_tail "s" "ults" "olved" _ _ (
        append_tail "e" "sults" "solved" _ _ (
          append_tail "r" "esults" "esolved" _ _ (
            append_tail ":" "results" "resolved" _ _
              (cancel_two "wq:" b.queue_name ":results" ":resolved" _ _ e)))))

  queue_job-claim :
      (i j : JobId)
      → get_job_key (queue_of b) i ≢ String.◌++◌ (queue_of b).claims_key (String.◌++◌ ":" j)
  unfolding queue_of get_job_key
  queue_job-claim i j e = append_clash "q" "c" "ueue" "laims" _ _ q_ne_c (
      append_tail ":" "queue" "claims" _ _ (cancel_two "wq:" b.queue_name ":queue" ":claims" _ _ e))

  pending_ne :
      (p : String)
      → pending_key (queue_of b).pending none ≢ pending_key (queue_of b).pending (some p)
  unfolding queue_of pending_key
  pending_ne p e = append_clash "q" "p" "ueue" "artition" String.[] _ q_ne_p (
      append_tail ":" "queue" "partition" String.[] _
        (cancel_two_end "wq:" b.queue_name ":queue" ":partition" _ e))

  partition_inj :
      (p p' : String)
      → pending_key (queue_of b).pending (some p) ≡ pending_key (queue_of b).pending (some p')
      → p ≡ p'
  unfolding pending_key
  partition_inj p p' e =
      append_cancel_right _ _ ":queue" (
        append_cancel_left ":" _ _ (append_cancel_left (queue_of b).pending.partition_prefix _ _ e))

  queue_pending_inj :
      (p p' : Option String)
      → pending_key (queue_of b).pending p ≡ pending_key (queue_of b).pending p'
      → p ≡ p'
  queue_pending_inj none none e = refl
  queue_pending_inj none (some p) e = absurd (pending_ne p e)
  queue_pending_inj (some p) none e = absurd (pending_ne p (sym e))
  queue_pending_inj (some p) (some p') e = ap some (partition_inj p p' e)

  pub queue_of-HasDistinctKeys : HasDistinctKeys (queue_of b)
  unfolding get_job_key get_result_key
  queue_of-HasDistinctKeys = record {
    job-result = queue_job-result;
    job-resolved = queue_job-resolved;
    result-resolved = queue_result-resolved;
    job-claim = queue_job-claim;
    job_inj = λ i j e. append_cancel_left _ _ _ (append_cancel_left _ _ _ e);
    result_inj = λ i j e. append_cancel_left _ _ _ (append_cancel_left _ _ _ e);
    pending_inj = queue_pending_inj;
  }
