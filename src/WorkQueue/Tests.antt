-- ===== src/WorkQueue/Tests.antt =====
-- The queue's theorems on concrete jobs, on the least server.
use archipelago_xl.Base.{
  is_some, ◌-◌, ◌≤◌, ◌<◌, ◌⊎◌, ◌≡◌, ◌≢◌, refl, String, true, false, Option, none, some, [], ◌∷◌,
  arith, ap, str_eq, List, if◌then◌else◌, some-injective, sym, ◌∙◌,
}
use archipelago_xl.WorkQueue.Status.{
  normal, pending, running, success, is_resolved, priority_score, priority_of_score, job_cancelled,
  worker_mismatch,
}
use archipelago_xl.WorkQueue.Redis.Memory.{Memory}
use archipelago_xl.WorkQueue.Keys.{
  WorkQueue, WorkQueueBuilder, queue_of, JobId, normalize, valid, pending_key, get_job_key,
  get_result_key,
}
use archipelago_xl.WorkQueue.Keys.Distinct.{HasDistinctKeys, queue_of-HasDistinctKeys}
use archipelago_xl.WorkQueue.Store.{Services, JobDesc, Job, JobResult, Claim, Result, ok, err}
use archipelago_xl.WorkQueue.Jobs.{
  enqueue_job_in, cancel_job, get_job_status, reclaim_job, resolve_job, get_claim, get_str,
}
use archipelago_xl.WorkQueue.Jobs.Cancelling.{is_member, cancel_job_stops}
use archipelago_xl.WorkQueue.Jobs.Resolving.{
  IsResolvedWith, resolve_job_outcome, resolve_job_error_unchanged,
}
use archipelago_xl.WorkQueue.Claiming.{Wake, claim_job_in, next_job, take_job, out_of_fuel}
use archipelago_xl.WorkQueue.Claiming.Outcomes.{IsGiven, claim_job_in-IsGiven}
use archipelago_xl.WorkQueue.Claiming.Taking.{take_job_ends}
use archipelago_xl.WorkQueue.Claiming.Roundtrip.{enqueue-claim}
use archipelago_xl.WorkQueue.Sweep.{is_expired, reclaim_round}
use archipelago_xl.WorkQueue.Sweep.Requeue.{reclaim_round_requeues, reclaim_round_spares}
use archipelago_xl.WorkQueue.Waiting.{Push, push, text, wait_loop, wait_for_job}
use archipelago_xl.WorkQueue.Waiting.Time.{total, irrelevant, wait_loop_skips}
use archipelago_xl.WorkQueue.Waiting.Results.{wait_after_resolve}
use archipelago_xl.WorkQueue.Encoding.{services}

abbrev pub s : Services String String
s = services

abbrev pub builder : WorkQueueBuilder
builder = record {
  queue_name = "yaml";
  default_partition = some "0.6.0";
  reclaim_timeout = 30_000;
  claim_timeout = 30_000;
}

abbrev q : WorkQueue
q = queue_of builder

abbrev pub nothing_stored : Memory
nothing_stored = record {
  str = λ k. none;
  counter = λ k. 0;
  hashes = λ k. [];
  zset = λ k. [];
  sets = λ k. [];
  published = [];
}

abbrev keys : HasDistinctKeys q
keys = queue_of-HasDistinctKeys builder

abbrev desc : JobDesc String
desc = record { params = "game: X"; submitted_at = 100; deadline = 5100; partition = some "0.6.1" }

unfoldable queued : Memory
unfolding enqueue_job_in normalize queue_of
queued = (enqueue_job_in s q (some "0.6.1") "game: X" normal 5000 "job" 100 100 nothing_stored).1

unfoldable running_at : Memory
unfolding queued claim_job_in next_job pending_key priority_of_score priority_score get_job_key
    queue_of
running_at = (claim_job_in s q (some "0.6.1") "w1" (λ f. 200) [] 200 queued).1

other_name : ◌≢◌ {A = String} "other" "job"
other_name e = let f : true ≡ false = ap (str_eq "other") e in cc

cancel_job_stops_example :
    ((cancel_job s q "job" queued).0 ≡ ok tt)
    × ((get_job_status s q "job" (cancel_job s q "job" queued).1).0 ≡ ok none)
    × (is_member "job" ((cancel_job s q "job" queued).1.zset (pending_key q.pending (some "0.6.1")))
        ≡ false)
    × ((reclaim_job s q "job" "w1" 300 (cancel_job s q "job" queued).1).0 ≡ err job_cancelled)
    × ((resolve_job s q none "w1" "job" success (some "done") (cancel_job s q "job" queued).1).0
        ≡ err job_cancelled)
    × (get_claim s q "other" (cancel_job s q "job" queued).1 ≡ get_claim s q "other" queued)
    × (get_str s q (get_job_key q "other") (cancel_job s q "job" queued).1
        ≡ get_str s q (get_job_key q "other") queued)
unfolding queued get_job_key get_result_key queue_of is_resolved
cancel_job_stops_example =
    cancel_job_stops s q "job" queued none desc "w1" 300 success (some "done") "other" keys refl
      refl refl other_name

abbrev claim : Claim
claim = record {
  job_id = "job";
  priority = normal;
  worker_id = "w1";
  time = 200;
  partition = some "0.6.1";
}

unfoldable resolved : Memory
unfolding running_at resolve_job
resolved = (resolve_job s q none "w1" "job" success (some "done") running_at).1

abbrev done : JobResult String
done = record { status = success; result = some "done" }

resolve_job_outcome_example :
    ((resolve_job s q none "w1" "job" success (some "done") running_at).0 ≡ ok tt)
    × IsResolvedWith s q "job" desc done false running_at
        (resolve_job s q none "w1" "job" success (some "done") running_at).1
unfolding running_at get_job_key queue_of is_resolved
resolve_job_outcome_example =
    resolve_job_outcome s q none "w1" "job" success (some "done") running_at claim desc refl refl
      refl refl keys

resolve_job_error_unchanged_example :
    (resolve_job s q none "w2" "job" success (some "done") running_at).1 ≡ running_at
unfolding running_at resolve_job queue_of is_resolved
resolve_job_error_unchanged_example =
    resolve_job_error_unchanged s q none "w2" "job" success (some "done") running_at worker_mismatch
      refl

-- the job is enqueued while the worker waits
abbrev wakes : List (Wake Memory)
wakes =
    record {
      elapsed = 50;
      others = λ d. (enqueue_job_in s q (some "0.6.1") "game: X" normal 5000 "job" 100 100 d).1;
      clock = λ f. 200;
    }
    ∷ []

unfoldable woken : Memory
unfolding enqueue_job_in claim_job_in next_job normalize pending_key priority_of_score
    priority_score get_job_key queue_of
woken = (claim_job_in s q (some "0.6.1") "w1" (λ f. 100) wakes 200 nothing_stored).1

claim_job_in-IsGiven_example :
    (r : Option String) × (normalize q.pending (some "0.6.1") ≡ valid r)
    × IsGiven s q
        (λ f. 100)
        wakes
        nothing_stored
        r
        "w1"
        200
        (record { job_id = "job"; params = "game: X" })
        woken
unfolding woken queue_of
claim_job_in-IsGiven_example =
    claim_job_in-IsGiven s q (some "0.6.1") "w1" (λ f. 100) wakes 200 nothing_stored woken
      (record { job_id = "job"; params = "game: X" }) refl

take_job_ends_example :
    (take_job s q 2 (λ f. 200) (pending_key q.pending (some "0.6.1")) queued).0 ≢ ok out_of_fuel
unfolding queued queue_of pending_key
take_job_ends_example =
    take_job_ends s q 2 (λ f. 200) (pending_key q.pending (some "0.6.1")) queued (omega arith)

abbrev queued_ok : Result JobId × Memory
queued_ok = enqueue_job_in s q (some "0.6.1") "game: X" normal 5000 "job" 100 100 nothing_stored

abbrev claimed_ok : Result (Option (Job String)) × Memory
claimed_ok = claim_job_in s q (some "0.6.1") "w1" (λ f. 200) [] 200 queued

enqueue-claim_example :
    (queued_ok.0 ≡ ok "job")
    × ((get_job_status s q "job" queued).0 ≡ ok (some pending))
    × (claimed_ok.0 ≡ ok (some (record { job_id = "job"; params = "game: X" })))
    × ((get_job_status s q "job" running_at).0 ≡ ok (some running))
unfolding queued running_at get_job_status get_result_key queue_of
enqueue-claim_example =
    enqueue-claim s q (some "0.6.1") (some "0.6.1") "game: X" normal 5000 "job" 100 100 200 "w1"
      (λ f. 200) [] nothing_stored keys refl refl refl refl (omega arith)

only_value :
    (value f stored : String)
    → (if str_eq "job" f then some value else none) ≡ some stored
    → value ≡ stored
only_value value f stored h = ground arith

only_claim :
    (f stored : String)
    → get_claim s q f running_at ≡ some stored
    → s.claim.to_string claim ≡ stored
unfolding running_at queue_of
only_claim f stored h = only_value (s.claim.to_string claim) f stored h

running_readable :
    (f stored : String)
    → get_claim s q f running_at ≡ some stored
    → is_some (s.claim.from_str stored) ≡ true
running_readable f stored h = rw (← only_claim f stored h) refl

running_current :
    (f stored : String) (c : Claim)
    → get_claim s q f running_at ≡ some stored
    → s.claim.from_str stored ≡ some c
    → c.job_id ≡ "job"
    → is_expired q.reclaim_timeout 30_200 c ≡ false
unfolding queue_of
running_current f stored c h e same =
    let same_claim : claim ≡ c =
      some-injective _ _ (
        sym (s.claim.from_str-to_string claim) ∙ ap s.claim.from_str (only_claim f stored h) ∙ e) in
    rw (← same_claim) refl

reclaim_round_requeues_example :
    (get_claim s q "job" (reclaim_round s q 40_000 running_at) ≡ none)
    × (is_member "job"
          ((reclaim_round s q 40_000 running_at).zset (pending_key q.pending (some "0.6.1")))
        ≡ true)
    × (get_str s q (get_job_key q "job") (reclaim_round s q 40_000 running_at)
        ≡ get_str s q (get_job_key q "job") running_at)
unfolding running_at queue_of reclaim_round
reclaim_round_requeues_example =
    reclaim_round_requeues s q 40_000 running_at running_readable claim "job"
      (s.claim.to_string claim) keys refl refl refl

reclaim_round_spares_example :
    get_claim s q "job" (reclaim_round s q 30_200 running_at) ≡ get_claim s q "job" running_at
reclaim_round_spares_example =
    reclaim_round_spares s q 30_200 running_at running_readable "job" running_current

resolved_with : IsResolvedWith s q "job" desc done false running_at resolved
unfolding resolved resolve_job queue_of
resolved_with = resolve_job_outcome_example.1

wait_after_resolve_example :
    (wait_for_job s q "job" none (λ d. d) [] resolved).0 ≡ ok (some success)
wait_after_resolve_example = wait_after_resolve s q "job" resolved_with none []

another_job : Push
another_job = record {
  elapsed = 20_000;
  received = push true (some "wq:yaml:results:other") (text "x");
}

wait_loop_skips_example :
    ((total (another_job ∷ another_job ∷ []) ≤ 30_000)
      × (wait_loop s q "wq:yaml:results:job" (another_job ∷ another_job ∷ []) 30_000 queued
          ≡ wait_loop s q "wq:yaml:results:job" []
              (30_000 - total (another_job ∷ another_job ∷ []))
              queued))
    ⊎ ((30_000 < total (another_job ∷ another_job ∷ []))
        × (wait_loop s q "wq:yaml:results:job" (another_job ∷ another_job ∷ []) 30_000 queued
            ≡ (ok none, queued)))
unfolding another_job
wait_loop_skips_example =
    wait_loop_skips s q "wq:yaml:results:job" (another_job ∷ another_job ∷ []) [] 30_000 queued (
      irrelevant another_job true (some "wq:yaml:results:other") (text "x") refl refl,
      (irrelevant another_job true (some "wq:yaml:results:other") (text "x") refl refl, tt),
    )
