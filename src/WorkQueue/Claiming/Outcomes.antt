-- ===== src/WorkQueue/Claiming/Outcomes.antt =====
-- `claim_job_in`: whatever happens while the worker waits, a job that it is given was pending in
-- the partition that it asked for, had not passed its deadline, and is claimed by it.
use archipelago_xl.Base.{
  ℕ, zero, suc, ◌-◌, ◌≤◌, String, true, ◌≡◌, refl, ◌⊎◌, inl, inr, Option, none, some, List, [], ◌∷◌,
  arith, leb, length, Bool-cases, eq_refl, eq_iff, sym, ◌∙◌, ap,
}
use archipelago_xl.Base.Int.{ℤ}
use archipelago_xl.WorkQueue.Status.{Priority}
use archipelago_xl.WorkQueue.Redis.{Keyspace, remove_member, pop_rest}
use archipelago_xl.WorkQueue.Keys.{
  Checked, valid, refused, normalize, pending_key, WorkQueue, JobId, get_job_key,
}
use archipelago_xl.WorkQueue.Store.{
  JobDesc, Job, Result, ok, err, Services, Op, and_then, ◌>>=◌, in_partition, new_claim,
}
use archipelago_xl.WorkQueue.Jobs.{of_checked, get_str, get_claim, cancel_job}
use archipelago_xl.WorkQueue.Jobs.Cancelling.{is_member, cancelled-str, cancelled-zset, cancel_key}
use archipelago_xl.WorkQueue.Claiming.{
  Popped, found, nothing_pending, out_of_fuel, Wake, settle, give, take_job, next_job, claim_loop,
  claim_job_in,
}
use archipelago_xl.WorkQueue.Claiming.Taking.{
  empty, broken, given, skipped, round, zset_at, popped-zset, popped-str,
}

pub is_member-remove_member :
    (m n : String) (z : List (String × ℤ))
    → is_member m (remove_member n z) ≡ true
    → is_member m z ≡ true
is_member-remove_member m n [] h = h
is_member-remove_member m n ((k, s) ∷ z) h = ground (arith, is_member-remove_member m n z)

pub is_member-pop_rest :
    (m : String) (z : List (String × ℤ)) → is_member m (pop_rest z) ≡ true → is_member m z ≡ true
is_member-pop_rest m [] h = h
is_member-pop_rest m ((k, s) ∷ z) h = ground arith

module _ {P R : Type 0} (s : Services P R) (q : WorkQueue) where
  -- What is true of a job when the loop finds it.
  pub record WasPending (clock : ℕ → ℕ) (key : String) (id : JobId) (params : P) (d : s.redis.Db)
      : Type 0 where
    pub pending : is_member id (zset_at s q key d) ≡ true
    pub desc_text : String
    pub desc : JobDesc P
    pub stored : get_str s q (get_job_key q id) d ≡ some desc_text
    pub readable : s.desc.from_str desc_text ≡ some desc
    pub same_params : desc.params ≡ params
    pub reading : ℕ
    pub in_time : clock reading ≤ desc.deadline

  module _ (clock : ℕ → ℕ) (key : String) (id late : JobId) (params : P) (d : s.redis.Db) where
    abbrev popped : s.redis.Db
    popped = s.redis.zpopmin key d

    pending_back :
        is_member id (zset_at s q key (cancel_job s q late popped).1) ≡ true
        → is_member id (zset_at s q key d) ≡ true
    pending_back h =
        let kept : is_member id (zset_at s q key popped) ≡ true = ground (
          arith,
          cancelled-zset s q late popped key,
          eq_iff (cancel_key s q late popped) key,
          is_member-remove_member id late (zset_at s q key popped),
        ) in
        is_member-pop_rest id (zset_at s q key d) (rw (popped-zset s q key d) at kept)

    skip_back :
        WasPending clock key id params (cancel_job s q late popped).1
        → WasPending clock key id params d
    skip_back w = record {
      pending = pending_back w.pending;
      desc_text = w.desc_text;
      desc = w.desc;
      stored = ground (
        arith,
        w.stored,
        cancelled-str s q late popped (get_job_key q id),
        popped-str s q key (get_job_key q id) d,
      );
      readable = w.readable;
      same_params = w.same_params;
      reading = w.reading;
      in_time = w.in_time;
    }

  take_job_found :
      (f : ℕ) (clock : ℕ → ℕ) (key : String) (d : s.redis.Db) (id : JobId) (priority : Priority)
      (params : P)
      → (take_job s q f clock key d).0 ≡ ok (found id priority params)
      → WasPending clock key id params d
  take_job_found zero clock key d id priority params h = unfold take_job in cc h
  take_job_found (suc f) clock key d id priority params h = elim (round s q f clock key d) [
    | empty e r ↦ cc (ap (λ o. o.0) r, h)
    | broken e r ↦ cc (ap (λ o. o.0) r, h)
    | given id' priority' score text desc z e p t o b r ↦ record {
      pending = ground (arith, ap (λ o. o.0) r, eq_refl id);
      desc_text = text;
      desc = desc;
      stored = ground (arith, ap (λ o. o.0) r);
      readable = o;
      same_params = ground (arith, ap (λ o. o.0) r);
      reading = f;
      in_time = ground arith;
    }
    | skipped id' score z e r ↦ skip_back clock key id id' params d (
        take_job_found f clock key (cancel_job s q id' (s.redis.zpopmin key d)).1 id priority params
          (ap (λ o. o.0) (sym r) ∙ h))
  ]

  -- The moments at which `claim_loop` looks for a job, and the clock there: when it is called, and
  -- after each wake that comes in time, if nothing was pending before.
  abbrev pub IsMoment :
      String
      → (ℕ → ℕ)
      → List (Wake s.redis.Db)
      → (remaining_time : ℕ) → s.redis.Db
      → s.redis.Db
      → (ℕ → ℕ)
      → Type 0
  IsMoment key clock [] remaining_time d moment at = (moment ≡ d) × (at ≡ clock)
  IsMoment key clock (w ∷ wakes) remaining_time d moment at =
      ((moment ≡ d) × (at ≡ clock))
      ⊎ (((next_job s q clock key d).0 ≡ ok nothing_pending)
          × (leb w.elapsed remaining_time ≡ true)
          × IsMoment key w.clock wakes (remaining_time - w.elapsed)
              (w.others (next_job s q clock key d).1) moment at)

  -- `claim_loop` found the job at one of its moments.
  pub record FoundAt (clock : ℕ → ℕ) (key : String) (wakes : List (Wake s.redis.Db))
      (remaining_time : ℕ) (d : s.redis.Db) (id : JobId) (params : P) : Type 0 where
    pub moment : s.redis.Db
    pub at : ℕ → ℕ
    pub of_call : IsMoment key clock wakes remaining_time d moment at
    pub was_pending : WasPending at key id params moment

  start-IsMoment :
      (key : String) (clock : ℕ → ℕ) (wakes : List (Wake s.redis.Db)) (remaining_time : ℕ)
      (d : s.redis.Db)
      → IsMoment key clock wakes remaining_time d d clock
  start-IsMoment key clock [] remaining_time d = (refl, refl)
  start-IsMoment key clock (w ∷ wakes) remaining_time d = inl (refl, refl)

  next_job_found :
      (clock : ℕ → ℕ) (key : String) (d : s.redis.Db) (id : JobId) (priority : Priority)
      (params : P)
      → (next_job s q clock key d).0 ≡ ok (found id priority params)
      → WasPending clock key id params d
  unfolding next_job
  next_job_found clock key d = take_job_found (suc (length (zset_at s q key d))) clock key d

  module _ (clock : ℕ → ℕ) (key : String) (d : s.redis.Db)
      (wait : Op s.redis.Db (Option (JobId × Priority × P))) (id : JobId) (priority : Priority)
      (params : P) where
    settled_as :
        (out : Result (Popped P) × s.redis.Db)
        → next_job s q clock key d ≡ out
        → (and_then out (settle s q wait)).0 ≡ ok (some (id, priority, params))
        → WasPending clock key id params d
          ⊎ ((out.0 ≡ ok nothing_pending) × ((wait out.1).0 ≡ ok (some (id, priority, params))))
    settled_as (ok (found id' priority' params'), d') e h =
        inl (next_job_found clock key d id priority params (ground (arith, ap (λ o. o.0) e)))
    settled_as (ok nothing_pending, d') e h = inr (refl, h)
    settled_as (ok out_of_fuel, d') e h = cc
    settled_as (err x, d') e h = cc

  at_start :
      (clock : ℕ → ℕ) (key : String) (wakes : List (Wake s.redis.Db)) (remaining_time : ℕ)
      (d : s.redis.Db) (id : JobId) (params : P)
      → WasPending clock key id params d
      → FoundAt clock key wakes remaining_time d id params
  at_start clock key wakes remaining_time d id params p = record {
    moment = d;
    at = clock;
    of_call = start-IsMoment key clock wakes remaining_time d;
    was_pending = p;
  }

  after_wake :
      (clock : ℕ → ℕ) (key : String) (w : Wake s.redis.Db) (wakes : List (Wake s.redis.Db))
      (remaining_time : ℕ) (d : s.redis.Db) (id : JobId) (params : P)
      → (next_job s q clock key d).0 ≡ ok nothing_pending
      → leb w.elapsed remaining_time ≡ true
      → FoundAt w.clock key wakes
          (remaining_time - w.elapsed)
          (w.others (next_job s q clock key d).1)
          id
          params
      → FoundAt clock key (w ∷ wakes) remaining_time d id params
  after_wake clock key w wakes remaining_time d id params n early f = record {
    moment = f.moment;
    at = f.at;
    of_call = inr (n, early, f.of_call);
    was_pending = f.was_pending;
  }

  claim_loop_found :
      (clock : ℕ → ℕ) (key : String) (wakes : List (Wake s.redis.Db)) (remaining_time : ℕ)
      (d : s.redis.Db) (id : JobId) (priority : Priority) (params : P)
      → (claim_loop s q clock key wakes remaining_time d).0 ≡ ok (some (id, priority, params))
      → FoundAt clock key wakes remaining_time d id params
  unfolding claim_loop
  claim_loop_found clock key [] remaining_time d id priority params h =
      elim (settled_as clock key d _ id priority params _ refl h) [
        | inl p ↦ at_start clock key [] remaining_time d id params p
        | inr (n, e) ↦ cc
      ]
  claim_loop_found clock key (w ∷ wakes) remaining_time d id priority params h =
      elim (settled_as clock key d _ id priority params _ refl h) [
        | inl p ↦ at_start clock key (w ∷ wakes) remaining_time d id params p
        | inr (n, e) ↦ elim (Bool-cases (leb w.elapsed remaining_time)) [
          | inl early ↦ after_wake clock key w wakes remaining_time d id params n early (
              claim_loop_found w.clock key wakes (remaining_time - w.elapsed)
                (w.others (next_job s q clock key d).1) id priority params (ground arith))
          | inr late ↦ ground arith
        ]
      ]

  -- What is true when a worker is given a job: `r` is the partition in its stored form.
  pub record IsGiven (clock : ℕ → ℕ) (wakes : List (Wake s.redis.Db)) (d : s.redis.Db)
      (r : Option String) (worker_id : String) (now : ℕ) (job : Job P) (after : s.redis.Db)
      : Type 0 where
    pub found :
        FoundAt clock (pending_key q.pending r) wakes q.claim_timeout d job.job_id job.params
    pub priority : Priority
    pub claimed :
        get_claim s q job.job_id after
        ≡ some (
            s.claim.to_string (record {
              job_id = job.job_id;
              priority = priority;
              worker_id = worker_id;
              time = now;
              partition = r;
            }))

  give_lem :
      (clock : ℕ → ℕ) (wakes : List (Wake s.redis.Db)) (d0 : s.redis.Db) (r : Option String)
      (w : String) (now : ℕ) (job : Job P) (d' : s.redis.Db)
      (out : Result (Option (JobId × Priority × P)) × s.redis.Db)
      → ((id : JobId) (priority : Priority) (params : P)
          → out.0 ≡ ok (some (id, priority, params))
          → FoundAt clock (pending_key q.pending r) wakes q.claim_timeout d0 id params)
      → and_then out (give s q w r now) ≡ (ok (some job), d')
      → IsGiven clock wakes d0 r w now job d'
  unfolding new_claim in_partition
  give_lem clock wakes d0 r w now job d' (err e, d) found_lem h = cc (ap (λ o. o.0) h)
  give_lem clock wakes d0 r w now job d' (ok none, d) found_lem h = cc (ap (λ o. o.0) h)
  give_lem clock wakes d0 r w now job d' (ok (some (id, priority, params)), d) found_lem h =
      let given_job : Job P = record { job_id = id; params = params } in
      let same_job : given_job ≡ job = ground (arith, ap (λ o. o.0) h) in
      let same_db : _ ≡ d' = ap (λ o. o.1) h in
      rw (← same_db) (
        rw (← same_job) (record {
          found = found_lem id priority params refl;
          priority = priority;
          claimed =
              ap (λ (v : Keyspace). v.hash q.claims_key id) (s.redis.hset-view q.claims_key id _ d)
              ∙ rw (eq_refl q.claims_key, eq_refl id);
        }))

  -- A worker that is given a job asked for a valid partition; at the start of the call, or after
  -- one of the wakes that came in time, the job was pending in that partition, with a stored
  -- description whose deadline the clock of that moment had not passed; and in the end the job's
  -- claim is this worker's, at the time of the call, and names the partition. What the other
  -- clients do while the worker waits is arbitrary.
  pub claim_job_in-IsGiven :
      (partition : Option String) (w : String) (clock : ℕ → ℕ) (wakes : List (Wake s.redis.Db))
      (now : ℕ) (d d' : s.redis.Db) (job : Job P)
      → claim_job_in s q partition w clock wakes now d ≡ (ok (some job), d')
      → (r : Option String) × (normalize q.pending partition ≡ valid r)
        × IsGiven clock wakes d r w now job d'
  unfolding claim_job_in
  claim_job_in-IsGiven partition w clock wakes now d d' job h =
      checked (normalize q.pending partition) refl h
    where
      checked :
          (c : Checked (Option String))
          → normalize q.pending partition ≡ c
          → and_then (of_checked c d) (λ r.
            claim_loop s q clock (pending_key q.pending r) wakes q.claim_timeout
            >>= give s q w r now)
            ≡ (ok (some job), d')
          → (r : Option String) × (normalize q.pending partition ≡ valid r)
            × IsGiven clock wakes d r w now job d'
      checked (valid r) e h =
          (r, e, give_lem clock wakes d r w now job d' _ (claim_loop_found clock _ wakes _ d) h)
      checked (refused e) _ h = cc (ap (λ o. o.0) h)
