-- ===== src/Apwm/Retries/Laws.antt =====
-- How a retried download ends, and how long it waits.
use archipelago_xl.Base.{
  ℕ, zero, suc, ◌+◌, ◌-◌, ◌*◌, ◌^◌, ◌≤◌, ◌<◌, ◌≡◌, refl, ap, subst, Bool, true, false, arith,
}
use archipelago_xl.Apwm.Retries.{
  Try, value, transient, permanent, Tried, ok, err, min, retry_delay, Run, one_try, after_wait,
  on_try, retry_loop, with_retries,
}

min-le : (a b : ℕ) → min a b ≤ b
min-le a b = ground arith

two_le : (n : ℕ) → 1 ≤ n → 2 ≤ min (2 * min n (2 ^ 32 - 1)) 16
two_le n h = ground arith

pow-pos : (n : ℕ) → 1 ≤ 2 ^ n
pow-pos zero = omega arith
pow-pos (suc n) = omega (arith, pow-pos n)

delay-ge : (retry : ℕ) → 2 ≤ retry_delay retry
unfolding retry_delay
delay-ge retry = two_le (2 ^ (retry - 1)) (pow-pos (retry - 1))

delay-le : (retry : ℕ) → retry_delay retry ≤ 16
unfolding retry_delay
delay-le retry = min-le (2 * min (2 ^ (retry - 1)) (2 ^ 32 - 1)) 16

abbrev pub is_transient : {A : Type 0} → Try A → Bool
is_transient (transient e) = true
is_transient _ = false

module _ {A : Type 0} (attempt : ℕ → Try A) where
  -- what the last try has to do with the result
  abbrev pub IsEnd : Try A → (last left : ℕ) → Tried A → Type 0
  IsEnd (value a) last left r = r ≡ ok a
  IsEnd (permanent e) last left r = r ≡ err false e
  IsEnd (transient e) last left r = (last ≡ left) × (r ≡ err true e)

  IsEnd-suc :
      (t : Try A) (last left : ℕ) (r : Tried A)
      → IsEnd t last left r
      → IsEnd t (suc last) (suc left) r
  IsEnd-suc (value a) last left r h = h
  IsEnd-suc (permanent e) last left r h = h
  IsEnd-suc (transient e) last left r (same, h) = (ap suc same, h)

  -- The run stopped at the try with number `retry + last`.
  pub record IsRun (left retry : ℕ) (run : Run attempt) : Type 0 where
    pub last : ℕ
    pub few : last ≤ left
    pub counted : run.tries ≡ suc last
    pub earlier : (i : ℕ) → i < last → is_transient (attempt (retry + i)) ≡ true
    pub ended : IsEnd (attempt (retry + last)) last left run.result
    pub waits_least : 2 * last ≤ run.waited
    pub waits_most : run.waited ≤ 16 * last

  stops :
      (left retry : ℕ) (r : Tried A)
      → IsEnd (attempt retry) 0 left r
      → IsRun left retry (one_try attempt r)
  stops left retry r h = record {
    last = 0;
    few = omega arith;
    counted = refl;
    earlier = λ i small. ground arith;
    ended = subst (λ n. IsEnd (attempt n) 0 left r) (omega arith) h;
    waits_least = omega arith;
    waits_most = omega arith;
  }

  goes_on :
      (left retry : ℕ) (run : Run attempt)
      → is_transient (attempt retry) ≡ true
      → IsRun left (suc retry) run
      → IsRun (suc left) retry (after_wait attempt (retry_delay (suc retry)) run)
  goes_on left retry run t h = record {
    last = suc h.last;
    few = omega (arith, h.few);
    counted = ap suc h.counted;
    earlier = earlier_too;
    ended =
        subst (λ n. IsEnd (attempt n) (suc h.last) (suc left) run.result) (omega arith)
          (IsEnd-suc (attempt (suc retry + h.last)) h.last left run.result h.ended);
    waits_least = omega (arith, h.waits_least, delay-ge (suc retry));
    waits_most = omega (arith, h.waits_most, delay-le (suc retry));
  }
    where
      earlier_too : (i : ℕ) → i < suc h.last → is_transient (attempt (retry + i)) ≡ true
      earlier_too zero small = subst (λ n. is_transient (attempt n) ≡ true) (omega arith) t
      earlier_too (suc i) small =
          subst (λ n. is_transient (attempt n) ≡ true) (omega arith) (h.earlier i (omega arith))

  tried_once :
      (left retry : ℕ) (t : Try A) (rest : Run attempt)
      → attempt retry ≡ t
      → IsRun left (suc retry) rest
      → IsRun (suc left) retry (on_try attempt t true (retry_delay (suc retry)) rest)
  tried_once left retry (value a) rest e h = stops (suc left) retry (ok a) (rw e refl)
  tried_once left retry (permanent x) rest e h = stops (suc left) retry (err false x) (rw e refl)
  tried_once left retry (transient x) rest e h = goes_on left retry rest (ap is_transient e) h

  tried_last :
      (retry : ℕ) (t : Try A) (rest : Run attempt)
      → attempt retry ≡ t
      → IsRun 0 retry (on_try attempt t false 0 rest)
  tried_last retry (value a) rest e = stops 0 retry (ok a) (rw e refl)
  tried_last retry (permanent x) rest e = stops 0 retry (err false x) (rw e refl)
  tried_last retry (transient x) rest e = stops 0 retry (err true x) (rw e (refl, refl))

  retry_loop-IsRun : (left retry : ℕ) → IsRun left retry (retry_loop attempt left retry)
  unfolding retry_loop
  retry_loop-IsRun zero retry = tried_last retry (attempt retry) _ refl
  retry_loop-IsRun (suc left) retry =
      tried_once left retry (attempt retry) (retry_loop attempt left (suc retry)) refl
        (retry_loop-IsRun left (suc retry))

  -- A download makes at most one try more than there are retries. Every try but the last failed
  -- in a way that may pass; the result is the last one's value or error, and retries are given up
  -- only when all were used. In all it waits at least 2 and at most 16 seconds for each retry.
  pub with_retries-IsRun : (retries : ℕ) → IsRun retries 0 (with_retries attempt retries)
  unfolding with_retries
  with_retries-IsRun retries = retry_loop-IsRun retries 0
