-- ===== src/Apwm/Retries.antt =====
-- apwm/src/index/world.rs: `retry_delay` and `with_retries`. What the tries give is a function of
-- their number, from 0; times are in seconds.
pub mod Laws
use archipelago_xl.Base.{
  ℕ, zero, suc, ◌+◌, ◌-◌, ◌*◌, ◌^◌, ◌≤◌, ◌<◌, ◌≡◌, refl, ap, sym, ◌∙◌, String, Bool, true, false,
  Option, none, some, arith, ltb, leb, if◌then◌else◌, Bool-cases, inl, inr, ◌⊎◌,
}

pub data Try (A : Type 0) : Type 0 where
  value : A → Try A
  transient permanent : String → Try A

pub data Tried (A : Type 0) : Type 0 where
  ok : A → Tried A
  -- the last error, and whether it is said that the retries were used up
  err : (gave_up : Bool) → String → Tried A

abbrev pub min : ℕ → ℕ → ℕ
min a b = if leb a b then a else b

-- `2u32.saturating_pow` of `saturating_sub`; the product is far from overflowing a `Duration`
unfoldable pub retry_delay : ℕ → ℕ
retry_delay retry = min (2 * min (2 ^ (retry - 1)) (2 ^ 32 - 1)) 16

module _ {A : Type 0} (attempt : ℕ → Try A) where
  -- the result, how many tries were made and how long was waited
  pub record Run : Type 0 where
    pub result : Tried A
    pub tries : ℕ
    pub waited : ℕ

  abbrev one_try : Tried A → Run
  one_try r = record { result = r; tries = 1; waited = 0 }

  abbrev after_wait : ℕ → Run → Run
  after_wait delay run = record run { tries = suc run.tries; waited = delay + run.waited }

  abbrev on_try : Try A → Bool → ℕ → Run → Run
  on_try (value a) more delay rest = one_try (ok a)
  on_try (permanent e) more delay rest = one_try (err false e)
  on_try (transient e) false delay rest = one_try (err true e)
  on_try (transient e) true delay rest = after_wait delay rest

  -- the loop, from the try that is retry number `retry`, with `left` retries left
  unfoldable pub retry_loop : (left retry : ℕ) → Run
  retry_loop zero retry = on_try (attempt retry) false 0 (one_try (err true ""))
  retry_loop (suc left) retry =
      let rest = retry_loop left (suc retry) in
      on_try (attempt retry) true (retry_delay (suc retry)) rest

  unfoldable pub with_retries : (retries : ℕ) → Run
  with_retries retries = retry_loop retries 0
