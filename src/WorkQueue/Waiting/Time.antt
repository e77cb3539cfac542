-- ===== src/WorkQueue/Waiting/Time.antt =====
-- How long the loop of `wait_for_job` waits.
use archipelago_xl.Base.{
  ℕ, ◌+◌, ◌-◌, ◌≤◌, ◌<◌, String, ◌≡◌, ◌⊎◌, inl, inr, Option, none, List, [], ◌∷◌, ◌++◌, ◌∙◌, ap,
  arith, All,
}
use archipelago_xl.WorkQueue.Keys.{WorkQueue}
use archipelago_xl.WorkQueue.Store.{ok, Services}
use archipelago_xl.WorkQueue.Waiting.{Push, push, skip, read_push, wait_loop}

abbrev pub total : List Push → ℕ
total [] = 0
total (p ∷ pushes) = p.elapsed + total pushes

zero_sub : (n : ℕ) → n - 0 ≡ n
zero_sub n = omega arith

module _ {P R : Type 0} (s : Services P R) (q : WorkQueue) (channel_name : String) where
  -- a message that is not about the job
  pub data IsIrrelevant : Push → Type 0 where
    irrelevant :
        (p : Push) (is_message : _) (channel : Option String) (raw : _)
        → p.received ≡ push is_message channel raw
        → read_push s q channel_name is_message channel raw ≡ skip
        → IsIrrelevant p

  skip_one :
      (p : Push) (rest : List Push) (remaining_time : ℕ) (d : s.redis.Db)
      → IsIrrelevant p
      → ((p.elapsed ≤ remaining_time)
          × (wait_loop s q channel_name (p ∷ rest) remaining_time d
              ≡ wait_loop s q channel_name rest (remaining_time - p.elapsed) d))
        ⊎ ((remaining_time < p.elapsed)
            × (wait_loop s q channel_name (p ∷ rest) remaining_time d ≡ (ok none, d)))
  unfolding wait_loop
  skip_one p rest remaining_time d (irrelevant _ m c raw e v) = ground arith

  -- Messages that are not about the job use up the time that is left: each takes the time since
  -- the START of the wait. So the wait goes on after them, with what is left, if the sum of these
  -- times fits in the time that is left, and else ends with no status.
  pub wait_loop_skips :
      (pushes rest : List Push) (remaining_time : ℕ) (d : s.redis.Db)
      → All IsIrrelevant pushes
      → ((total pushes ≤ remaining_time)
          × (wait_loop s q channel_name (pushes ++ rest) remaining_time d
              ≡ wait_loop s q channel_name rest (remaining_time - total pushes) d))
        ⊎ ((remaining_time < total pushes)
            × (wait_loop s q channel_name (pushes ++ rest) remaining_time d ≡ (ok none, d)))
  wait_loop_skips [] rest remaining_time d h = inl (omega arith, rw (zero_sub remaining_time))
  wait_loop_skips (p ∷ pushes) rest remaining_time d (h, hs) =
      elim (skip_one p (pushes ++ rest) remaining_time d h) [
        | inr (late, e) ↦ inr (omega arith, e)
        | inl (early, e) ↦ elim (wait_loop_skips pushes rest (remaining_time - p.elapsed) d hs) [
          | inl (fits, e') ↦
              inl
                (omega arith, e ∙ e' ∙ ap (λ t. wait_loop s q channel_name rest t d) (omega arith))
          | inr (late, e') ↦ inr (omega arith, e ∙ e')
        ]
      ]
