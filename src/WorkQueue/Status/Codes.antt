-- ===== src/WorkQueue/Status/Codes.antt =====
-- The numbers that statuses and priorities are stored as.
use archipelago_xl.Base.{ℕ, ◌<◌, ◌≡◌, ◌↔◌, some, arith}
use archipelago_xl.Base.Int.{ℤ, pos, negsuc}
use archipelago_xl.WorkQueue.Status.{
  Priority, priority_score, priority_of_score, JobStatus, status_code, status_of_code,
}

-- A number reads as a status exactly if it is that status's number.
pub status_of_code_iff :
    (n : ℕ) (st : JobStatus) → (status_of_code n ≡ some st) ↔ (status_code st ≡ n)
unfolding status_of_code status_code
status_of_code_iff n st = ground arith

-- A score reads as a priority exactly if it is that priority's score.
pub priority_of_score_iff :
    (v : ℤ) (p : Priority) → (priority_of_score v ≡ some p) ↔ (priority_score p ≡ v)
unfolding priority_of_score priority_score
priority_of_score_iff (pos n) p = ground arith
priority_of_score_iff (negsuc n) p = ground arith

pub status_code-lt : (st : JobStatus) → status_code st < 256
unfolding status_code
status_code-lt st = ground arith
