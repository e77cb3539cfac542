-- ===== src/WorkQueue/Exclusive/Tests.antt =====
-- A run of a queue on the least server.
use archipelago_xl.Base.{none, []}
use archipelago_xl.WorkQueue.Status.{normal, priority_score, priority_of_score}
use archipelago_xl.WorkQueue.Redis.Memory.{Memory}
use archipelago_xl.WorkQueue.Keys.{WorkQueue, queue_of, normalize, pending_key, get_job_key}
use archipelago_xl.WorkQueue.Jobs.{enqueue_job_in}
use archipelago_xl.WorkQueue.Claiming.{claim_job_in, next_job}
use archipelago_xl.WorkQueue.Sweep.{reclaim_round}
use archipelago_xl.WorkQueue.Tests.{s, builder, nothing_stored}

-- a job that the first worker loses, and the second one is given
abbrev fast : WorkQueue
fast = queue_of (record builder { reclaim_timeout = 30 })

unfoldable enqueued : Memory
unfolding enqueue_job_in normalize queue_of
enqueued = (enqueue_job_in s fast none "game: X" normal 900 "job" 100 100 nothing_stored).1

unfoldable taken : Memory
unfolding enqueued claim_job_in next_job pending_key priority_of_score priority_score get_job_key
    queue_of
taken = (claim_job_in s fast none "w1" (λ f. 200) [] 200 enqueued).1

unfoldable lost : Memory
unfolding taken reclaim_round queue_of
lost = reclaim_round s fast 240 taken

unfoldable given_again : Memory
unfolding lost claim_job_in next_job pending_key priority_of_score priority_score get_job_key
    queue_of
given_again = (claim_job_in s fast none "w2" (λ f. 250) [] 250 lost).1
