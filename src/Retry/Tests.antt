-- ===== src/Retry/Tests.antt =====
-- Witnesses for the retry queue: one job whose handler fails, on its last attempt but one.
use aether_x.Prelude.{◌≡◌, refl, arith, [], ◌∷◌, none, some, true}
use aether_x.Retry.Queue.{
  RetryJob, RetryQueue, settle_trade_job, failed, backoff, process_job, process_each,
  process_due_jobs,
}
use aether_x.Retry.Budget.{IsRetryQueue, process_due_jobs-IsRetryQueue}
use aether_x.Retry.Exhaust.{alone, polls, always_failed, polls-always_failed}

abbrev job : RetryJob
job = record {
  id = 1;
  job_type = settle_trade_job;
  payload = 9;
  attempts = 1;
  max_attempts = 3;
  next_retry_at = 50;
  error = none;
  created_at = 40;
}

abbrev waiting : RetryQueue
waiting = record { queue = job ∷ []; dlq = []; dead_letter_events = [] }

retried : process_due_jobs (λ j. true) (λ j. failed 4) 60 waiting ≡ record waiting {
  queue = record job { attempts = 2; error = some 4; next_retry_at = 2060 } ∷ [];
}
unfolding process_due_jobs process_each process_job backoff
retried = refl

process_due_jobs-IsRetryQueue_example :
    IsRetryQueue (process_due_jobs (λ j. true) (λ j. failed 4) 60 waiting)
process_due_jobs-IsRetryQueue_example =
    process_due_jobs-IsRetryQueue (λ j. true) (λ j. failed 4) 60 waiting
      (record { sorted = (omega arith, tt); budget = (omega arith, tt); trimmed = omega arith })

polls-always_failed_example :
    let s = polls (λ j. true) (always_failed (λ j. true) 4) 2 60 (alone job) in
    (s.queue ≡ [])
    × ((last : RetryJob) × (s.dlq ≡ last ∷ [])
        × (s.dead_letter_events ≡ last ∷ [])
        × (last.id ≡ 1)
        × (last.attempts ≡ 3))
polls-always_failed_example = polls-always_failed (λ j. true) 4 1 60 job refl (omega arith)
