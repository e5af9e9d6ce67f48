-- ===== src/Retry/Budget.antt =====
-- The attempts of queued jobs and the length of the list of dead letters.
use aether_x.Prelude.{
  ℕ, zero, suc, ◌-◌, min, ◌≤◌, ◌<◌, inl, inr, List, [], ◌∷◌, Bool, not, any, keep, length, All,
  All-keep, length-take, arith, leb, Bool-cases,
}
use aether_x.Retry.Queue.{
  RetryJobType, RetryJob, RetryQueue, Run, no_handler, completed, failed, backoff, backoff_delays,
  element_or_zero, is_before, zadd, enqueue, send_to_dead_letter, retry_or_bury, end_run, same_job,
  process_job, process_each, due_jobs, process_due_jobs,
}

-- A queued job has an attempt left.
abbrev pub HasBudget : RetryJob → Type 0
HasBudget j = j.attempts < j.max_attempts

-- The set is sorted by score.
abbrev pub IsSorted : ℕ → List RetryJob → Type 0
IsSorted low [] = Unit
IsSorted low (j ∷ js) = (low ≤ j.next_retry_at) × IsSorted j.next_retry_at js

pub record IsRetryQueue (s : RetryQueue) : Type 0 where
  pub sorted : IsSorted 0 s.queue
  pub budget : All HasBudget s.queue
  pub trimmed : length s.dlq ≤ 1000

zadd-All :
    (job : RetryJob) (js : List RetryJob)
    → HasBudget job
    → All HasBudget js
    → All HasBudget (zadd job js)
zadd-All job [] b h = (b, tt)
zadd-All job (j ∷ js) b h = ground (arith, zadd-All job js b h.1)

zadd-IsSorted :
    (low : ℕ) (job : RetryJob) (js : List RetryJob)
    → low ≤ job.next_retry_at
    → IsSorted low js
    → IsSorted low (zadd job js)
zadd-IsSorted low job [] b h = (b, tt)
zadd-IsSorted low job (j ∷ js) b h = elim (Bool-cases (is_before j job)) [
  | inl before ↦ rw before (h.0, zadd-IsSorted j.next_retry_at job js (ground (arith, before)) h.1)
  | inr after ↦ rw after (b, (ground (arith, after), h.1))
]

IsSorted-from :
    (low low' : ℕ) (js : List RetryJob) → low ≤ low' → IsSorted low' js → IsSorted low js
IsSorted-from low low' [] le h = tt
IsSorted-from low low' (j ∷ js) le h = (omega arith, h.1)

keep-IsSorted :
    (f : RetryJob → Bool) (low : ℕ) (js : List RetryJob)
    → IsSorted low js
    → IsSorted low (keep f js)
keep-IsSorted f low [] h = tt
keep-IsSorted f low (j ∷ js) h = elim (Bool-cases (f j)) [
  | inl kept ↦ rw kept (h.0, keep-IsSorted f j.next_retry_at js h.1)
  | inr left ↦
      rw left (IsSorted-from low j.next_retry_at _ h.0 (keep-IsSorted f j.next_retry_at js h.1))
]

-- `enqueue` with a budget of at least one attempt keeps the queue.
pub enqueue-IsRetryQueue :
    (now : ℕ) (type : RetryJobType) (id payload max_attempts delay : ℕ) (s : RetryQueue)
    → 0 < max_attempts
    → IsRetryQueue s
    → IsRetryQueue (enqueue now type id payload max_attempts delay s)
unfolding enqueue
enqueue-IsRetryQueue now type id payload max_attempts delay s m h = record {
  sorted = zadd-IsSorted 0 _ s.queue (omega arith) h.sorted;
  budget = zadd-All _ s.queue m h.budget;
  trimmed = h.trimmed;
}

module _ (takes_row : RetryJob → Bool) where
  send_to_dead_letter-IsRetryQueue :
      (job : RetryJob) (s : RetryQueue)
      → IsRetryQueue s
      → IsRetryQueue (send_to_dead_letter takes_row job s)
  unfolding send_to_dead_letter
  send_to_dead_letter-IsRetryQueue job s h = record {
    sorted = h.sorted;
    budget = h.budget;
    trimmed = omega (arith, length-take 1000 (job ∷ s.dlq));
  }

  retry_or_bury-IsRetryQueue :
      (now : ℕ) (job : RetryJob) (s : RetryQueue)
      → IsRetryQueue s
      → IsRetryQueue (retry_or_bury takes_row now job s)
  retry_or_bury-IsRetryQueue now job s h = elim (Bool-cases (leb job.max_attempts job.attempts)) [
    | inl spent ↦ rw spent (send_to_dead_letter-IsRetryQueue job s h)
    | inr left ↦ rw left (record {
      sorted = zadd-IsSorted 0 _ s.queue (omega arith) h.sorted;
      budget = zadd-All _ s.queue (ground (arith, left)) h.budget;
      trimmed = h.trimmed;
    })
  ]

  module _ (run : RetryJob → Run) (now : ℕ) where
    end_run-IsRetryQueue :
        (r : Run) (job : RetryJob) (s : RetryQueue)
        → IsRetryQueue s
        → IsRetryQueue (end_run takes_row now r job s)
    end_run-IsRetryQueue no_handler job s h = send_to_dead_letter-IsRetryQueue job s h
    end_run-IsRetryQueue completed job s h = h
    end_run-IsRetryQueue (failed e) job s h = retry_or_bury-IsRetryQueue now _ s h

    process_each-IsRetryQueue :
        (jobs : List RetryJob) (s : RetryQueue)
        → IsRetryQueue s
        → IsRetryQueue (process_each takes_row run now jobs s)
    unfolding process_each process_job
    process_each-IsRetryQueue [] s h = h
    process_each-IsRetryQueue (job ∷ jobs) s h = elim (Bool-cases (any (same_job job) s.queue)) [
      | inl claimed ↦
          let claim = λ (j : RetryJob). not (same_job job j) in
          rw claimed (
            process_each-IsRetryQueue jobs _ (
              end_run-IsRetryQueue (run job) job _ (record {
                sorted = keep-IsSorted claim 0 s.queue h.sorted;
                budget = All-keep HasBudget claim s.queue h.budget;
                trimmed = h.trimmed;
              })))
      | inr gone ↦ rw gone (process_each-IsRetryQueue jobs s h)
    ]

    -- Whatever the handlers do, processing the due jobs keeps the set sorted by score, leaves only jobs
    -- with an attempt left in it, and keeps at most 1000 dead letters.
    pub process_due_jobs-IsRetryQueue :
        (s : RetryQueue) → IsRetryQueue s → IsRetryQueue (process_due_jobs takes_row run now s)
    unfolding process_due_jobs
    process_due_jobs-IsRetryQueue s h = process_each-IsRetryQueue (due_jobs takes_row run now s) s h

delay_bounds :
    (k : ℕ)
    → k ≤ 7
    → (1000 ≤ element_or_zero backoff_delays k) × (element_or_zero backoff_delays k ≤ 30000)
delay_bounds zero h = (omega arith, omega arith)
delay_bounds (suc zero) h = (omega arith, omega arith)
delay_bounds (suc (suc zero)) h = (omega arith, omega arith)
delay_bounds (suc (suc (suc zero))) h = (omega arith, omega arith)
delay_bounds (suc (suc (suc (suc zero)))) h = (omega arith, omega arith)
delay_bounds (suc (suc (suc (suc (suc zero))))) h = (omega arith, omega arith)
delay_bounds (suc (suc (suc (suc (suc (suc zero)))))) h = (omega arith, omega arith)
delay_bounds (suc (suc (suc (suc (suc (suc (suc zero))))))) h = (omega arith, omega arith)
delay_bounds (suc (suc (suc (suc (suc (suc (suc (suc k)))))))) h = absurd (omega arith)

-- A retry waits at least one second and at most thirty, after any number of attempts.
pub backoff_bounds : (n : ℕ) → (1000 ≤ backoff n) × (backoff n ≤ 30000)
unfolding backoff
backoff_bounds n = delay_bounds (min (n - 1) 7) (omega arith)
