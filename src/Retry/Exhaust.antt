-- ===== src/Retry/Exhaust.antt =====
-- A job whose handler always fails.
use aether_x.Prelude.{
  ℕ, zero, suc, ◌+◌, ◌≡◌, refl, ◌≤◌, [], ◌∷◌, some, true, false, ◌∙◌, ap, arith, leb, Bool,
  if◌then◌else◌,
}
use aether_x.Retry.Queue.{
  RetryJob, RetryQueue, Run, failed, backoff, same_job, retry_or_bury, send_to_dead_letter,
  process_job, process_each, process_due_jobs,
}
use aether_x.Retry.Budget.{backoff_bounds}

-- A queue of one job.
abbrev pub alone : RetryJob → RetryQueue
alone job = record { queue = job ∷ []; dlq = []; dead_letter_events = [] }

abbrev pub nothing : RetryQueue
nothing = record { queue = []; dlq = []; dead_letter_events = [] }

-- A poll every thirty seconds, from a time on.
abbrev pub polls : (RetryJob → Bool) → (RetryJob → Run) → ℕ → ℕ → RetryQueue → RetryQueue
polls takes_row run zero now s = s
polls takes_row run (suc n) now s =
    polls takes_row run n (now + 30000) (process_due_jobs takes_row run now s)

module _ (takes_row : RetryJob → Bool) (e : ℕ) where
  abbrev pub always_failed : RetryJob → Run
  always_failed j = failed e

  abbrev tried : RetryJob → RetryJob
  tried job = record job { attempts = suc job.attempts; error = some e }

  one_poll :
      (now : ℕ) (job : RetryJob)
      → job.next_retry_at ≤ now
      → process_due_jobs takes_row always_failed now (alone job)
        ≡ retry_or_bury takes_row now (tried job) nothing
  unfolding process_due_jobs process_each process_job
  one_poll now job due =
      let is_due : leb job.next_retry_at now ≡ true = ground arith in
      let same : same_job job job ≡ true = ground arith in rw is_due (rw same refl)

  -- Polled every thirty seconds from when it is due, a job alone in the queue whose handler always
  -- fails is gone from the queue after as many polls as it has attempts left, and is the one dead
  -- letter in Redis, with all its attempts used; it is also the one row in PostgreSQL where that takes
  -- it, and there is no row where it does not.
  pub polls-always_failed :
      (k now : ℕ) (job : RetryJob)
      → job.max_attempts ≡ suc (k + job.attempts)
      → job.next_retry_at ≤ now
      → let s = polls takes_row always_failed (suc k) now (alone job) in
        (s.queue ≡ [])
        × ((last : RetryJob) × (s.dlq ≡ last ∷ [])
            × (s.dead_letter_events ≡ (if takes_row last then last ∷ [] else []))
            × (last.id ≡ job.id)
            × (last.attempts ≡ job.max_attempts))
  unfolding send_to_dead_letter
  polls-always_failed zero now job m due =
      let spent : leb job.max_attempts (suc job.attempts) ≡ true = ground arith in
      rw (one_poll now job due) (rw spent (refl, (tried job, refl, refl, refl, omega arith)))
  polls-always_failed (suc k) now job m due =
      let left : leb job.max_attempts (suc job.attempts) ≡ false = ground arith in
      let later : RetryJob = record (tried job) {
        next_retry_at = now + backoff (suc job.attempts);
      } in
      let again : retry_or_bury takes_row now (tried job) nothing ≡ alone later = rw left refl in
      let step : polls takes_row always_failed (suc (suc k)) now (alone job)
          ≡ polls takes_row always_failed (suc k) (now + 30000) (alone later) =
        ap (polls takes_row always_failed (suc k) (now + 30000)) (one_poll now job due ∙ again) in
      rw step (
        polls-always_failed k (now + 30000) later (omega arith)
          (omega (arith, (backoff_bounds (suc job.attempts)).1)))
