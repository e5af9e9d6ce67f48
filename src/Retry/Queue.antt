-- ===== src/Retry/Queue.antt =====
-- `class RetryQueue` of backend/src/services/retryQueue.ts. The sorted set is the list of its jobs by
-- score, those of one score by the text of the job, which begins with its id: the ids are numbers in
-- the order of their texts. All the times of one call are one `now`, in milliseconds.
use aether_x.Prelude.{
  ℕ, zero, suc, ◌+◌, ◌-◌, min, List, [], ◌∷◌, ◌++◌, Option, none, some, Bool, not, ◌&&◌, any, keep,
  take, length, leb, ltb, ◌||◌, ◌==◌, if◌then◌else◌,
}

pub data RetryJobType : Type 0 where
  settle_trade_job lock_escrow_job release_escrow_job : RetryJobType
  publish_event_job strategy_execute_job reconciliation_run_job : RetryJobType

-- The payload and the error text are numbers here: they are only handed on.
pub record RetryJob : Type 0 where
  pub id : ℕ
  pub job_type : RetryJobType
  pub payload : ℕ
  pub attempts : ℕ
  pub max_attempts : ℕ
  pub next_retry_at : ℕ
  pub error : Option ℕ
  pub created_at : ℕ

-- The sorted set, the list of dead letters in Redis, and their table in PostgreSQL.
pub record RetryQueue : Type 0 where
  pub queue : List RetryJob
  pub dlq : List RetryJob
  pub dead_letter_events : List RetryJob

-- `BACKOFF_DELAYS_MS`
abbrev pub backoff_delays : List ℕ
backoff_delays = 1000 ∷ 2000 ∷ 3000 ∷ 5000 ∷ 8000 ∷ 13000 ∷ 21000 ∷ 30000 ∷ []

abbrev pub element_or_zero : List ℕ → ℕ → ℕ
element_or_zero [] n = 0
element_or_zero (x ∷ xs) zero = x
element_or_zero (x ∷ xs) (suc n) = element_or_zero xs n

unfoldable pub backoff : ℕ → ℕ
backoff attempts = element_or_zero backoff_delays (min (attempts - 1) (length backoff_delays - 1))

-- The order of the sorted set.
abbrev pub is_before : RetryJob → RetryJob → Bool
is_before j k =
    ltb j.next_retry_at k.next_retry_at || j.next_retry_at == k.next_retry_at && ltb j.id k.id

-- `zadd`, of a job that is not in the set
abbrev pub zadd : RetryJob → List RetryJob → List RetryJob
zadd job [] = job ∷ []
zadd job (j ∷ js) = if is_before j job then j ∷ zadd job js else job ∷ j ∷ js

unfoldable pub enqueue : ℕ → RetryJobType → ℕ → ℕ → ℕ → ℕ → RetryQueue → RetryQueue
enqueue now type id payload max_attempts delay s = record s {
  queue =
      zadd
        (record {
          id = id;
          job_type = type;
          payload = payload;
          attempts = 0;
          max_attempts = max_attempts;
          next_retry_at = now + delay;
          error = none;
          created_at = now;
        })
        s.queue;
}

-- How a handler ends.
pub data Run : Type 0 where
  no_handler completed : Run
  failed : ℕ → Run

-- `takes_row` says whether PostgreSQL takes the row of a dead letter; that it does not is only logged.
module _ (takes_row : RetryJob → Bool) where
  -- `lpush` and `ltrim` to the last 1000, and the row in PostgreSQL.
  unfoldable pub send_to_dead_letter : RetryJob → RetryQueue → RetryQueue
  send_to_dead_letter job s = record s {
    dlq = take 1000 (job ∷ s.dlq);
    dead_letter_events =
        if takes_row job then s.dead_letter_events ++ job ∷ [] else s.dead_letter_events;
  }

  -- The `catch` of `processJob`, on the job with its attempt counted and its error set.
  abbrev pub retry_or_bury : ℕ → RetryJob → RetryQueue → RetryQueue
  retry_or_bury now job s =
      if leb job.max_attempts job.attempts then send_to_dead_letter job s else record s {
        queue = zadd (record job { next_retry_at = now + backoff job.attempts }) s.queue;
      }

  abbrev pub end_run : ℕ → Run → RetryJob → RetryQueue → RetryQueue
  end_run now no_handler job s = send_to_dead_letter job s
  end_run now completed job s = s
  end_run now (failed e) job s =
      retry_or_bury now (record job { attempts = suc job.attempts; error = some e }) s

-- The raw text of a job is its identity and its attempt.
abbrev pub same_job : RetryJob → RetryJob → Bool
same_job j k = j.id == k.id && j.attempts == k.attempts

-- `run` is what the registered handlers do.
module _ (takes_row : RetryJob → Bool) (run : RetryJob → Run) (now : ℕ) where
  unfoldable pub process_job : RetryJob → RetryQueue → RetryQueue
  process_job job s = end_run takes_row now (run job) job s

  -- The loop over the claimed jobs: `zrem` says whether the job was still there.
  unfoldable pub process_each : List RetryJob → RetryQueue → RetryQueue
  process_each [] s = s
  process_each (job ∷ jobs) s = process_each jobs (
      if any (same_job job) s.queue
      then process_job job (record s { queue = keep (λ j. not (same_job job j)) s.queue })
      else s)

  -- `zrangebyscore(key, 0, now, 'LIMIT', 0, 10)`
  abbrev pub due_jobs : RetryQueue → List RetryJob
  due_jobs s = take 10 (keep (λ j. leb j.next_retry_at now) s.queue)

  unfoldable pub process_due_jobs : RetryQueue → RetryQueue
  process_due_jobs s = process_each (due_jobs s) s

-- `getQueueDepth`
abbrev pub get_queue_depth : RetryQueue → ℕ × ℕ
get_queue_depth s = (length s.queue, length s.dlq)

-- `getDeadLetterEntries`
abbrev pub get_dead_letter_entries : ℕ → RetryQueue → List RetryJob
get_dead_letter_entries limit s = take limit s.dlq
