-- ===== src/Idempotency/Store.antt =====
-- `class IdempotencyStore` of backend/src/services/idempotencyStore.ts. Redis is a map whose entries
-- expire, PostgreSQL a table keyed by the key; `now` is the time of a call, in seconds. An entry that
-- does not parse, and a query that fails, are left out.
use aether_x.Prelude.{
  ℕ, ◌+◌, ◌≡◌, ◌<◌, refl, List, [], ◌∷◌, ◌++◌, Option, none, some, Bool, false, not, any, keep,
  length, arith, ltb, leb, ◌||◌, if◌then◌else◌,
}
use aether_x.Prelude.Text.{Text, text_eq, text_eq_refl}

pub record IdempotencyResult : Type 0 where
  pub status : ℕ
  pub body : ℕ

pub record StoredResult : Type 0 where
  pub key : Text
  pub result : IdempotencyResult
  pub expires_at : ℕ

pub record IdempotencyStore : Type 0 where
  pub redis : List StoredResult
  pub idempotency_keys : List StoredResult

-- `DEFAULT_TTL_SECONDS`
abbrev pub default_ttl : ℕ
default_ttl = 86400

-- The entry of a key that is alive: `GET` in Redis, `expires_at > NOW()` in PostgreSQL.
abbrev pub live : ℕ → Text → List StoredResult → Option IdempotencyResult
live now key [] = none
live now key (r ∷ rs) =
    if text_eq r.key key
    then (if ltb now r.expires_at then some r.result else none)
    else live now key rs

-- `SETEX`
abbrev pub setex : StoredResult → List StoredResult → List StoredResult
setex r rs = r ∷ keep (λ s. not (text_eq s.key r.key)) rs

-- `INSERT ... ON CONFLICT (key) DO NOTHING`
abbrev pub insert_key : StoredResult → List StoredResult → List StoredResult
insert_key r rs = if any (λ s. text_eq s.key r.key) rs then rs else rs ++ r ∷ []

pub data Checked : Type 0 where
  bad_key : Checked
  answer : Option IdempotencyResult → Checked

abbrev pub is_bad_key : Text → Bool
is_bad_key key = ltb (length key) 8 || ltb 255 (length key)

-- The slow path: a hit is put into Redis again.
abbrev pub check_table :
    ℕ → Text → Option IdempotencyResult → IdempotencyStore → Checked × IdempotencyStore
check_table now key none s = (answer none, s)
check_table now key (some r) s = (
  answer (some r),
  record s {
    redis = setex (record { key = key; result = r; expires_at = now + default_ttl }) s.redis;
  },
)

abbrev pub check_cache :
    ℕ → Text → Option IdempotencyResult → IdempotencyStore → Checked × IdempotencyStore
check_cache now key (some r) s = (answer (some r), s)
check_cache now key none s = check_table now key (live now key s.idempotency_keys) s

-- `check`
unfoldable pub check : ℕ → Text → IdempotencyStore → Checked × IdempotencyStore
check now key s =
    if is_bad_key key then (bad_key, s) else check_cache now key (live now key s.redis) s

-- `record`, with both writes done.
unfoldable pub record_result :
    ℕ → Text → IdempotencyResult → ℕ → IdempotencyStore → IdempotencyStore
record_result now key result ttl s =
    let r : StoredResult = record { key = key; result = result; expires_at = now + ttl } in
    record { redis = setex r s.redis; idempotency_keys = insert_key r s.idempotency_keys }

-- `cleanup`, with the number of rows it deletes.
abbrev pub cleanup : ℕ → IdempotencyStore → ℕ × IdempotencyStore
cleanup now s = (
  length (keep (λ r. leb r.expires_at now) s.idempotency_keys),
  record s { idempotency_keys = keep (λ r. ltb now r.expires_at) s.idempotency_keys },
)

-- Redis without its entries, as after a restart.
abbrev pub restarted : IdempotencyStore → IdempotencyStore
restarted s = record s { redis = [] }

live-insert_key :
    (now : ℕ) (r : StoredResult) (rs : List StoredResult)
    → any (λ (s : StoredResult). text_eq s.key r.key) rs ≡ false
    → now < r.expires_at
    → live now r.key (rs ++ r ∷ []) ≡ some r.result
live-insert_key now r [] u h = ground (arith, text_eq_refl r.key)
live-insert_key now r (s ∷ rs) u h = ground (arith, live-insert_key now r rs)

-- A key of a legal length that has no row yet is answered with what was recorded for it, until its
-- time to live is over, also after a restart of Redis.
check-record_result :
    (now later : ℕ) (key : Text) (result : IdempotencyResult) (ttl : ℕ) (s : IdempotencyStore)
    → is_bad_key key ≡ false
    → any (λ (r : StoredResult). text_eq r.key key) s.idempotency_keys ≡ false
    → later < now + ttl
    → let t = record_result now key result ttl s in
      ((check later key t).0 ≡ answer (some result))
      × ((check later key (restarted t)).0 ≡ answer (some result))
unfolding check record_result
check-record_result now later key result ttl s good new h =
    let r : StoredResult = record { key = key; result = result; expires_at = now + ttl } in
    let hit : live later key (setex r s.redis) ≡ some result = ground (arith, text_eq_refl key) in
    let stored : live later key (insert_key r s.idempotency_keys) ≡ some result =
      rw new (live-insert_key later r s.idempotency_keys new h) in
    rw good (rw hit (rw stored (refl, refl)))
