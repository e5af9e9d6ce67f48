-- ===== src/Idempotency/Tests.antt =====
-- Witnesses for the idempotency keys.
use aether_x.Prelude.{◌≡◌, refl, [], none}
use aether_x.Prelude.Text.{Text, codes}
use aether_x.Idempotency.Store.{
  IdempotencyResult, IdempotencyStore, answer, check, record_result, restarted,
}

abbrev created : IdempotencyResult
created = record { status = 201; body = 5 }

abbrev replaced : IdempotencyResult
replaced = record { status = 200; body = 6 }

abbrev unused : IdempotencyStore
unused = record { redis = []; idempotency_keys = [] }

abbrev key : Text
key = codes "order-key-1"

-- An expired row keeps its key: what is recorded later is lost with Redis.
blocked :
    (check 120 key
      (restarted (record_result 110 key replaced 50 (record_result 0 key created 100 unused)))).0
    ≡ answer none
unfolding check record_result
blocked = refl
