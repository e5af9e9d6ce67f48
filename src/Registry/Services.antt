-- ===== src/Registry/Services.antt =====
-- `class ServiceRegistry` of backend/src/services/serviceRegistry.ts. Names, times and messages are
-- numbers; `now` is the time of a call. The metadata is left out: nothing reads it.
use aether_x.Prelude.{
  ℕ, suc, ◌≡◌, refl, sym, ◌∙◌, List, [], ◌∷◌, map, Option, none, some, Bool, true, false, any,
  arith, ◌==◌, if◌then◌else◌,
}

pub data ServiceStatus : Type 0 where
  starting healthy degraded unhealthy stopped : ServiceStatus

pub record ServiceRegistration : Type 0 where
  pub name : ℕ
  pub status : ServiceStatus
  pub started_at : ℕ
  pub last_heartbeat : ℕ
  pub error_count : ℕ
  pub last_error : Option ℕ

-- `services.set(name, ...)`: a key that is there keeps its place.
abbrev pub set_service : ServiceRegistration → List ServiceRegistration → List ServiceRegistration
set_service r [] = r ∷ []
set_service r (s ∷ ss) =
    let rest = set_service r ss in if s.name == r.name then r ∷ ss else s ∷ rest

abbrev pub register : ℕ → ℕ → List ServiceRegistration → List ServiceRegistration
register now name = set_service (record {
  name = name;
  status = starting;
  started_at = now;
  last_heartbeat = now;
  error_count = 0;
  last_error = none;
})

-- `services.get(name)`, and the object that is there changed.
abbrev pub change :
    ℕ
    → (ServiceRegistration → ServiceRegistration)
    → List ServiceRegistration
    → List ServiceRegistration
change name f = map (λ s. if s.name == name then f s else s)

abbrev pub mark_healthy : ℕ → ℕ → List ServiceRegistration → List ServiceRegistration
mark_healthy now name = change name (λ s. record s { status = healthy; last_heartbeat = now })

abbrev pub mark_degraded : ℕ → ℕ → ℕ → List ServiceRegistration → List ServiceRegistration
mark_degraded now name reason = change name (λ s. record s {
  status = degraded;
  last_heartbeat = now;
  last_error = some reason;
  error_count = suc s.error_count;
})

abbrev pub mark_unhealthy : ℕ → ℕ → List ServiceRegistration → List ServiceRegistration
mark_unhealthy name error =
    change name (λ s. record s {
      status = unhealthy;
      last_error = some error;
      error_count = suc s.error_count;
    })

-- A degraded service that beats again is healthy.
abbrev pub recover : ServiceStatus → ServiceStatus
recover degraded = healthy
recover starting = starting
recover healthy = healthy
recover unhealthy = unhealthy
recover stopped = stopped

abbrev pub heartbeat : ℕ → ℕ → List ServiceRegistration → List ServiceRegistration
heartbeat now name = change name (λ s. record s { last_heartbeat = now; status = recover s.status })

abbrev pub is_unhealthy : ServiceStatus → Bool
is_unhealthy unhealthy = true
is_unhealthy _ = false

abbrev pub is_degraded : ServiceStatus → Bool
is_degraded degraded = true
is_degraded starting = true
is_degraded _ = false

-- `overallStatus` of `getHealth`.
abbrev pub get_health : List ServiceRegistration → ServiceStatus
get_health ss =
    if any (λ s. is_unhealthy s.status) ss
    then unhealthy
    else if any (λ s. is_degraded s.status) ss
    then degraded
    else healthy

-- `getSummary`
abbrev pub get_summary : List ServiceRegistration → List (ℕ × ServiceStatus)
get_summary = map (λ s. (s.name, s.status))

-- The heartbeats of some services, each with its time.
abbrev pub heartbeats : List (ℕ × ℕ) → List ServiceRegistration → List ServiceRegistration
heartbeats [] ss = ss
heartbeats ((now, name) ∷ bs) ss = heartbeats bs (heartbeat now name ss)

heartbeat-unhealthy :
    (now name : ℕ) (ss : List ServiceRegistration)
    → any (λ (s : ServiceRegistration). is_unhealthy s.status) (heartbeat now name ss)
      ≡ any (λ (s : ServiceRegistration). is_unhealthy s.status) ss
heartbeat-unhealthy now name [] = refl
heartbeat-unhealthy now name (s ∷ ss) = ground (arith, heartbeat-unhealthy now name ss)

health_any :
    (ss : List ServiceRegistration)
    → is_unhealthy (get_health ss) ≡ any (λ (s : ServiceRegistration). is_unhealthy s.status) ss
health_any ss = ground arith

-- No heartbeats, of whatever services and in whatever order, make a system whose health is UNHEALTHY
-- or not so change that: only a degraded service recovers by beating.
get_health-heartbeats :
    (bs : List (ℕ × ℕ)) (ss : List ServiceRegistration)
    → is_unhealthy (get_health (heartbeats bs ss)) ≡ is_unhealthy (get_health ss)
get_health-heartbeats [] ss = refl
get_health-heartbeats ((now, name) ∷ bs) ss =
    get_health-heartbeats bs (heartbeat now name ss)
    ∙ health_any (heartbeat now name ss)
    ∙ heartbeat-unhealthy now name ss
    ∙ sym (health_any ss)
