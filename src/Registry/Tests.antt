-- ===== src/Registry/Tests.antt =====
-- Witnesses for the service registry.
use aether_x.Prelude.{◌≡◌, refl, List, [], ◌∷◌}
use aether_x.Registry.Services.{
  ServiceRegistration, healthy, register, mark_degraded, mark_unhealthy, heartbeats, get_health,
}

abbrev services : List ServiceRegistration
services = mark_unhealthy 2 7 (mark_degraded 5 1 6 (register 1 2 (register 0 1 [])))

-- The degraded service alone recovers.
recovered : get_health (heartbeats ((9, 1) ∷ []) (mark_degraded 5 1 6 (register 0 1 []))) ≡ healthy
recovered = refl
