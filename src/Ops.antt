-- ===== src/Ops.antt =====
-- What operators see: backend/src/observability/ops-watch.service.ts (Watch), and
-- backend/src/health/health.service.ts with its controller (Health).
pub mod Watch
pub mod Health
pub mod Transitions
