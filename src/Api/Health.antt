-- ===== src/Api/Health.antt =====
-- app/api/health.py: liveness, and whether the database can be reached.
use glacis.Base.{Bool, true, false}
use glacis.Core.Errors.{ok}
use glacis.Core.Session.{Proc, session_scope}

-- the body with status 200, and that with 503
pub data Health : Type 0 where
  healthy unhealthy : Health

-- `reachable` says whether `SELECT 1` returns; an exception is caught
abbrev answer_of : Bool → Health
answer_of true = Health.healthy
answer_of false = Health.unhealthy

-- the handler, in the session of its dependency, which commits
unfoldable pub healthz : Bool → Proc Health
healthz reachable = session_scope (λ db. ok (answer_of reachable, db))
