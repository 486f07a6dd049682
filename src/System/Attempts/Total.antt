-- ===== src/System/Attempts/Total.antt =====
-- The attempts of a raw event over the history of the system.
use glacis.Base.{ℕ, ◌+◌, none, some, arith}
use glacis.Core.Models.{Uuid, Db}
use glacis.Utils.Hashing.{Hashing}
use glacis.Services.Ingestion.Dedupe.{ingest-Outcome}
use glacis.Services.World.{World}
use glacis.Workers.IngestWorker.Claims.{claim_one_inv}
use glacis.System.Reachable.{IsConsistent, Reach-keeps}
use glacis.System.{
  State, Step, ingested, idle, claimed, persisted, failed, reaped, acquired, retried, concluded,
  Reach, start, next,
}
use glacis.System.Attempts.{HasAttempts, HasAttempts-eq, counted, total_counted}
use glacis.System.Attempts.Rows.{
  reap-HasAttempts, mark_failed-HasAttempts, acquire-HasAttempts, record_outcome-HasAttempts,
  Outcome-HasAttempts, Claimed-HasAttempts, claimed-HasAttempts, retried-HasAttempts,
}

plus_none : {id : Uuid} {n : ℕ} {db : Db} → HasAttempts id n db → HasAttempts id (n + 0) db
plus_none h = HasAttempts-eq (omega arith) h

module _ (hashing : Hashing) (w : World) (id : Uuid) where
  -- A transaction adds to the attempts of a row what it counts.
  pub Step-HasAttempts :
      (n : ℕ) {s t : State} (e : Step hashing w s t)
      → IsConsistent hashing w s
      → HasAttempts id n s.db
      → HasAttempts id (n + counted hashing w id e) t.db
  unfolding counted
  Step-HasAttempts n {s} (ingested now i j v payload r db e) c h = plus_none (
      Outcome-HasAttempts hashing w id n
        (ingest-Outcome hashing w.oldest now i j v payload s.db db r e) h)
  Step-HasAttempts n {s} (idle locked now k db e) c h = plus_none (
      Claimed-HasAttempts hashing w id n
        (claim_one_inv w.oldest locked now k s.db db none c.sound.inbox e) h)
  Step-HasAttempts n {s} (claimed locked now k r db e) c h = plus_none (
      Claimed-HasAttempts hashing w id n
        (claim_one_inv w.oldest locked now k s.db db (some r) c.sound.inbox e) h)
  Step-HasAttempts n {s} (persisted env i event db m e) c h =
      plus_none (claimed-HasAttempts hashing w id n env i event s.db db e h)
  Step-HasAttempts n {s} (failed i error k db m e) c h =
      mark_failed-HasAttempts id n i error k s.db db e h
  Step-HasAttempts n {s} (reaped threshold k db e) c h =
      plus_none (reap-HasAttempts id n threshold k s.db db e h)
  Step-HasAttempts n {s} (acquired now i r db e) c h = acquire-HasAttempts id n now i r s.db db e h
  Step-HasAttempts n {s} (retried env i event db m e) c h =
      plus_none (retried-HasAttempts hashing w id n env i event s.db db e h)
  Step-HasAttempts n {s} (concluded i error db m e) c h =
      plus_none (record_outcome-HasAttempts id n i error s.db db e h)

  -- From any consistent state, whatever the interleaving of transactions: the attempts of a row are
  -- what they were, and one more for each failure of the row that was recorded and for each retry
  -- by an operator that was admitted. Claims, sweeps, persisted events and the outcomes of retries
  -- count nothing.
  pub Reach-HasAttempts :
      (n : ℕ) {s t : State} (r : Reach hashing w s t)
      → IsConsistent hashing w s
      → HasAttempts id n s.db
      → HasAttempts id (n + total_counted hashing w id r) t.db
  unfolding total_counted
  Reach-HasAttempts n start c h = plus_none h
  Reach-HasAttempts n (next r e) c h =
      let before = Reach-HasAttempts n r c h in
      let after =
        Step-HasAttempts (n + total_counted hashing w id r) e (Reach-keeps hashing w r c) before in
      HasAttempts-eq (omega arith) after
