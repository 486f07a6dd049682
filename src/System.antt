-- ===== src/System.antt =====
-- The API, the workers, the reaper and the operator on one database: every interleaving of their
-- committed transactions. A transaction is atomic. Between two of them another process may run any
-- number of its own, and a process that crashes takes no further step.
pub mod Primary
mod Operations
pub mod Sound
pub mod Invariant
pub mod Reachable
pub mod Runs
pub mod EndToEnd
pub mod Queue
pub mod Delivered
pub mod Attempts
pub mod Interleaved
use glacis.Base.{ℕ, ◌≡◌, Bool, Option, none, some, List, [], ◌∷◌, Text, Member}
use glacis.Core.Json.{Json}
use glacis.Core.Events.{NormalizedEvent}
use glacis.Core.Models.{Uuid, Instant, RawEvent, Db, empty_db}
use glacis.Core.Errors.{ok}
use glacis.Utils.Hashing.{Hashing}
use glacis.Services.Ingestion.{IngestResult, insert_raw_event}
use glacis.Services.Normalization.{Env}
use glacis.Services.World.{World}
use glacis.Services.Retry.{acquire, persist_retried, record_outcome}
use glacis.Workers.IngestWorker.{claim_one, persist_claimed, mark_failed, reap_before}

-- `in_flight` holds the ids that a worker or an operator has ever taken: a stalled process may
-- come back to such a row at any time.
pub record State : Type 0 where
  pub db : Db
  pub in_flight : List Uuid

abbrev pub initial : State
initial = record { db = empty_db; in_flight = [] }

module _ (hashing : Hashing) (w : World) where
  pub data Step (s : State) : State → Type 0 where
    ingested :
        (now : Instant) (i j : Uuid) (vendor_hint : Text) (payload : Json) (r : IngestResult)
        (db : Db)
        → insert_raw_event hashing w.oldest now i j vendor_hint payload s.db ≡ ok (r, db)
        → Step s (record { db = db; in_flight = s.in_flight })
    idle :
        (locked : Uuid → Bool) (now : Instant) (n : ℕ) (db : Db)
        → claim_one w.oldest locked now n s.db ≡ ok (none, db)
        → Step s (record { db = db; in_flight = s.in_flight })
    claimed :
        (locked : Uuid → Bool) (now : Instant) (n : ℕ) (r : RawEvent) (db : Db)
        → claim_one w.oldest locked now n s.db ≡ ok (some r, db)
        → Step s (record { db = db; in_flight = r.id ∷ s.in_flight })
    persisted :
        (env : Env) (id : Uuid) (event : NormalizedEvent) (db : Db)
        → Member id s.in_flight
        → persist_claimed w env id event s.db ≡ ok (tt, db)
        → Step s (record { db = db; in_flight = s.in_flight })
    failed :
        (id : Uuid) (error : Text) (n : ℕ) (db : Db)
        → Member id s.in_flight
        → mark_failed id error n s.db ≡ ok (tt, db)
        → Step s (record { db = db; in_flight = s.in_flight })
    reaped :
        (threshold : Instant) (n : ℕ) (db : Db)
        → reap_before threshold s.db ≡ ok (n, db)
        → Step s (record { db = db; in_flight = s.in_flight })
    acquired :
        (now : Instant) (id : Uuid) (r : RawEvent) (db : Db)
        → acquire now id s.db ≡ ok (r, db)
        → Step s (record { db = db; in_flight = id ∷ s.in_flight })
    retried :
        (env : Env) (id : Uuid) (event : NormalizedEvent) (db : Db)
        → Member id s.in_flight
        → persist_retried w env id event s.db ≡ ok (tt, db)
        → Step s (record { db = db; in_flight = s.in_flight })
    concluded :
        (id : Uuid) (error : Text) (db : Db)
        → Member id s.in_flight
        → record_outcome id error s.db ≡ ok (tt, db)
        → Step s (record { db = db; in_flight = s.in_flight })

  pub data Reach (s : State) : State → Type 0 where
    start : Reach s s
    next : {t u : State} → Reach s t → Step t u → Reach s u
