-- ===== src/Tests/WorkerTests.antt =====
-- Claims, failures, a sweep, and a short history of the system.
use glacis.Base.{text_eq, ◌≡◌, ◌≢◌, refl, none, some, Bool, false, [], ◌∷◌, arith, codes, Option}
use glacis.Core.Models.{no_nul, RawEvent, Db, Uuid, Status, get_raw, update_raw}
use glacis.Core.Errors.{ok}
use glacis.Core.Inbox.{IsInbox}
use glacis.Core.OrderBy.{select_first}
use glacis.Utils.Hashing.{digest_of}
use glacis.Services.Ingestion.{new_raw}
use glacis.Services.Ingestion.Dedupe.{add_raw}
use glacis.Workers.IngestWorker.{claim, claim_one, mark_failed, reap_before}
use glacis.Workers.IngestWorker.Claims.{Taken, claim_one-Taken, claim_one_exclusive}
use glacis.Workers.IngestWorker.Failures.{Marked, mark_failed_lem}
use glacis.Core.Config.{default_settings}
use glacis.Workers.IngestWorker.InFlight.{sweeps, claim_one-sweeps}
use glacis.Workers.IngestWorker.Crash.{Released, reap_before-claim_one}
use glacis.System.{State, initial, Reach, start, next, ingested, claimed}
use glacis.Tests.Fixtures.{hashing, oldest, world, vendor, body}
use glacis.Tests.IngestTests.{first_row, first_db, first_result, first_delivery, first_db-IsInbox}

unfoldable pub working : Unit {0}
unfolding no_nul claim_one mark_failed reap_before select_first new_raw
working = tt

abbrev pub free : Uuid → Bool
free id = false

abbrev pub claimed_db : Db
claimed_db = update_raw 1 (claim 30) first_db

pub first_claim : claim_one oldest free 30 5 first_db ≡ ok (some (claim 30 first_row), claimed_db)
unfolding working
first_claim = refl

claim_one-Taken_example :
    (o : Option RawEvent) × (db' : Db) × (claim_one oldest free 30 5 first_db ≡ ok (o, db'))
    × Taken free 30 first_db o db'
claim_one-Taken_example = claim_one-Taken oldest free 30 5 first_db first_db-IsInbox

-- two payloads in the queue
abbrev other_row : RawEvent
other_row = new_raw 2 20 (codes "cma") body (digest_of hashing body)

abbrev queue : Db
queue = add_raw other_row first_db

queue-IsInbox : IsInbox queue.raw_events
unfolding new_raw text_eq
queue-IsInbox = record {
  ids = (refl, (refl, tt));
  primaries = (refl, (refl, tt));
  linked = ground arith;
}

abbrev queue₁ : Db
queue₁ = update_raw 1 (claim 30) queue

claim_one_exclusive_example : first_row.id ≢ other_row.id
unfolding new_raw working
claim_one_exclusive_example =
    claim_one_exclusive oldest free free 30 31 5 queue queue₁ (update_raw 2 (claim 31) queue₁)
      (claim 30 first_row) (claim 31 other_row) queue-IsInbox refl refl

mark_failed_lem_example :
    Marked 1
      (codes "boom")
      5
      (claim 30 first_row)
      claimed_db
      (mark_failed 1 (codes "boom") 5 claimed_db)
unfolding new_raw
mark_failed_lem_example =
    mark_failed_lem 1 (codes "boom") 5 (claim 30 first_row) claimed_db refl (ground arith)

abbrev pub swept_db : Db
swept_db = update_raw 1 (λ r. record r { status = Status.pending; locked_at = none }) claimed_db

pub sweep : reap_before 100 claimed_db ≡ ok (1, swept_db)
unfolding working
sweep = refl

abbrev pub claimed_state : State
claimed_state = record { db = claimed_db; in_flight = 1 ∷ [] }

-- a delivery, and the claim of its row
pub history : Reach hashing world initial claimed_state
unfolding working
history =
    next (next start (ingested 10 1 2 vendor body first_result first_db first_delivery))
      (claimed free 30 5 (claim 30 first_row) claimed_db first_claim)

reap_before-claim_one_example :
    (q : RawEvent) × (get_raw 1 first_db ≡ some q) × Released 100 q claimed_db
unfolding new_raw
reap_before-claim_one_example =
    reap_before-claim_one oldest free 30 100 5 first_db claimed_db (claim 30 first_row)
      first_db-IsInbox first_claim (ground arith)

-- pauses of at most 8 seconds, and clocks that differ by 3 minutes
claim_one-sweeps_example :
    get_raw 1 (sweeps default_settings (100 ∷ 286000000 ∷ []) claimed_db)
    ≡ some (claim 30 first_row)
unfolding new_raw
claim_one-sweeps_example =
    claim_one-sweeps oldest free 30 5 default_settings 8 180000000 (100 ∷ 286000000 ∷ []) first_db
      claimed_db (claim 30 first_row) first_db-IsInbox first_claim (omega arith) (omega arith)
