-- ===== src/Workers/IngestWorker/Unstorable.antt =====
-- The worker, when the classified event cannot be stored: the failure is counted at each attempt.
use glacis.Base.{◌≡◌, true, false, some, Text}
use glacis.Core.Events.{NormalizedEvent, vendor_milestone}
use glacis.Core.Models.{RawEvent, fits_jsonb, overflows}
use glacis.Services.Normalization.{Env}
use glacis.Services.World.{World}

module _ (w : World) (env : Env) (row : RawEvent) (event : NormalizedEvent) where
  -- what makes the columns refuse the event
  pub data Unstorable (ref : Text) : Type 0 where
    long_reference : overflows 128 ref ≡ true → Unstorable ref
    long_milestone :
        (milestone : Text)
        → vendor_milestone event.payload ≡ some milestone
        → overflows 512 milestone ≡ true
        → Unstorable ref
    nul : fits_jsonb (w.model_dump event.payload) ≡ false → Unstorable ref
