-- ===== src/Tests/AttributeTests.antt =====
-- An invoice that was classified, in the tables.
use glacis.Core.Models.{Db}
use glacis.Core.Errors.{Result, ok, raise}
use glacis.Core.Config.{default_settings}
use glacis.Core.Validation.Dump.{model_dump}
use glacis.Services.Normalization.{persist_normalized}
use glacis.Tests.Fixtures.{env_of}
use glacis.Tests.IngestTests.{first_row, first_db}
use glacis.Tests.SchemaTests.{coercions, invoice_event}

abbrev run : Result (Unit {0} × Db)
run =
    persist_normalized default_settings (model_dump coercions) (env_of 70 71) first_row
      invoice_event first_db

abbrev after : Db
after = elim run [ ok result ↦ result.1 | raise e ↦ first_db ]
