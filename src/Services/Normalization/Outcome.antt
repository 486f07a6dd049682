-- ===== src/Services/Normalization/Outcome.antt =====
-- What `persist_normalized` commits, and what it does not look at.
use glacis.Base.{
  ◌≤◌, ◌≡◌, ◌++◌, codes, true, length, length-take-le, Bool-cases, inl, inr, refl, Option, none,
  some, arith, Text,
}
use glacis.Core.Json.{Json}
use glacis.Core.Events.{
  EventPayload, UnclassifiedPayload, NormalizedEvent, canonical_state, vendor_milestone,
  external_ref,
}
use glacis.Core.Models.{Instant, RawEvent, Tables, Db, update_raw, fits_optional, no_nul}
use glacis.Core.Errors.{Result, ok, data_error}
use glacis.Core.Inbox.{KeepsKeys}
use glacis.Core.Session.{>>=-eq-ok, ◌>>◌, ensure}
use glacis.Core.Nul.{no_nul-append, no_nul-take}
use glacis.Core.Config.{Settings}
use glacis.Services.Normalization.{
  EntityModel, shipments, invoices, Env, ensure_utc, entity_model, persist_event, mark_processed,
  note_of, dropped_note, as_unclassified, tables_of, set_tables, not_null, or_persist_error,
  persist_actionable, persist_normalized,
}

-- every payload that is not unclassified has a model and a reference
actionable :
    (p : EventPayload) → as_unclassified p ≡ none → (m : EntityModel) × (entity_model p ≡ some m)
unfolding as_unclassified entity_model
actionable (EventPayload.picked_up p) h = (shipments, refl)
actionable (EventPayload.in_transit p) h = (shipments, refl)
actionable (EventPayload.out_for_delivery p) h = (shipments, refl)
actionable (EventPayload.delivered p) h = (shipments, refl)
actionable (EventPayload.issued p) h = (invoices, refl)
actionable (EventPayload.paid p) h = (invoices, refl)
actionable (EventPayload.voided p) h = (invoices, refl)
actionable (EventPayload.refunded p) h = (invoices, refl)
actionable (EventPayload.unclassified p) h = cc

length-dropped_note : (reason : Text) → length (dropped_note reason) ≤ 2000
unfolding dropped_note
length-dropped_note reason =
    length-take-le 2000 (codes "dropped: unclassified payload (" ++ (reason ++ codes ")"))

-- the note of an unclassified event fits its column
dropped_note-no_nul : (reason : Text) → no_nul reason ≡ true → no_nul (dropped_note reason) ≡ true
unfolding dropped_note no_nul
dropped_note-no_nul reason clean =
    no_nul-take 2000 (codes "dropped: unclassified payload (" ++ (reason ++ codes ")")) (
      no_nul-append (codes "dropped: unclassified payload (") (reason ++ codes ")") refl
        (no_nul-append reason (codes ")") clean refl))

note_of-fits :
    (settings : Settings) (p : UnclassifiedPayload)
    → no_nul p.reason ≡ true
    → fits_optional 2048 (note_of settings p) ≡ true
unfolding note_of
note_of-fits settings p clean = elim (Bool-cases settings.worker_keep_unclassified_events) [
  | inl keep ↦ rw keep refl
  | inr drop ↦
      let short = length-dropped_note p.reason in
      ground (arith, drop, short, dropped_note-no_nul p.reason clean)
]

pub mark_processed-KeepsKeys : (now : Instant) (e : Option Text) → KeepsKeys (mark_processed now e)
unfolding mark_processed
mark_processed-KeepsKeys now e = ground arith

module _ (settings : Settings) (model_dump : EventPayload → Json) where
  module _ (env : Env) (raw_event : RawEvent) (event : NormalizedEvent) where
    -- steps 2 to 4 of the event, on the tables of its model
    abbrev pub to_tables : Instant → EntityModel → Text → Db → Result Tables
    to_tables event_at model ref db =
        persist_event env raw_event.id raw_event.vendor_hint ref (canonical_state event.payload)
          event_at (vendor_milestone event.payload) (model_dump event.payload) (tables_of model db)

    -- the statements that ran, when the transaction commits
    pub data Committed (db db' : Db) : Type 0 where
      unclassified :
          (p : UnclassifiedPayload)
          → as_unclassified event.payload ≡ some p
          → db' ≡ update_raw raw_event.id (mark_processed env.now (note_of settings p)) db
          → Committed db db'
      stored :
          (event_at : Instant) (model : EntityModel) (ref : Text) (tables : Tables)
          → ensure_utc event.event_at ≡ ok event_at
          → entity_model event.payload ≡ some model
          → external_ref event.payload ≡ some ref
          → to_tables event_at model ref db ≡ ok tables
          → db' ≡ update_raw raw_event.id (mark_processed env.now none) (set_tables model tables db)
          → Committed db db'

    not_null_inv : {A : Type 0} (o : Option A) {a : A} → not_null o ≡ ok a → o ≡ some a
    not_null_inv none h = cc
    not_null_inv (some b) h = cc

    or_persist_error_inv :
        {A : Type 0} (o : Option A) {a : A} → or_persist_error o ≡ ok a → o ≡ some a
    or_persist_error_inv none h = cc
    or_persist_error_inv (some b) h = cc

    actionable-Committed :
        (db db' : Db)
        → persist_actionable settings model_dump env raw_event event db ≡ ok (tt, db')
        → Committed db db'
    unfolding persist_actionable
    actionable-Committed db db' h =
        let (event_at, e, h₁) = >>=-eq-ok (ensure_utc event.event_at) _ h in
        let (model, m, h₂) = >>=-eq-ok (or_persist_error (entity_model event.payload)) _ h₁ in
        let (ref, r, h₃) = >>=-eq-ok (not_null (external_ref event.payload)) _ h₂ in
        let (tables, t, h₄) = >>=-eq-ok (to_tables event_at model ref db) _ h₃ in
        stored event_at model ref tables e (or_persist_error_inv _ m) (not_null_inv _ r) t
          (ground arith)

    by_payload :
        (o : Option UnclassifiedPayload) (db db' : Db)
        → as_unclassified event.payload ≡ o
        → (elim o [
          | some p ↦ do
            ensure (fits_optional 2048 (note_of settings p)) data_error
            ok (tt, update_raw raw_event.id (mark_processed env.now (note_of settings p)) db)
          | none ↦ persist_actionable settings model_dump env raw_event event db
        ])
          ≡ ok (tt, db')
        → Committed db db'
    by_payload none db db' e h = actionable-Committed db db' h
    by_payload (some p) db db' e h = unclassified p e (ground arith)

    -- A run that commits has marked the row, and has stored the event of a shipment or an invoice
    -- in the tables of its model; of an unclassified event it has stored nothing.
    pub persist_normalized-Committed :
        (db db' : Db)
        → persist_normalized settings model_dump env raw_event event db ≡ ok (tt, db')
        → Committed db db'
    unfolding persist_normalized
    persist_normalized-Committed db db' h = by_payload (as_unclassified event.payload) db db' refl h

    -- a commit marks the row of the raw event, and no other
    pub Committed-rows :
        {db db' : Db}
        → Committed db db'
        → (note : Option Text) × (db'.raw_events
            ≡ (update_raw raw_event.id (mark_processed env.now note) db).raw_events)
    Committed-rows (unclassified p e f) = (note_of settings p, rw f refl)
    Committed-rows (stored event_at shipments ref tables e m r h f) = (none, rw f refl)
    Committed-rows (stored event_at invoices ref tables e m r h f) = (none, rw f refl)

    -- An unclassified event whose reason has no U+0000 leaves every shipment, invoice and event row
    -- as it was, whatever `worker_keep_unclassified_events` says.
    pub persist_normalized-unclassified :
        (p : UnclassifiedPayload) (db : Db)
        → event.payload ≡ EventPayload.unclassified p
        → no_nul p.reason ≡ true
        → (db' : Db) × (persist_normalized settings model_dump env raw_event event db
            ≡ ok (tt, db'))
          × (db'.shipments ≡ db.shipments)
          × (db'.invoices ≡ db.invoices)
          × (db'.raw_events
              ≡ (update_raw raw_event.id
                  (mark_processed env.now (note_of settings p))
                  db).raw_events)
    unfolding persist_normalized
    persist_normalized-unclassified p db e clean = (
      update_raw raw_event.id (mark_processed env.now (note_of settings p)) db,
      rw (e, persist_normalized, note_of-fits settings p clean) refl,
      refl,
      refl,
      refl,
    )
