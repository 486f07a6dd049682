-- ===== src/Api/Webhooks.antt =====
-- app/api/webhooks.py: the checks of a webhook, and what it answers.
use glacis.Base.{
  ℕ, ◌≡◌, ◌<◌, ◌⊎◌, inl, inr, Bool, true, false, ◌&&◌, ◌||◌, Option, List, [], ◌∷◌, Text, length,
  leb, ltb, ◌==◌, if◌then◌else◌,
}
use glacis.Core.Json.{Json, object}
use glacis.Core.Models.{Uuid, Instant, RawEvent, Db, fits_jsonb}
use glacis.Core.Errors.{Result, ok, raise, data_error, encode_error}
use glacis.Core.Session.{session_scope}
use glacis.Core.OrderBy.{OrderBy}
use glacis.Utils.Hashing.{Hashing}
use glacis.Services.Ingestion.{IngestResult, insert_raw_event}
use glacis.Api.{
  payload_exceeds, empty_body, not_an_object, invalid_vendor, invalid_json, Response, respond,
  http_exception, server_error,
}

pub record WebhookAck : Type 0 where
  pub raw_event_id : Uuid
  pub duplicate : Bool
  pub duplicate_of : Option Uuid

-- `isinstance(payload, dict)`
abbrev pub is_object : Json → Bool
is_object (object m) = true
is_object _ = false

-- the class of the pattern ^[A-Za-z0-9_.-]+$
abbrev pub is_vendor_char : ℕ → Bool
is_vendor_char c =
    (leb 65 c && leb c 90)
    || ((leb 97 c && leb c 122)
        || ((leb 48 c && leb c 57) || ((c == 95) || ((c == 46) || (c == 45)))))

abbrev pub all_chars : (ℕ → Bool) → Text → Bool
all_chars p [] = true
all_chars p (c ∷ t) = p c && all_chars p t

-- the annotation of the path parameter
unfoldable pub is_vendor : Text → Bool
is_vendor vendor =
    leb 1 (length vendor) && leb (length vendor) 64 && all_chars is_vendor_char vendor

-- `loads` is orjson's, of the bytes of the body: the message of its exception, or a value
module _ (loads : List ℕ → Text ⊎ Json) where
  abbrev pub object_root : Text ⊎ Json → Response Json
  object_root (inl exc) = http_exception 400 (invalid_json exc)
  object_root (inr payload) =
      if is_object payload then respond payload else http_exception 400 not_an_object

  unfoldable pub read_json_body : ℕ → List ℕ → Response Json
  read_json_body max_bytes body =
      if ltb max_bytes (length body)
      then http_exception 413 (payload_exceeds max_bytes)
      else if (length body == 0)
      then http_exception 400 empty_body
      else object_root (loads body)

  module _ (hashing : Hashing) (oldest : OrderBy (λ (r : RawEvent). r.received_at)) where
    abbrev pub ack_of : Result IngestResult × Db → Response WebhookAck × Db
    ack_of (ok r, db) = (
      respond (record {
        raw_event_id = r.raw_event_id;
        duplicate = r.duplicate;
        duplicate_of = r.duplicate_of;
      }),
      db,
    )
    ack_of (raise e, db) = (server_error e, db)

    -- the handler, once its path parameter is valid
    unfoldable pub ingest_payload :
        Instant → Uuid → Uuid → Text → Response Json → Db → Response WebhookAck × Db
    unfolding insert_raw_event
    ingest_payload now i j vendor (respond payload) db =
        ack_of (session_scope (insert_raw_event hashing oldest now i j vendor payload) db)
    ingest_payload now i j vendor (http_exception code detail) db = (http_exception code detail, db)
    ingest_payload now i j vendor (server_error e) db = (server_error e, db)

    unfoldable pub ingest_webhook :
        ℕ → Instant → Uuid → Uuid → Text → List ℕ → Db → Response WebhookAck × Db
    unfolding is_vendor read_json_body ingest_payload
    ingest_webhook max_bytes now i j vendor body db =
        if is_vendor vendor
        then ingest_payload now i j vendor (read_json_body max_bytes body) db
        else (http_exception 422 invalid_vendor, db)

    module _ (max_bytes : ℕ) (now : Instant) (i j : Uuid) (vendor : Text) (body : List ℕ) where
      -- what a webhook comes to, and why
      pub data Answered (db : Db) : Response WebhookAck → Db → Type 0 where
        bad_vendor : is_vendor vendor ≡ false → Answered db (http_exception 422 invalid_vendor) db
        too_large :
            max_bytes < length body
            → Answered db (http_exception 413 (payload_exceeds max_bytes)) db
        nothing_sent : length body ≡ 0 → Answered db (http_exception 400 empty_body) db
        no_json :
            (exc : Text)
            → loads body ≡ inl exc
            → Answered db (http_exception 400 (invalid_json exc)) db
        no_object :
            (payload : Json)
            → loads body ≡ inr payload
            → is_object payload ≡ false
            → Answered db (http_exception 400 not_an_object) db
        unstorable :
            (payload : Json)
            → loads body ≡ inr payload
            → is_object payload ≡ true
            → hashing.serializes payload ≡ true
            → fits_jsonb payload ≡ false
            → Answered db (server_error data_error) db
        unserializable :
            (payload : Json)
            → loads body ≡ inr payload
            → is_object payload ≡ true
            → hashing.serializes payload ≡ false
            → Answered db (server_error encode_error) db
        accepted :
            (payload : Json) (r : IngestResult) (db' : Db)
            → loads body ≡ inr payload
            → is_object payload ≡ true
            → hashing.serializes payload ≡ true
            → fits_jsonb payload ≡ true
            → insert_raw_event hashing oldest now i j vendor payload db ≡ ok (r, db')
            → Answered db
                (respond (record {
                  raw_event_id = r.raw_event_id;
                  duplicate = r.duplicate;
                  duplicate_of = r.duplicate_of;
                }))
                db'

      AnsweredBy : Db → Response WebhookAck × Db → Type 0
      AnsweredBy db p = Answered db p.0 p.1
