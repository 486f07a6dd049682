-- ===== src/Api/App/Served.antt =====
-- What the requests do to the database.
use mathlib.Core.Bool.{false≢true}
use glacis.Base.{
  true, false, Bool, rows_where, ℕ, ◌≡◌, ◌≢◌, ◌∙◌, refl, sym, subst, Option, none, some, List, [],
  ◌∷◌, arith, Text, ◌⊎◌, inl, inr, Bool-cases, Option-cases,
}
use glacis.Core.Json.{Json}
use glacis.Core.Events.{CanonicalState, EntityType}
use glacis.Core.Models.{Uuid, Instant, RawEvent, EntityEvent, Db}
use glacis.Core.Errors.{Result, ok, raise}
use glacis.Core.Session.{commit_or_rollback}
use glacis.Core.OrderBy.{OrderBy}
use glacis.Utils.Hashing.{Hashing}
use glacis.Services.Ingestion.{IngestResult, insert_raw_event}
use glacis.Services.World.{World}
use glacis.Services.Retry.{retry_raw_event}
use glacis.Api.{Response, respond, http_exception, server_error}
use glacis.Api.Webhooks.{ack_of, read_json_body, ingest_payload, ingest_webhook, is_vendor}
use glacis.Api.RawEvents.{surface, surfaced, result_of, retry_endpoint}
use glacis.Api.Health.{healthz}
use glacis.Api.App.{
  Method, get, post, Endpoint, Found, found, not_found, method_not_allowed, method_of, Request,
  Surroundings, handle_endpoint, handle, serve, Router, create_app, other,
}
use glacis.Api.App.Routes.{dispatch-Fills}
use glacis.System.{State, ingested, start}
use glacis.System.Runs.{Runs, runs, step, then_runs, retry_raw_event-Runs}

abbrev pub is_post_method : Method → Bool
is_post_method get = false
is_post_method post = true
is_post_method (other name) = false

abbrev pub is_post : Surroundings × Request → Bool
is_post (x, request) = is_post_method request.method

not_post : (m : Method) → is_post_method m ≡ false → m ≢ post
not_post m h e = false≢true (sym h ∙ rw e refl)

module _ (loads : List ℕ → Text ⊎ Json) (parse_uuid : Text → Option Uuid) (hashing : Hashing)
    (w : World) (by_event_at : OrderBy (λ (e : EntityEvent). e.event_at)) where
  stays : (s : State) → Runs hashing w s s.db
  stays s = runs s.in_flight start

  inserted_by :
      (now : Instant) (i j : Uuid) (vendor : Text) (payload : Json) (s : State)
      (result : Result (IngestResult × Db))
      → insert_raw_event hashing w.oldest now i j vendor payload s.db ≡ result
      → Runs hashing w s (ack_of loads hashing w.oldest (commit_or_rollback s.db result)).1
  inserted_by now i j vendor payload s (raise e) h = stays s
  inserted_by now i j vendor payload s (ok (r, db)) h =
      step hashing w (ingested now i j vendor payload r db h)

  payload-Runs :
      (now : Instant) (i j : Uuid) (vendor : Text) (read : Response Json) (s : State)
      → Runs hashing w s (ingest_payload loads hashing w.oldest now i j vendor read s.db).1
  unfolding ingest_payload
  payload-Runs now i j vendor (respond payload) s = inserted_by now i j vendor payload s _ refl
  payload-Runs now i j vendor (http_exception code detail) s = stays s
  payload-Runs now i j vendor (server_error e) s = stays s

  webhook-Runs :
      (max_bytes : ℕ) (now : Instant) (i j : Uuid) (vendor : Text) (body : List ℕ) (s : State)
      → Runs hashing w s
          (ingest_webhook loads hashing w.oldest max_bytes now i j vendor body s.db).1
  unfolding ingest_webhook
  webhook-Runs max_bytes now i j vendor body s = elim (Bool-cases (is_vendor vendor)) [
    | inl valid ↦ rw valid (payload-Runs now i j vendor (read_json_body loads max_bytes body) s)
    | inr bad ↦ rw bad (stays s)
  ]

  -- the query for the event only reads
  surfaced-db :
      (id : Uuid) (db db' : Db) (o : Option (CanonicalState × EntityType))
      → surfaced id db ≡ ok (o, db')
      → db' ≡ db
  unfolding surfaced
  surfaced-db id db db' o h = ground (arith, h)

  result-db :
      (raw : RawEvent) (db : Db) (result : Result (Option (CanonicalState × EntityType) × Db))
      → surfaced raw.id db ≡ result
      → (result_of raw (commit_or_rollback db result)).1 ≡ db
  result-db raw db (raise e) h = refl
  result-db raw db (ok (none, db')) h = surfaced-db raw.id db db' none h
  result-db raw db (ok (some (state, entity_type), db')) h = surfaced-db raw.id db db' _ h

  surface-db : (r : Result RawEvent) (db : Db) → (surface (r, db)).1 ≡ db
  unfolding surface
  surface-db (ok raw) db = result-db raw db (surfaced raw.id db) refl
  surface-db (raise e) db = refl

  retry-Runs :
      (x : Surroundings) (id : Uuid) (s : State)
      → Runs hashing w s (retry_endpoint w x.now x.env x.classify id s.db).1
  unfolding retry_endpoint
  retry-Runs x id s =
      let (r, db) = retry_raw_event w x.now x.env x.classify id s.db in
      subst (Runs hashing w s) (sym (surface-db r db))
        (retry_raw_event-Runs hashing w id x.now x.env x.classify s)

  -- what the endpoints of the method GET leave
  endpoint-get :
      (x : Surroundings) (body : List ℕ) (e : Endpoint) (captures : List Text) (db : Db)
      → method_of e ≡ get
      → (handle_endpoint loads parse_uuid hashing w by_event_at x body e captures db).1 ≡ db
  unfolding handle_endpoint healthz
  endpoint-get x body Endpoint.healthz captures db h = refl
  endpoint-get x body Endpoint.ingest_webhook captures db h = cc
  endpoint-get x body Endpoint.retry_endpoint captures db h = cc
  endpoint-get x body Endpoint.get_shipment [] db h = refl
  endpoint-get x body Endpoint.get_shipment (id ∷ (_ ∷ _)) db h = refl
  endpoint-get x body Endpoint.get_shipment (id ∷ []) db h = elim (Option-cases (parse_uuid id)) [
    | inl invalid ↦ rw invalid refl
    | inr (i, valid) ↦ rw valid refl
  ]
  endpoint-get x body Endpoint.get_invoice [] db h = refl
  endpoint-get x body Endpoint.get_invoice (id ∷ (_ ∷ _)) db h = refl
  endpoint-get x body Endpoint.get_invoice (id ∷ []) db h = elim (Option-cases (parse_uuid id)) [
    | inl invalid ↦ rw invalid refl
    | inr (i, valid) ↦ rw valid refl
  ]

  endpoint-post :
      (x : Surroundings) (body : List ℕ) (e : Endpoint) (captures : List Text) (s : State)
      → method_of e ≡ post
      → Runs hashing w s
          (handle_endpoint loads parse_uuid hashing w by_event_at x body e captures s.db).1
  unfolding handle_endpoint
  endpoint-post x body Endpoint.healthz captures s h = cc
  endpoint-post x body Endpoint.get_shipment captures s h = cc
  endpoint-post x body Endpoint.get_invoice captures s h = cc
  endpoint-post x body Endpoint.ingest_webhook [] s h = stays s
  endpoint-post x body Endpoint.ingest_webhook (vendor ∷ (_ ∷ _)) s h = stays s
  endpoint-post x body Endpoint.ingest_webhook (vendor ∷ []) s h =
      webhook-Runs w.settings.api_request_max_bytes x.now x.primary_id x.duplicate_id vendor body s
  endpoint-post x body Endpoint.retry_endpoint [] s h = stays s
  endpoint-post x body Endpoint.retry_endpoint (id ∷ (_ ∷ _)) s h = stays s
  endpoint-post x body Endpoint.retry_endpoint (id ∷ []) s h = elim (Option-cases (parse_uuid id)) [
    | inl invalid ↦ rw invalid (stays s)
    | inr (i, valid) ↦ rw valid (retry-Runs x i s)
  ]

  get_or_post : (e : Endpoint) → (method_of e ≡ get) ⊎ (method_of e ≡ post)
  get_or_post Endpoint.healthz = inl refl
  get_or_post Endpoint.ingest_webhook = inr refl
  get_or_post Endpoint.get_shipment = inl refl
  get_or_post Endpoint.get_invoice = inl refl
  get_or_post Endpoint.retry_endpoint = inr refl

  endpoint-Runs :
      (x : Surroundings) (body : List ℕ) (e : Endpoint) (captures : List Text) (s : State)
      → Runs hashing w s
          (handle_endpoint loads parse_uuid hashing w by_event_at x body e captures s.db).1
  endpoint-Runs x body e captures s = elim (get_or_post e) [
    | inl h ↦ subst (Runs hashing w s) (sym (endpoint-get x body e captures s.db h)) (stays s)
    | inr h ↦ endpoint-post x body e captures s h
  ]

  module _ (router : Router) where
    handled_by :
        (x : Surroundings) (request : Request) (s : State) (f : Found)
        → router.dispatch create_app request.method request.path ≡ f
        → Runs hashing w s (handle loads parse_uuid hashing w by_event_at router x request s.db).1
    unfolding handle
    handled_by x request s not_found h = rw (h, handle) (stays s)
    handled_by x request s method_not_allowed h = rw (h, handle) (stays s)
    handled_by x request s (found e captures) h =
        rw (h, handle) (endpoint-Runs x request.body e captures s)

    -- the effect of a request, whatever its answer, is a sequence of steps
    handle-Runs :
        (x : Surroundings) (request : Request) (s : State)
        → Runs hashing w s (handle loads parse_uuid hashing w by_event_at router x request s.db).1
    handle-Runs x request s =
        handled_by x request s (router.dispatch create_app request.method request.path) refl

    serve-Runs-at :
        (requests : List (Surroundings × Request)) (db : Db) (s : State)
        → s.db ≡ db
        → Runs hashing w s (serve loads parse_uuid hashing w by_event_at router requests db)
    unfolding serve
    serve-Runs-at [] db s e = subst (Runs hashing w s) e (stays s)
    serve-Runs-at ((x, request) ∷ rest) db s e =
        then_runs hashing w
          (subst
            (λ d.
              Runs hashing w s (handle loads parse_uuid hashing w by_event_at router x request d).1)
            e (handle-Runs x request s))
          λ t f. serve-Runs-at rest _ t f

    unchanged_by :
        (x : Surroundings) (request : Request) (db : Db) (f : Found)
        → request.method ≢ post
        → router.dispatch create_app request.method request.path ≡ f
        → (handle loads parse_uuid hashing w by_event_at router x request db).1 ≡ db
    unfolding handle
    unchanged_by x request db not_found ne h = rw (h, handle) refl
    unchanged_by x request db method_not_allowed ne h = rw (h, handle) refl
    unchanged_by x request db (found e captures) ne h =
        let (same, fills) = (dispatch-Fills router request.method request.path captures e).0 h in
        elim (get_or_post e) [
          | inl reads ↦ rw (h, handle) (endpoint-get x request.body e captures db reads)
          | inr writes ↦ absurd (ne (same ∙ writes))
        ]

    serve-post :
        (requests : List (Surroundings × Request)) (db : Db)
        → serve loads parse_uuid hashing w by_event_at router requests db
          ≡ serve loads parse_uuid hashing w by_event_at router (rows_where is_post requests) db
    unfolding serve
    serve-post [] db = refl
    serve-post ((x, request) ∷ rest) db = elim (Bool-cases (is_post_method request.method)) [
      | inl writes ↦ rw writes (serve-post rest _)
      | inr reads ↦
          let same =
            unchanged_by x request db (router.dispatch create_app request.method request.path)
              (not_post request.method reads) refl in
          rw (reads, same) (serve-post rest db)
    ]

    -- Whatever requests the API serves, on whatever paths, the database that it leaves is reached by a
    -- sequence of the steps of the system, so that what holds of every reachable state holds of it;
    -- and it is the same without the requests whose method is not POST.
    pub serve-Runs :
        (requests : List (Surroundings × Request)) (s : State)
        → Runs hashing w s (serve loads parse_uuid hashing w by_event_at router requests s.db)
          × (serve loads parse_uuid hashing w by_event_at router requests s.db
              ≡ serve loads parse_uuid hashing w by_event_at router
                  (rows_where is_post requests)
                  s.db)
    serve-Runs requests s = (serve-Runs-at requests s.db s refl, serve-post requests s.db)
