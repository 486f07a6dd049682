-- ===== src/Api/App.antt =====
-- app/api/__init__.py: the application with its routes, and app/api/health.py. The framework splits
-- the path at its slashes, chooses the route, and parses the path parameters.
pub mod Routes
pub mod Served
use glacis.Base.{
  ℕ, Bool, true, false, not, ◌&&◌, Option, none, some, List, [], ◌∷◌, Text, codes, text_eq, ◌⊎◌,
  if◌then◌else◌, Member, ◌≡◌,
}
use glacis.Core.Json.{Json}
use glacis.Core.Events.{NormalizedEvent}
use glacis.Core.Models.{Uuid, Instant, EntityEvent, Db}
use glacis.Core.Errors.{Result}
use glacis.Core.OrderBy.{OrderBy}
use glacis.Utils.Hashing.{Hashing}
use glacis.Services.Normalization.{Env}
use glacis.Services.World.{World}
use glacis.Api.{Response}
use glacis.Api.Health
use glacis.Api.Health.{Health}
use glacis.Api.Webhooks
use glacis.Api.Webhooks.{WebhookAck}
use glacis.Api.Entities
use glacis.Api.Entities.{EntityOut}
use glacis.Api.RawEvents
use glacis.Api.RawEvents.{RawEventRetryResult}

pub data Method : Type 0 where
  get post : Method
  other : Text → Method

-- A parameter is a segment that is not empty.
pub data Segment : Type 0 where
  lit : Text → Segment
  param : Segment

pub data Endpoint : Type 0 where
  healthz ingest_webhook get_shipment get_invoice retry_endpoint : Endpoint

pub record Route : Type 0 where
  pub method : Method
  pub path : List Segment
  pub endpoint : Endpoint

-- `prefix="/api/v1"`
abbrev api_v1 : List Segment → List Segment
api_v1 path = lit (codes "api") ∷ lit (codes "v1") ∷ path

-- the path of an endpoint, with the prefix of its router
abbrev pub path_of : Endpoint → List Segment
path_of Endpoint.healthz = lit (codes "healthz") ∷ []
path_of Endpoint.ingest_webhook = api_v1 (lit (codes "webhooks") ∷ param ∷ [])
path_of Endpoint.get_shipment = api_v1 (lit (codes "shipments") ∷ param ∷ [])
path_of Endpoint.get_invoice = api_v1 (lit (codes "invoices") ∷ param ∷ [])
path_of Endpoint.retry_endpoint =
    api_v1 (lit (codes "raw-events") ∷ param ∷ lit (codes "retry") ∷ [])

-- the decorator of an endpoint
abbrev pub method_of : Endpoint → Method
method_of Endpoint.healthz = get
method_of Endpoint.ingest_webhook = post
method_of Endpoint.get_shipment = get
method_of Endpoint.get_invoice = get
method_of Endpoint.retry_endpoint = post

abbrev pub route_of : Endpoint → Route
route_of e = record { method = method_of e; path = path_of e; endpoint = e }

-- the routers that `create_app` includes, in their order
abbrev pub create_app : List Route
create_app =
    route_of Endpoint.healthz
    ∷ route_of Endpoint.ingest_webhook
    ∷ route_of Endpoint.get_shipment
    ∷ route_of Endpoint.get_invoice
    ∷ route_of Endpoint.retry_endpoint
    ∷ []

-- a path that fills a pattern, with the texts that stand for its parameters
pub data Fills : List Segment → List Text → List Text → Type 0 where
  ended : Fills [] [] []
  literal :
      {text : Text} {more : List Segment} {captures parts : List Text}
      → Fills more captures parts
      → Fills (lit text ∷ more) captures (text ∷ parts)
  captured :
      {c : ℕ} {text : Text} {more : List Segment} {captures parts : List Text}
      → Fills more captures parts
      → Fills (param ∷ more) ((c ∷ text) ∷ captures) ((c ∷ text) ∷ parts)

pub data Found : Type 0 where
  not_found method_not_allowed : Found
  found : Endpoint → List Text → Found

-- The framework's choice of a route: one of the table that has the method of the request and whose
-- pattern its path fills; and where there is one, some such route is found.
pub record Router : Type 0 where
  pub dispatch : List Route → Method → List Text → Found
  pub dispatch_sound :
      (routes : List Route) (method : Method) (path captures : List Text) (e : Endpoint)
      → dispatch routes method path ≡ found e captures
      → (r : Route) × Member r routes
        × (r.endpoint ≡ e)
        × (r.method ≡ method)
        × Fills r.path captures path
  pub dispatch_complete :
      (routes : List Route) (r : Route) (path captures : List Text)
      → Member r routes
      → Fills r.path captures path
      → (e : Endpoint) × (found_captures : List Text) × (dispatch routes r.method path
          ≡ found e found_captures)

pub record Request : Type 0 where
  pub method : Method
  pub path : List Text
  pub body : List ℕ

-- What a request meets while it is handled: the clock, the ids that the database gives out, the
-- answers of the classifier, and whether the database answers `SELECT 1`.
pub record Surroundings : Type 0 where
  pub now : Instant
  pub primary_id : Uuid
  pub duplicate_id : Uuid
  pub env : Env
  pub classify : Json → Result NormalizedEvent
  pub reachable : Bool

pub data Answer : Type 0 where
  -- 404, 405 and 422 of the framework
  no_route wrong_method invalid_id : Answer
  health : Result Health → Answer
  ack : Response WebhookAck → Answer
  entity : Response EntityOut → Answer
  retried : Response RawEventRetryResult → Answer

-- `loads` is orjson's, and `parse_uuid` pydantic's
module _ (loads : List ℕ → Text ⊎ Json) (parse_uuid : Text → Option Uuid) (hashing : Hashing)
    (w : World) (by_event_at : OrderBy (λ (e : EntityEvent). e.event_at)) where
  -- the handler of an endpoint, once its id is parsed
  abbrev with_id : Option Uuid → Db → (Uuid → Answer × Db) → Answer × Db
  with_id none db handler = (invalid_id, db)
  with_id (some id) db handler = handler id

  -- the captures are those of the endpoint's path
  unfoldable pub handle_endpoint : Surroundings → List ℕ → Endpoint → List Text → Db → Answer × Db
  unfolding Health.healthz Webhooks.ingest_webhook Entities.get_shipment Entities.get_invoice
      RawEvents.retry_endpoint
  handle_endpoint x body Endpoint.ingest_webhook (vendor ∷ []) db =
      let (r, db') =
        Webhooks.ingest_webhook loads hashing w.oldest w.settings.api_request_max_bytes x.now
          x.primary_id x.duplicate_id vendor body db in
      (ack r, db')
  handle_endpoint x body Endpoint.get_shipment (id ∷ []) db =
      with_id (parse_uuid id) db λ i. (entity (Entities.get_shipment by_event_at i db), db)
  handle_endpoint x body Endpoint.get_invoice (id ∷ []) db =
      with_id (parse_uuid id) db λ i. (entity (Entities.get_invoice by_event_at i db), db)
  handle_endpoint x body Endpoint.retry_endpoint (id ∷ []) db =
      with_id (parse_uuid id) db λ i.
        let (r, db') = RawEvents.retry_endpoint w x.now x.env x.classify i db in (retried r, db')
  handle_endpoint x body Endpoint.healthz captures db =
      let (r, db') = Health.healthz x.reachable db in (health r, db')
  handle_endpoint x body e captures db = (no_route, db)

  module _ (router : Router) where
    -- a request, from its path to its answer
    unfoldable pub handle : Surroundings → Request → Db → Answer × Db
    unfolding handle_endpoint
    handle x request db = elim (router.dispatch create_app request.method request.path) [
      | not_found ↦ (no_route, db)
      | method_not_allowed ↦ (wrong_method, db)
      | found e captures ↦ handle_endpoint x request.body e captures db
    ]

    -- the requests that a process serves, one after the other
    unfoldable pub serve : List (Surroundings × Request) → Db → Db
    unfolding handle
    serve [] db = db
    serve ((x, request) ∷ rest) db = serve rest (handle x request db).1
