-- ===== src/Tests/AppTests.antt =====
-- Requests to the application, by their paths.
use glacis.Base.{
  ◌≡◌, ◌↔◌, rows_where, refl, true, Option, none, some, List, [], ◌∷◌, Text, codes, length, text_eq,
}
use glacis.Core.Models.{Uuid, empty_db}
use glacis.Api.App.{
  Fills, get, post, Endpoint, found, not_found, method_not_allowed, method_of, path_of, Request,
  Surroundings, serve, create_app,
}
use glacis.Api.App.Routes.{match, dispatch-Fills}
use glacis.Api.App.Served.{serve-Runs, is_post}
use glacis.System.{initial}
use glacis.System.Runs.{Runs}
use glacis.Tests.Fixtures.{hashing, world, vendor, env_of}
use glacis.Tests.LoopTests.{up}
use glacis.Tests.Routing.{first_match, select}
use glacis.Tests.ApiTests.{loads, by_event_at}

-- the hyphens of an id do not matter here: it is told by its length
abbrev parse_uuid : Text → Option Uuid
parse_uuid [] = none
parse_uuid (c ∷ text) = some (length text)

abbrev webhook : List Text
webhook = codes "api" ∷ codes "v1" ∷ codes "webhooks" ∷ vendor ∷ []

abbrev shipment : List Text
shipment = codes "api" ∷ codes "v1" ∷ codes "shipments" ∷ codes "70" ∷ []

abbrev around : Surroundings
around = record {
  now = 10;
  primary_id = 1;
  duplicate_id = 2;
  env = env_of 70 71;
  classify = up;
  reachable = true;
}

abbrev delivery : Request
delivery = record { method = post; path = webhook; body = 123 ∷ 125 ∷ [] }

abbrev reading : Request
reading = record { method = get; path = shipment; body = [] }

dispatch-Fills_example :
    (first_match.dispatch create_app post webhook ≡ found Endpoint.ingest_webhook (vendor ∷ [])) ↔ (
      (post ≡ method_of Endpoint.ingest_webhook)
      × Fills (path_of Endpoint.ingest_webhook) (vendor ∷ []) webhook)
dispatch-Fills_example =
    dispatch-Fills first_match post webhook (vendor ∷ []) Endpoint.ingest_webhook

-- the path of a route, with another method; and a path of no route
wrong_method : first_match.dispatch create_app get webhook ≡ method_not_allowed
unfolding select match text_eq
wrong_method = refl

wrong_path : first_match.dispatch create_app get (codes "api" ∷ webhook) ≡ not_found
unfolding select match text_eq
wrong_path = refl

abbrev session : List (Surroundings × Request)
session = (around, delivery) ∷ (around, reading) ∷ []

serve-Runs_example :
    Runs hashing world initial
      (serve loads parse_uuid hashing world by_event_at first_match session empty_db)
    × (serve loads parse_uuid hashing world by_event_at first_match session empty_db
        ≡ serve loads parse_uuid hashing world by_event_at first_match
            (rows_where is_post session)
            empty_db)
serve-Runs_example =
    serve-Runs loads parse_uuid hashing world by_event_at first_match session initial
