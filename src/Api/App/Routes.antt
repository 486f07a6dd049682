-- ===== src/Api/App/Routes.antt =====
-- Which requests reach which endpoint.
use glacis.Base.{
  ◌≡◌, ◌∙◌, refl, sym, ap, subst, Option, none, some, List, [], ◌∷◌, ◌↔◌, arith, Text, text_eq,
  text_eq_refl, Member, here, there, All-at, if◌then◌else◌,
}
use glacis.Api.App.{
  Method, Segment, lit, param, Endpoint, Route, route_of, path_of, method_of, create_app, Fills,
  ended, literal, captured, found, Router,
}

-- the captures of a path, as a test
unfoldable pub match : List Segment → List Text → Option (List Text)
match [] [] = some []
match [] (part ∷ parts) = none
match (_ ∷ _) [] = none
match (lit text ∷ more) (part ∷ parts) = if text_eq text part then match more parts else none
match (param ∷ more) ([] ∷ parts) = none
match (param ∷ more) (part ∷ parts) = elim (match more parts) [
  | none ↦ none
  | some rest ↦ some (part ∷ rest)
]

pub Fills-match :
    {pattern : List Segment} {captures path : List Text}
    → Fills pattern captures path
    → match pattern path ≡ some captures
unfolding match
Fills-match ended = refl
Fills-match (literal {text} f) = rw (text_eq_refl text) (Fills-match f)
Fills-match (captured f) = rw (Fills-match f) refl

-- two endpoints of one method have no path in common, and a path has one reading
by_match :
    (e e' : Endpoint) (cs cs' path : List Text)
    → method_of e ≡ method_of e'
    → Fills (path_of e) cs path
    → match (path_of e') path ≡ some cs'
    → found e cs ≡ found e' cs'
unfolding match text_eq
by_match Endpoint.healthz Endpoint.healthz cs cs' path s (literal ended) h = ground (arith, h)
by_match Endpoint.healthz Endpoint.ingest_webhook cs cs' path s f h = cc
by_match Endpoint.healthz Endpoint.get_shipment cs cs' path s (literal ended) h = cc
by_match Endpoint.healthz Endpoint.get_invoice cs cs' path s (literal ended) h = cc
by_match Endpoint.healthz Endpoint.retry_endpoint cs cs' path s f h = cc
by_match Endpoint.ingest_webhook Endpoint.healthz cs cs' path s f h = cc
by_match Endpoint.ingest_webhook Endpoint.ingest_webhook cs cs' path s
      (literal (literal (literal (captured ended)))) h =
    ground (arith, h)
by_match Endpoint.ingest_webhook Endpoint.get_shipment cs cs' path s f h = cc
by_match Endpoint.ingest_webhook Endpoint.get_invoice cs cs' path s f h = cc
by_match Endpoint.ingest_webhook Endpoint.retry_endpoint cs cs' path s
      (literal (literal (literal (captured ended)))) h =
    cc
by_match Endpoint.get_shipment Endpoint.healthz cs cs' path s
      (literal (literal (literal (captured ended)))) h =
    cc
by_match Endpoint.get_shipment Endpoint.ingest_webhook cs cs' path s f h = cc
by_match Endpoint.get_shipment Endpoint.get_shipment cs cs' path s
      (literal (literal (literal (captured ended)))) h =
    ground (arith, h)
by_match Endpoint.get_shipment Endpoint.get_invoice cs cs' path s
      (literal (literal (literal (captured ended)))) h =
    cc
by_match Endpoint.get_shipment Endpoint.retry_endpoint cs cs' path s f h = cc
by_match Endpoint.get_invoice Endpoint.healthz cs cs' path s
      (literal (literal (literal (captured ended)))) h =
    cc
by_match Endpoint.get_invoice Endpoint.ingest_webhook cs cs' path s f h = cc
by_match Endpoint.get_invoice Endpoint.get_shipment cs cs' path s
      (literal (literal (literal (captured ended)))) h =
    cc
by_match Endpoint.get_invoice Endpoint.get_invoice cs cs' path s
      (literal (literal (literal (captured ended)))) h =
    ground (arith, h)
by_match Endpoint.get_invoice Endpoint.retry_endpoint cs cs' path s f h = cc
by_match Endpoint.retry_endpoint Endpoint.healthz cs cs' path s f h = cc
by_match Endpoint.retry_endpoint Endpoint.ingest_webhook cs cs' path s
      (literal (literal (literal (captured (literal ended))))) h =
    cc
by_match Endpoint.retry_endpoint Endpoint.get_shipment cs cs' path s f h = cc
by_match Endpoint.retry_endpoint Endpoint.get_invoice cs cs' path s f h = cc
by_match Endpoint.retry_endpoint Endpoint.retry_endpoint cs cs' path s
      (literal (literal (literal (captured (literal ended))))) h =
    ground (arith, h)

route-Member : (e : Endpoint) → Member (route_of e) create_app
route-Member Endpoint.healthz = here refl
route-Member Endpoint.ingest_webhook = there (here refl)
route-Member Endpoint.get_shipment = there (there (here refl))
route-Member Endpoint.get_invoice = there (there (there (here refl)))
route-Member Endpoint.retry_endpoint = there (there (there (there (here refl))))

-- each route is that of its endpoint
route-of_endpoint :
    (r : Route)
    → Member r create_app
    → (r.method ≡ method_of r.endpoint) × (r.path ≡ path_of r.endpoint)
route-of_endpoint r m =
    let own : Route → Type 0 =
      λ q. (q.method ≡ method_of q.endpoint) × (q.path ≡ path_of q.endpoint) in
    All-at own create_app
      ((refl, refl), ((refl, refl), ((refl, refl), ((refl, refl), ((refl, refl), tt))))) m

-- A request reaches an endpoint with given parameters exactly if it has the endpoint's method, and
-- its path is that of the endpoint with these texts, none of them empty, in the place of its
-- parameters: no route hides another.
pub dispatch-Fills :
    (router : Router) (method : Method) (path captures : List Text) (e : Endpoint)
    → (router.dispatch create_app method path ≡ found e captures)
      ↔ ((method ≡ method_of e) × Fills (path_of e) captures path)
dispatch-Fills router method path captures e = (
  λ h.
      let (r, m, same, t, f) = router.dispatch_sound create_app method path captures e h in
      let (of_method, of_path) = route-of_endpoint r m in
      (
        sym t ∙ of_method ∙ ap method_of same,
        subst (λ pattern. Fills pattern captures path) (of_path ∙ ap path_of same) f,
      ),
  λ h.
      let (e', cs, found_it) =
        router.dispatch_complete create_app (route_of e) path captures (route-Member e) h.1 in
      let (r, m, same, t, f) = router.dispatch_sound create_app (method_of e) path cs e' found_it in
      let (of_method, of_path) = route-of_endpoint r m in
      let one =
        by_match e e' captures cs path (sym t ∙ of_method ∙ ap method_of same) h.1
          (Fills-match (subst (λ pattern. Fills pattern cs path) (of_path ∙ ap path_of same) f)) in
      subst (λ x. router.dispatch create_app x path ≡ found e captures) (sym h.0)
        (found_it ∙ sym one),
)
