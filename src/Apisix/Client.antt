-- ===== src/Apisix/Client.antt =====
-- apisix/client.py. What httpx comes back with is a parameter that works on the state of the gateway;
-- a call is the method with its path, where the route's id is quoted.
pub mod Api
pub mod Calls
pub mod Sync
use grantora.Prelude.{
  ℕ, String, Bool, true, false, ◌&&◌, ◌||◌, Option, none, some, List, [], ◌∷◌, leb, ◌==◌, nat_eq,
  string_eq, if◌then◌else◌, not,
}
use grantora.Prelude.Text.{last_segment, rstrip_slash}
use grantora.Errors.{ApiError, api_error, Result, ok, err, Exec, pure, lift, ◌>>=◌}
use grantora.Json.{Json, str, arr, obj, Items, nil, cons, Fields, field?, or_null}
use grantora.Adapters.Http.{Response, Sent, response, timed_out, not_sent, raised}
use grantora.Apisix.Reconcile.{ApisixClient}

-- `GET /apisix/admin/routes/{id}`, `GET /apisix/admin/routes`, and PUT and DELETE of a route.
pub data AdminCall : Type 0 where
  get_one : String → AdminCall
  get_all : AdminCall
  put_one : String → Fields → AdminCall
  delete_one : String → AdminCall

-- `ApisixAdminAPIError`; its status code is not read.
abbrev admin_error : String → String → ApiError
admin_error code safe_message = api_error 502 code safe_message

-- What `_request` makes of what httpx comes back with: a 404 goes through. Another exception is
-- reported as the reconciliation reports it.
unfoldable pub passed_response : Sent → Result Response
passed_response timed_out =
    err (admin_error "apisix_admin_timeout" "APISIX Admin API did not respond before the timeout")
passed_response not_sent =
    err (admin_error "apisix_admin_unavailable" "APISIX Admin API is unavailable")
passed_response raised = err (admin_error "apisix_sync_failed" "APISIX route reconciliation failed")
passed_response (response r) =
    if r.status_code == 404
    then ok r
    else if r.status_code == 401 || r.status_code == 403
    then err (
        admin_error "apisix_admin_unauthorized"
          "APISIX Admin API rejected the configured credentials")
    else if leb 400 r.status_code && leb r.status_code 599
    then err (admin_error "apisix_admin_error" "APISIX Admin API returned an error")
    else ok r

abbrev pub admin_invalid_response : String → ApiError
admin_invalid_response message = admin_error "apisix_admin_invalid_response" message

-- `_json_object`.
unfoldable pub json_object : Response → String → Result Fields
json_object r message = elim r.json [
  | none ↦ err (admin_invalid_response "APISIX Admin API returned invalid JSON")
  | some (obj payload) ↦ ok payload
  | some _ ↦ err (admin_invalid_response message)
]

-- The value of a payload, or the payload itself.
abbrev pub value_or_self : Fields → Fields
value_or_self payload = elim (or_null (field? "value" payload)) [ obj value ↦ value | _ ↦ payload ]

abbrev map_ok : {A B : Type 0} → (A → B) → Result A → Result B
map_ok f (ok a) = ok (f a)
map_ok f (err e) = err e

-- `_route_from_response`.
unfoldable pub route_from_response : Response → Result Fields
unfolding json_object
route_from_response r =
    map_ok value_or_self (json_object r "APISIX Admin API returned an invalid route response")

-- `_route_id_from_key`.
unfoldable pub route_id_from_key : Json → Option String
unfolding last_segment rstrip_slash
route_id_from_key (str key) =
    let name = last_segment (rstrip_slash key) in if name == "" then none else some name
route_id_from_key _ = none

-- `_route_from_list_item`; `none` for the pair of two `None`.
abbrev pub id_of : Fields → Fields → Option String
id_of item route = elim (or_null (field? "id" route)) [
  | str route_id ↦ some route_id
  | _ ↦ route_id_from_key (or_null (field? "key" item))
]

unfoldable pub route_from_list_item : Json → Option (String × Fields)
unfolding route_id_from_key
route_from_list_item (obj item) =
    let route = value_or_self item in
    elim (id_of item route) [ none ↦ none | some route_id ↦ some (route_id, route) ]
route_from_list_item _ = none

-- `routes[route_id] = route`: a key that is there keeps its place.
unfoldable pub set_route : String → Fields → List (String × Fields) → List (String × Fields)
set_route route_id route [] = (route_id, route) ∷ []
set_route route_id route ((k, r) ∷ later) =
    let rest = set_route route_id route later in
    if k == route_id then (k, route) ∷ later else (k, r) ∷ rest

abbrev pub set_item : Option (String × Fields) → List (String × Fields) → List (String × Fields)
set_item none routes = routes
set_item (some (route_id, route)) routes = set_route route_id route routes

-- The loop of `_routes_from_response`, with the routes so far.
unfoldable pub routes_from : Items → List (String × Fields) → List (String × Fields)
unfolding route_from_list_item set_route
routes_from nil routes = routes
routes_from (cons item later) routes =
    routes_from later (set_item (route_from_list_item item) routes)

abbrev pub routes_of : Fields → Result (List (String × Fields))
routes_of payload = elim (or_null (field? "list" payload)) [
  | arr items ↦ ok (routes_from items [])
  | _ ↦ err (admin_invalid_response "APISIX Admin API returned an invalid route list response")
]

unfoldable pub routes_from_response : Response → Result (List (String × Fields))
unfolding json_object routes_from
routes_from_response r =
    elim (json_object r "APISIX Admin API returned an invalid route list response") [
      | err e ↦ err e
      | ok payload ↦ routes_of payload
    ]

abbrev route_of : Fields → Option Fields
route_of route = some route

module _ {G : Type 0} (request : AdminCall → G → Sent × G) where
  -- `_request`.
  unfoldable pub send : AdminCall → Exec G Response
  unfolding passed_response
  send call g = let (sent, g') = request call g in (passed_response sent, g')

  abbrev pub found_route : Response → Exec G (Option Fields)
  found_route r =
      if r.status_code == 404 then pure none else lift (map_ok route_of (route_from_response r))

  unfoldable pub get_route : String → Exec G (Option Fields)
  unfolding ◌>>=◌ send route_from_response
  get_route route_id = send (get_one route_id) >>= found_route

  unfoldable pub list_routes : Exec G (List (String × Fields))
  unfolding ◌>>=◌ send routes_from_response
  list_routes = send get_all >>= (λ r. lift (routes_from_response r))

  unfoldable pub put_route : String → Fields → Exec G Fields
  unfolding ◌>>=◌ send route_from_response
  put_route route_id route = send (put_one route_id route) >>= (λ r. lift (route_from_response r))

  unfoldable pub delete_route : String → Exec G Bool
  unfolding ◌>>=◌ send
  delete_route route_id = send (delete_one route_id) >>= (λ r. pure (not (r.status_code == 404)))

  abbrev pub admin_client : ApisixClient G
  admin_client = record {
    get_route = get_route;
    list_routes = list_routes;
    put_route = put_route;
    delete_route = delete_route;
  }
