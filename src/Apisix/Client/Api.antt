-- ===== src/Apisix/Client/Api.antt =====
-- The documented answers of the APISIX Admin API, to the calls of apisix/client.py.
use grantora.Prelude.{
  String, ◌≡◌, ◌⊎◌, true, false, Option, none, some, Memᴰ, ◌==◌, string_eq, nat_eq, if◌then◌else◌,
}
use grantora.Errors.{ok}
use grantora.Json.{Json, str, arr, obj, Items, nil, cons, Fields, field?, keys, or_null}
use grantora.Adapters.Http.{Response, Sent, response}
use grantora.Apisix.Client.{AdminCall, get_one, get_all, put_one, delete_one, passed_response}

-- An item of the list with the route of an id.
abbrev pub IsItem : String → Fields → Json → Type 0
IsItem k c v =
    (item : Fields) × (v ≡ obj item)
    × (or_null (field? "value" item) ≡ obj c)
    × (or_null (field? "id" c) ≡ str k)

abbrev pub IsListed : String → Fields → Items → Type 0
IsListed k c nil = ⊥
IsListed k c (cons v later) = IsItem k c v ⊎ IsListed k c later

-- Every item is a route that is there.
abbrev pub AreRoutes : (String → Option Fields) → Items → Type 0
AreRoutes there nil = Unit {0}
AreRoutes there (cons v later) =
    ((k : String) × (c : Fields) × IsItem k c v × (there k ≡ some c)) × AreRoutes there later

-- The documented answers of the APISIX Admin API, for a response with a status that is no error, or
-- with 404. A route that is not there is missing for GET and for DELETE; PUT creates it, and stores the
-- fields that are put, perhaps among others.
pub record IsAdminApi {G : Type 0} (request : AdminCall → G → Sent × G)
    (route_at : String → G → Option Fields) : Type 0 where
  pub get_found :
      (k : String) (g g' : G) (r : Response)
      → request (get_one k) g ≡ (response r, g')
      → passed_response (response r) ≡ ok r
      → (r.status_code == 404) ≡ false
      → (g' ≡ g)
        × ((c : Fields) × (payload : Fields) × (route_at k g ≡ some c)
            × (r.json ≡ some (obj payload))
            × (or_null (field? "value" payload) ≡ obj c))
  pub get_missing :
      (k : String) (g g' : G) (r : Response)
      → request (get_one k) g ≡ (response r, g')
      → (r.status_code == 404) ≡ true
      → (g' ≡ g) × (route_at k g ≡ none)
  pub list :
      (g g' : G) (r : Response)
      → request get_all g ≡ (response r, g')
      → passed_response (response r) ≡ ok r
      → (g' ≡ g)
        × ((payload : Fields) × (items : Items) × (r.json ≡ some (obj payload))
            × (or_null (field? "list" payload) ≡ arr items)
            × AreRoutes (λ k. route_at k g) items
            × ((k : String) (c : Fields) → route_at k g ≡ some c → IsListed k c items))
  pub put_stores :
      (k : String) (payload : Fields) (g g' : G) (r : Response)
      → request (put_one k payload) g ≡ (response r, g')
      → passed_response (response r) ≡ ok r
      → (r.status_code == 404) ≡ false
      → (current : Fields) × ((key : String)
          → Memᴰ key (keys payload)
          → field? key current ≡ field? key payload)
        × ((j : String) → route_at j g' ≡ (if k == j then some current else route_at j g))
  pub put_found :
      (k : String) (payload : Fields) (g g' : G) (r : Response)
      → request (put_one k payload) g ≡ (response r, g')
      → (r.status_code == 404) ≡ false
  pub delete :
      (k : String) (g g' : G) (r : Response)
      → request (delete_one k) g ≡ (response r, g')
      → passed_response (response r) ≡ ok r
      → (j : String) → route_at j g' ≡ (if k == j then none else route_at j g)
