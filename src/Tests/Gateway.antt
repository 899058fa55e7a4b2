-- ===== src/Tests/Gateway.antt =====
-- An HTTP server that keeps routes as the APISIX Admin API does, and runs and witnesses for the
-- reconciliation of apisix/reconciler.py with the client of apisix/client.py.
use mathlib.Core.List.Memᴰ
use mathlib.Core.Option.{some-injective}
use mathlib.Core.Path.{subst}
use grantora.Prelude.{
  ℕ, String, ◌≡◌, refl, ap, sym, ◌∙◌, ◌⊎◌, inl, inr, any-of_mem, Bool, true, false, any, Option,
  none, some, List, [], ◌∷◌, arith, Memᴰ, ◌==◌, eq_iff, string_eq, nat_eq, if◌then◌else◌,
  Bool-cases, Option-cases,
}
use grantora.Errors.{ok}
use grantora.Json.{Fields, field, end, str, obj, arr, Items, nil, cons, keys, field?, or_null}
use grantora.Db.Models.{ApisixRoute}
use grantora.Admin.{Session}
use grantora.Adapters.Http.{Response, Sent, response}
use grantora.Apisix.{route_matches_desired, build_apisix_route_payload}
use grantora.Apisix.Reconcile.{
  ordered_routes, ensure_default_runtime_route, reconcile_apisix_routes, Reconciled,
}
use grantora.Apisix.Reconcile.Puts.{distinct_ids}
use grantora.Apisix.Reconcile.Recorded.{IsRecorded, reconcile-IsRecorded}
use grantora.Apisix.Client.{
  AdminCall, get_one, get_all, put_one, delete_one, passed_response, get_route, list_routes,
  put_route, delete_route, admin_client,
}
use grantora.Apisix.Client.Api.{IsAdminApi, AreRoutes, IsListed}
use grantora.Apisix.Client.Sync.{IsInLine, sync-IsInLine}
use grantora.Tests.Fixture.{small_db, settings}

-- The payloads that were put, by the ids.
abbrev Routes : Type 0
Routes = List (String × Fields)

abbrev with_id : String → Fields → Fields
with_id k payload = field "id" (str k) payload

unfoldable route_at : String → Routes → Option Fields
route_at k [] = none
route_at k ((j, r) ∷ later) =
    let rest = route_at k later in if j == k then some (with_id k r) else rest

unfoldable remove : String → Routes → Routes
remove k [] = []
remove k ((j, r) ∷ later) = let rest = remove k later in if j == k then rest else (j, r) ∷ rest

abbrev answer : ℕ → Fields → Response
answer status_code payload = record {
  status_code = status_code;
  content_length = 0;
  json = some (obj payload);
}

abbrev value_of : Fields → Fields
value_of route = field "value" (obj route) end

-- An item for every id.
unfoldable items_from : Routes → Routes → Items
unfolding route_at
items_from all [] = nil
items_from all ((j, r) ∷ later) =
    let rest = items_from all later in
    elim (route_at j all) [ none ↦ rest | some c ↦ cons (obj (value_of c)) rest ]

abbrev found_or_not : Option Fields → Response
found_or_not none = answer 404 end
found_or_not (some c) = answer 200 (value_of c)

-- A payload with an id of its own is refused.
abbrev has_own_id : Fields → Bool
has_own_id payload = any (λ key. key == "id") (keys payload)

unfoldable request : AdminCall → Routes → Sent × Routes
unfolding route_at remove items_from
request (get_one k) routes = (response (found_or_not (route_at k routes)), routes)
request get_all routes =
    (response (answer 200 (field "list" (arr (items_from routes routes)) end)), routes)
request (put_one k payload) routes =
    if has_own_id payload
    then (response (answer 400 end), routes)
    else (response (answer 200 (value_of (with_id k payload))), (k, payload) ∷ remove k routes)
request (delete_one k) routes = (response (answer 200 end), remove k routes)

route_at-id :
    (k : String) (g : Routes) {c : Fields} → route_at k g ≡ some c → or_null (field? "id" c) ≡ str k
unfolding route_at
route_at-id k [] h = cc
route_at-id k ((j, r) ∷ later) {c} h = elim (Bool-cases (j == k)) [
  | inl here ↦
      let same : with_id k r ≡ c = some-injective _ _ (rw (route_at, here) at h) in rw (← same) refl
  | inr other ↦ route_at-id k later (rw (route_at, other) at h)
]

items-AreRoutes : (all part : Routes) → AreRoutes (λ k. route_at k all) (items_from all part)
unfolding items_from
items-AreRoutes all [] = tt
items-AreRoutes all ((j, r) ∷ later) = elim (Option-cases (route_at j all)) [
  | inl gone ↦ rw (items_from, gone) (items-AreRoutes all later)
  | inr (c, e) ↦
      rw (items_from, e)
        ((j, c, (value_of c, refl, refl, route_at-id j all e), e), items-AreRoutes all later)
]

items-IsListed :
    (all part : Routes) (k : String) {c d : Fields}
    → route_at k all ≡ some c
    → route_at k part ≡ some d
    → IsListed k c (items_from all part)
unfolding items_from route_at
items-IsListed all [] k at_k h = absurd (ground (arith, h))
items-IsListed all ((j, r) ∷ later) k {c} at_k h = elim (Bool-cases (j == k)) [
  | inl here ↦
      let at_j : route_at j all ≡ some c = ap (λ i. route_at i all) ((eq_iff j k).0 here) ∙ at_k in
      rw (items_from, at_j) (inl (value_of c, refl, refl, route_at-id k all at_k))
  | inr other ↦
      let below = items-IsListed all later k at_k (rw (route_at, other) at h) in
      elim (Option-cases (route_at j all)) [
        | inl gone ↦ rw (items_from, gone) below
        | inr (b, e) ↦ rw (items_from, e) (inr below)
      ]
]

route_at-remove :
    (j k : String) (g : Routes) → route_at j (remove k g) ≡ (if k == j then none else route_at j g)
unfolding route_at remove
route_at-remove j k [] = ground arith
route_at-remove j k ((i, s) ∷ later) =
    ground (arith, route_at-remove j k later, eq_iff i j, eq_iff i k, eq_iff k j)

response-injective : {a r : Response} → response a ≡ response r → a ≡ r
response-injective h = cc

abbrev reply : Response → Routes → Sent × Routes
reply a g = (response a, g)

answered : {a r : Response} {g g' : Routes} → reply a g ≡ reply r g' → (a ≡ r) × (g' ≡ g)
answered h = (response-injective (ap (λ q. q.0) h), sym (ap (λ q. q.1) h))

missing_or_found :
    (k : String) (g g' : Routes) (r : Response)
    → request (get_one k) g ≡ (response r, g')
    → ((g' ≡ g) × (route_at k g ≡ none) × (answer 404 end ≡ r))
      ⊎ ((g' ≡ g) × (c : Fields) × (route_at k g ≡ some c) × (answer 200 (value_of c) ≡ r))
unfolding request
missing_or_found k g g' r h = elim (Option-cases (route_at k g)) [
  | inl gone ↦ let (same, unread) = answered (rw gone at h) in inl (unread, gone, same)
  | inr (c, e) ↦ let (same, unread) = answered (rw e at h) in inr (unread, c, e, same)
]

get_found-law :
    (k : String) (g g' : Routes) (r : Response)
    → request (get_one k) g ≡ (response r, g')
    → (r.status_code == 404) ≡ false
    → (g' ≡ g)
      × ((c : Fields) × (payload : Fields) × (route_at k g ≡ some c)
          × (r.json ≡ some (obj payload))
          × (or_null (field? "value" payload) ≡ obj c))
get_found-law k g g' r h found = elim (missing_or_found k g g' r h) [
  | inl (unread, gone, same) ↦
      absurd (ground (arith, found, ap (λ (x : Response). x.status_code) same))
  | inr (unread, c, e, same) ↦
      (unread, (c, value_of c, e, sym (ap (λ (x : Response). x.json) same), refl))
]

get_missing-law :
    (k : String) (g g' : Routes) (r : Response)
    → request (get_one k) g ≡ (response r, g')
    → (r.status_code == 404) ≡ true
    → (g' ≡ g) × (route_at k g ≡ none)
get_missing-law k g g' r h missing = elim (missing_or_found k g g' r h) [
  | inl (unread, gone, same) ↦ (unread, gone)
  | inr (unread, c, e, same) ↦
      absurd (ground (arith, missing, ap (λ (x : Response). x.status_code) same))
]

with_id-agrees :
    (k : String) (payload : Fields)
    → has_own_id payload ≡ false
    → (key : String) → Memᴰ key (keys payload)
    → field? key (with_id k payload) ≡ field? key payload
with_id-agrees k payload other key m = elim (Bool-cases ("id" == key)) [
  | inr not_id ↦ rw not_id refl
  | inl id ↦
      let is_id : (key == "id") ≡ true = (eq_iff key "id").1 (sym ((eq_iff "id" key).0 id)) in
      absurd (ground (arith, other, any-of_mem (λ i. i == "id") (keys payload) m is_id))
]

refused_or_stored :
    (k : String) (payload : Fields) (g g' : Routes) (r : Response)
    → request (put_one k payload) g ≡ (response r, g')
    → (answer 400 end ≡ r)
      ⊎ ((has_own_id payload ≡ false)
          × ((k, payload) ∷ remove k g ≡ g')
          × (answer 200 (value_of (with_id k payload)) ≡ r))
unfolding request
refused_or_stored k payload g g' r h = elim (Bool-cases (has_own_id payload)) [
  | inl own ↦ inl (answered (rw (request, own) at h)).0
  | inr other ↦
      let (same, after) = answered (rw (request, other) at h) in inr (other, sym after, same)
]

route_at-put :
    (k j : String) (payload : Fields) (g : Routes)
    → route_at j ((k, payload) ∷ remove k g)
      ≡ (if k == j then some (with_id k payload) else route_at j g)
unfolding route_at
route_at-put k j payload g = elim (Bool-cases (k == j)) [
  | inl same ↦ rw (route_at, same) (ap (λ i. some (with_id i payload)) (sym ((eq_iff k j).0 same)))
  | inr other ↦ ground (arith, other, route_at-remove j k g)
]

put_stores-law :
    (k : String) (payload : Fields) (g g' : Routes) (r : Response)
    → request (put_one k payload) g ≡ (response r, g')
    → passed_response (response r) ≡ ok r
    → (current : Fields) × ((key : String)
        → Memᴰ key (keys payload)
        → field? key current ≡ field? key payload)
      × ((j : String) → route_at j g' ≡ (if k == j then some current else route_at j g))
unfolding passed_response
put_stores-law k payload g g' r h passes = elim (refused_or_stored k payload g g' r h) [
  | inl same ↦ absurd (ground (arith, rw (← same) at passes))
  | inr (other, after, same) ↦ (
    with_id k payload,
    with_id-agrees k payload other,
    rw (← after) (λ j. route_at-put k j payload g),
  )
]

put_found-law :
    (k : String) (payload : Fields) (g g' : Routes) (r : Response)
    → request (put_one k payload) g ≡ (response r, g')
    → (r.status_code == 404) ≡ false
put_found-law k payload g g' r h = elim (refused_or_stored k payload g g' r h) [
  | inl same ↦ rw (← same) refl
  | inr (other, after, same) ↦ rw (← same) refl
]

request-IsAdminApi : IsAdminApi request route_at
unfolding request
request-IsAdminApi = record {
  get_found = λ k g g' r h passes found. get_found-law k g g' r h found;
  get_missing = get_missing-law;
  list = λ g g' r h passes.
      let (same, unread) = answered h in
      (
        unread,
        (
          field "list" (arr (items_from g g)) end,
          items_from g g,
          sym (ap (λ (x : Response). x.json) same),
          refl,
          items-AreRoutes g g,
          λ k c e. items-IsListed g g k e e,
        ),
      );
  put_stores = λ k payload g g' r h passes found. put_stores-law k payload g g' r h passes;
  put_found = put_found-law;
  delete =
      λ k g g' r h passes. let (same, after) = answered h in rw after (λ j. route_at-remove j k g);
}

abbrev quiet : Session
quiet = record { db = small_db; committed = small_db }

-- The gateway has a route that Grantora made before, and one of another program.
abbrev before : Routes
before =
    ("old", field "labels" (obj (field "grantora_managed" (str "true") end)) end)
    ∷ ("other", field "uri" (str "/x") end)
    ∷ []

-- The default route is put and the old one is deleted; a second run finds nothing to do.
abbrev once : Reconciled settings (admin_client request)
once = reconcile_apisix_routes settings (admin_client request) 1 2 quiet before

two_changes : once.result.changed_routes ≡ 2
unfolding reconcile_apisix_routes get_route list_routes put_route delete_route request
two_changes = refl

then_none :
    (reconcile_apisix_routes settings
      (admin_client request)
      3
      4
      once.session
      once.gateway).result.changed_routes
    ≡ 0
unfolding reconcile_apisix_routes get_route list_routes put_route delete_route request
    route_matches_desired
then_none = refl

distinct : distinct_ids (ordered_routes (ensure_default_runtime_route settings quiet.db)) ≡ true
unfolding ordered_routes ensure_default_runtime_route
distinct = refl

plain :
    (r : ApisixRoute)
    → Memᴰ r (ordered_routes (ensure_default_runtime_route settings quiet.db))
    → let payload = build_apisix_route_payload r settings in
      route_matches_desired payload payload ≡ true
unfolding ordered_routes ensure_default_runtime_route build_apisix_route_payload
    route_matches_desired
plain r (Memᴰ.head e) =
    subst
      (λ x.
        let payload = build_apisix_route_payload x settings in
        route_matches_desired payload payload ≡ true)
      (sym e) refl
plain r (Memᴰ.tail m) = absurd (Memᴰ.not-nil m)

ends_ok : once.result.status ≡ "ok"
unfolding reconcile_apisix_routes get_route list_routes put_route delete_route request
ends_ok = refl

sync-IsInLine_example : IsInLine request route_at request-IsAdminApi settings 1 2 quiet before
sync-IsInLine_example =
    sync-IsInLine request route_at request-IsAdminApi settings 1 2 quiet before plain distinct
      ends_ok

reconcile-IsRecorded_example : IsRecorded settings (admin_client request) 1 2 quiet once
reconcile-IsRecorded_example = reconcile-IsRecorded settings (admin_client request) 1 2 quiet before
