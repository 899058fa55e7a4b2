-- ===== src/Apisix/Client/Calls.antt =====
-- What the calls of apisix/client.py mean, on a gateway that answers as the APISIX Admin API does.
use mathlib.Core.List.Memᴰ
use mathlib.Core.Option.{some-injective}
use mathlib.Core.Path.{subst}
use grantora.Prelude.{
  String, ◌≡◌, refl, ap, sym, ◌∙◌, ◌⊎◌, inl, inr, Bool, true, not, Option, none, some, List, [],
  ◌∷◌, arith, Memᴰ, ◌==◌, eq_iff, string_eq, nat_eq, ◌||◌, ◌&&◌, leb, if◌then◌else◌, Bool-cases,
}
use grantora.Errors.{Result, ok, pure, lift, ◌>>=◌}
use grantora.Errors.Keeps.{bind-ok, pure-ok}
use grantora.Json.{
  Json, arr, obj, Items, nil, cons, Fields, field, end, field?, keys, or_null, json_eq,
}
use grantora.Adapters.Http.{Response, Sent, response, timed_out, not_sent, raised}
use grantora.Apisix.{route_matches_desired}
use grantora.Apisix.Reconcile.Puts.{IsGateway}
use grantora.Apisix.Client.{
  AdminCall, get_one, get_all, put_one, delete_one, passed_response, route_from_response,
  route_from_list_item, set_route, routes_from, routes_from_response, send, found_route, get_route,
  list_routes, put_route, delete_route, admin_client, value_or_self, json_object, routes_of, id_of,
}
use grantora.Apisix.Client.Api.{IsItem, IsListed, AreRoutes, IsAdminApi}

abbrev handed : {A : Type 0} → A → Result A
handed a = ok a

ok-injective : {A : Type 0} {a b : A} → handed a ≡ handed b → a ≡ b
ok-injective h = cc

abbrev with_state : {G : Type 0} → Sent × G → Result Response × G
with_state x = (passed_response x.0, x.1)

value_or_self-value :
    (payload c : Fields) → or_null (field? "value" payload) ≡ obj c → value_or_self payload ≡ c
value_or_self-value payload c value = rw (value_or_self, value) refl

routes_of-list :
    (payload : Fields) (items : Items)
    → or_null (field? "list" payload) ≡ arr items
    → routes_of payload ≡ ok (routes_from items [])
routes_of-list payload items value = rw (routes_of, value) refl

abbrev with_route : Fields → Fields → Option (String × Fields)
with_route item route = elim (id_of item route) [ none ↦ none | some k ↦ some (k, route) ]

-- A response that passes is handed on.
passed_response-same : (r s : Response) → passed_response (response r) ≡ ok s → r ≡ s
unfolding passed_response
passed_response-same r s h = elim (Bool-cases (r.status_code == 404)) [
  | inl missing ↦ ok-injective (rw (passed_response, missing) at h)
  | inr found ↦ elim (Bool-cases (r.status_code == 401 || r.status_code == 403)) [
    | inl refused ↦ absurd (ground (arith, rw (passed_response, found, refused) at h))
    | inr known ↦ elim (Bool-cases (leb 400 r.status_code && leb r.status_code 599)) [
      | inl failed ↦ absurd (ground (arith, rw (passed_response, found, known, failed) at h))
      | inr good ↦ ok-injective (rw (passed_response, found, known, good) at h)
    ]
  ]
]

-- A route that has the fields that were put meets them, if these equal themselves.
matches-stored :
    (current payload later : Fields)
    → ((key : String) → Memᴰ key (keys later) → field? key current ≡ field? key payload)
    → route_matches_desired payload later ≡ true
    → route_matches_desired current later ≡ true
unfolding route_matches_desired
matches-stored current payload end agrees h = refl
matches-stored current payload (field k v later) agrees h =
    elim (Bool-cases (json_eq (or_null (field? k payload)) v)) [
      | inl same ↦
          let here : json_eq (or_null (field? k current)) v ≡ true =
            rw (agrees k (Memᴰ.head refl)) same in
          rw here (
            matches-stored current payload later (λ key m. agrees key (Memᴰ.tail m)) (rw same at h))
      | inr other ↦ absurd (ground (arith, rw other at h))
    ]

module _ {G : Type 0} (request : AdminCall → G → Sent × G) where
  sent_of :
      (call : AdminCall) (g : G) (x : Sent × G) {r : Response} {g' : G}
      → request call g ≡ x
      → with_state x ≡ (ok r, g')
      → (request call g ≡ (response r, g')) × (passed_response (response r) ≡ ok r)
  unfolding passed_response
  sent_of call g (timed_out, g₁) e h = absurd (ground (arith, h))
  sent_of call g (not_sent, g₁) e h = absurd (ground (arith, h))
  sent_of call g (raised, g₁) e h = absurd (ground (arith, h))
  sent_of call g (response r₁, g₁) {r} e h =
      let passes : passed_response (response r₁) ≡ ok r = ap (λ q. q.0) h in
      let same : r₁ ≡ r = passed_response-same r₁ r passes in
      let after = ap (λ q. q.1) h in (rw (← same, ← after) e, rw (← same) (rw (← same) at passes))

  send-response :
      (call : AdminCall) (g : G) {r : Response} {g' : G}
      → send request call g ≡ (ok r, g')
      → (request call g ≡ (response r, g')) × (passed_response (response r) ≡ ok r)
  unfolding send
  send-response call g h = sent_of call g (request call g) refl h

module _ (there : String → Option Fields) where
  mem-set_route :
      (k : String) (c : Fields) (rs : List (String × Fields)) → Memᴰ (k, c) (set_route k c rs)
  unfolding set_route
  mem-set_route k c [] = Memᴰ.head refl
  mem-set_route k c ((j, d) ∷ later) = elim (Bool-cases (j == k)) [
    | inl same ↦ rw same (Memᴰ.head (ap (λ i. (i, c)) (sym ((eq_iff j k).0 same))))
    | inr other ↦ rw other (Memᴰ.tail (mem-set_route k c later))
  ]

  -- An entry that is right stays, or is written over by itself.
  set_route-keeps :
      (k j : String) (c d : Fields) (rs : List (String × Fields))
      → there k ≡ some c
      → there j ≡ some d
      → Memᴰ (k, c) rs
      → Memᴰ (k, c) (set_route j d rs)
  unfolding set_route
  set_route-keeps k j c d [] at_k at_j m = absurd (Memᴰ.not-nil m)
  set_route-keeps k j c d ((i, b) ∷ later) at_k at_j m = elim (Bool-cases (i == j)) [
    | inl same ↦ rw same (elim (Memᴰ.cases_cons m) [
      | inl e ↦
          let same_id : k ≡ i = ap (λ q. q.0) e in
          let is_j : k ≡ j = same_id ∙ (eq_iff i j).0 same in
          let is_d : c ≡ d = some-injective _ _ (sym at_k ∙ ap there is_j ∙ at_j) in
          Memᴰ.head (rw is_d (ap (λ x. (x, d)) same_id))
      | inr below ↦ Memᴰ.tail below
    ])
    | inr other ↦ rw other (elim (Memᴰ.cases_cons m) [
      | inl e ↦ Memᴰ.head e
      | inr below ↦ Memᴰ.tail (set_route-keeps k j c d later at_k at_j below)
    ])
  ]

  item-route :
      (k : String) (c : Fields) (v : Json) → IsItem k c v → route_from_list_item v ≡ some (k, c)
  unfolding route_from_list_item
  item-route k c v (item, e, value, id) =
      rw e
        (ap (with_route item) (value_or_self-value item c value) ∙ rw (with_route, id_of, id) refl)

  mem-routes_from :
      (items : Items) (acc : List (String × Fields)) (k : String) (c : Fields)
      → AreRoutes there items
      → there k ≡ some c
      → IsListed k c items ⊎ Memᴰ (k, c) acc
      → Memᴰ (k, c) (routes_from items acc)
  unfolding routes_from
  mem-routes_from nil acc k c are at_k (inl none_listed) = absurd none_listed
  mem-routes_from nil acc k c are at_k (inr m) = m
  mem-routes_from (cons v later) acc k c ((j, d, is_item, at_j), rest) at_k h =
      let read = item-route j d v is_item in
      rw read (
        mem-routes_from later (set_route j d acc) k c rest at_k (elim h [
          | inl (inl mine) ↦
              let same : (j, d) ≡ (k, c) = some-injective _ _ (sym read ∙ item-route k c v mine) in
              inr (rw (← same) (mem-set_route j d acc))
          | inl (inr below) ↦ inl below
          | inr m ↦ inr (set_route-keeps k j c d acc at_k at_j m)
        ]))

module _ {G : Type 0} (request : AdminCall → G → Sent × G) (route_at : String → G → Option Fields)
    (api : IsAdminApi request route_at) where
  get_route-law :
      (k : String) (g g' : G) (o : Option Fields)
      → get_route request k g ≡ (ok o, g')
      → (g' ≡ g) × (o ≡ route_at k g)
  unfolding get_route ◌>>=◌
  get_route-law k g g' o h =
      let (r, g₁, sent, rest) = bind-ok (send request (get_one k)) (found_route request) g h in
      let (answer, passes) = send-response request (get_one k) g sent in
      elim (Bool-cases (r.status_code == 404)) [
        | inl missing ↦
            let (unread, gone) = api.get_missing k g g₁ r answer missing in
            let (same, after) = pure-ok none g₁ (rw (found_route, missing) at rest) in
            (after ∙ unread, sym same ∙ sym gone)
        | inr found ↦
            let (unread, (c, payload, at_k, read, value)) =
              api.get_found k g g₁ r answer passes found in
            let reads : route_from_response r ≡ ok c =
              rw (route_from_response, json_object, read)
                (ap (λ v. ok v) (value_or_self-value payload c value)) in
            let (same, after) = pure-ok (some c) g₁ (rw (found_route, found, reads) at rest) in
            (after ∙ unread, sym same ∙ sym at_k)
      ]

  list_routes-law :
      (g g' : G) (routes : List (String × Fields))
      → list_routes request g ≡ (ok routes, g')
      → (g' ≡ g) × ((k : String) (c : Fields) → route_at k g ≡ some c → Memᴰ (k, c) routes)
  unfolding list_routes ◌>>=◌
  list_routes-law g g' routes h =
      let (r, g₁, sent, rest) =
        bind-ok (send request get_all) (λ r. lift (routes_from_response r)) g h in
      let (answer, passes) = send-response request get_all g sent in
      let (unread, (payload, items, read, value, are, complete)) = api.list g g₁ r answer passes in
      let reads : routes_from_response r ≡ ok (routes_from items []) =
        rw (routes_from_response, json_object, read) (routes_of-list payload items value) in
      let (same, after) = pure-ok (routes_from items []) g₁ (rw reads at rest) in
      (
        after ∙ unread,
        rw (← same) (λ k c at_k.
            mem-routes_from (λ j. route_at j g) items [] k c are at_k (inl (complete k c at_k))),
      )

  put_route-law :
      (k : String) (payload stored : Fields) (g g' : G)
      → route_matches_desired payload payload ≡ true
      → put_route request k payload g ≡ (ok stored, g')
      → (current : Fields) × (route_matches_desired current payload ≡ true)
        × ((j : String) → route_at j g' ≡ (if k == j then some current else route_at j g))
  unfolding put_route ◌>>=◌
  put_route-law k payload stored g g' itself h =
      let (r, g₁, sent, rest) =
        bind-ok (send request (put_one k payload)) (λ r. lift (route_from_response r)) g h in
      let (answer, passes) = send-response request (put_one k payload) g sent in
      let (current, agrees, all) =
        api.put_stores k payload g g₁ r answer passes (api.put_found k payload g g₁ r answer) in
      let after : g₁ ≡ g' = ap (λ q. q.1) rest in
      (
        current,
        matches-stored current payload payload agrees itself,
        subst (λ x. (j : String) → route_at j x ≡ (if k == j then some current else route_at j g))
            after all,
      )

  delete_route-law :
      (k : String) (g g' : G) (b : Bool)
      → delete_route request k g ≡ (ok b, g')
      → (j : String) → route_at j g' ≡ (if k == j then none else route_at j g)
  unfolding delete_route ◌>>=◌
  delete_route-law k g g' b h =
      let (r, g₁, sent, rest) =
        bind-ok (send request (delete_one k)) (λ r. pure (not (r.status_code == 404))) g h in
      let (answer, passes) = send-response request (delete_one k) g sent in
      let after : g₁ ≡ g' = ap (λ q. q.1) rest in rw (← after) (api.delete k g g₁ r answer passes)

  pub client-IsGateway : IsGateway (admin_client request) route_at
  client-IsGateway = record {
    get = get_route-law;
    list = list_routes-law;
    put = put_route-law;
    delete = delete_route-law;
  }
