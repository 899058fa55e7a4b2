-- ===== src/Apisix/Reconcile/Puts.antt =====
-- What the calls of the client mean, and what the loop of puts of a reconciliation does.
use mathlib.Core.List.Memᴰ
use mathlib.Core.Path.{subst}
use grantora.Prelude.{
  String, ◌≡◌, ◌≢◌, refl, ap, sym, ◌∙◌, inl, inr, Bool, true, false, not, ◌&&◌, Option, none, some,
  List, [], ◌∷◌, arith, Memᴰ, ◌==◌, eq_iff, string_eq, if◌then◌else◌, Bool-cases,
}
use grantora.Errors.{Result, ok, Exec, modify, ◌>>=◌}
use grantora.Errors.Keeps.{bind-ok, pure-ok}
use grantora.Json.{Fields}
use grantora.Config.{Settings}
use grantora.Db.Models.{ApisixRoute}
use grantora.Apisix.{route_matches_desired, build_apisix_route_payload}
use grantora.Apisix.Reconcile.{
  ApisixClient, Progress, on_gateway, count_change, has_id, matches, put_desired, put_if_needed,
  put_routes,
}

-- What the calls of the client mean for the routes that the gateway has, where they do not raise.
pub record IsGateway {G : Type 0} (client : ApisixClient G) (route_at : String → G → Option Fields)
    : Type 0 where
  pub get :
      (k : String) (g g' : G) (o : Option Fields)
      → client.get_route k g ≡ (ok o, g')
      → (g' ≡ g) × (o ≡ route_at k g)
  pub list :
      (g g' : G) (routes : List (String × Fields))
      → client.list_routes g ≡ (ok routes, g')
      → (g' ≡ g) × ((k : String) (r : Fields) → route_at k g ≡ some r → Memᴰ (k, r) routes)
  pub put :
      (k : String) (payload stored : Fields) (g g' : G)
      → route_matches_desired payload payload ≡ true
      → client.put_route k payload g ≡ (ok stored, g')
      → (current : Fields) × (route_matches_desired current payload ≡ true)
        × ((j : String) → route_at j g' ≡ (if k == j then some current else route_at j g))
  pub delete :
      (k : String) (g g' : G) (b : Bool)
      → client.delete_route k g ≡ (ok b, g')
      → (j : String) → route_at j g' ≡ (if k == j then none else route_at j g)

-- The primary key: no two of the routes have the same id.
abbrev pub distinct_ids : List ApisixRoute → Bool
distinct_ids [] = true
distinct_ids (r ∷ rs) = not (has_id r.id rs) && distinct_ids rs

pub has_id-mem : (r : ApisixRoute) (rs : List ApisixRoute) → Memᴰ r rs → has_id r.id rs ≡ true
has_id-mem r [] m = absurd (Memᴰ.not-nil m)
has_id-mem r (s ∷ rs) (Memᴰ.head e) =
    ground (arith, ap (λ (x : ApisixRoute). x.id) e, eq_iff s.id r.id)
has_id-mem r (s ∷ rs) (Memᴰ.tail m) = ground (arith, has_id-mem r rs m)

other_id :
    (r s : ApisixRoute) (rs : List ApisixRoute) → has_id r.id rs ≡ false → Memᴰ s rs → r.id ≢ s.id
other_id r s rs h m e =
    let there : has_id r.id rs ≡ true = rw e (has_id-mem s rs m) in ground (arith, there)

module _ {G : Type 0} where
  pub on_gateway-ok :
      {A : Type 0} (m : Exec G A) (p : Progress G) {a : A} {p' : Progress G}
      → on_gateway m p ≡ (ok a, p')
      → m p.gateway ≡ (ok a, p'.gateway)
  unfolding on_gateway
  on_gateway-ok {A} m p h = ap (λ (q : Result A × Progress G). (q.0, q.1.gateway)) h

module _ {G : Type 0} (client : ApisixClient G) (route_at : String → G → Option Fields)
    (is_gateway : IsGateway client route_at) (settings : Settings) where
  -- The gateway has the route as it should be.
  abbrev pub HasRoute : G → ApisixRoute → Type 0
  HasRoute g r =
      (current : Fields) × (route_at r.id g ≡ some current)
      × (route_matches_desired current (build_apisix_route_payload r settings) ≡ true)

  -- The payload of a route equals itself, as every payload without a key twice does.
  abbrev pub IsPlain : ApisixRoute → Type 0
  IsPlain r =
      let payload = build_apisix_route_payload r settings in
      route_matches_desired payload payload ≡ true

  -- The same routes, but for one.
  abbrev Same : String → G → G → Type 0
  Same k g g' = (j : String) → k ≢ j → route_at j g' ≡ route_at j g

  matches-HasRoute :
      (r : ApisixRoute) (o : Option Fields) (g : G)
      → o ≡ route_at r.id g
      → matches settings client r o ≡ true
      → HasRoute g r
  matches-HasRoute r none g e h = cc
  matches-HasRoute r (some current) g e h = (current, sym e, h)

  -- A put leaves the route as it was put, and the others as they were.
  put-HasRoute :
      (r : ApisixRoute) (stored : Fields) (g g' : G)
      → IsPlain r
      → client.put_route r.id (build_apisix_route_payload r settings) g ≡ (ok stored, g')
      → HasRoute g' r × Same r.id g g'
  put-HasRoute r stored g g' plain h =
      let (current, right, all) = is_gateway.put r.id _ stored g g' plain h in
      (
        (current, ground (arith, all r.id, eq_iff r.id r.id), right),
        λ j other. ground (arith, all j, eq_iff r.id j),
      )

  put_desired-HasRoute :
      (r : ApisixRoute) (p p' : Progress G)
      → IsPlain r
      → put_desired settings client r p ≡ (ok tt, p')
      → HasRoute p'.gateway r × Same r.id p.gateway p'.gateway
  unfolding ◌>>=◌
  put_desired-HasRoute r p p' plain h =
      let put = client.put_route r.id (build_apisix_route_payload r settings) in
      let (stored, p₁, done, rest) = bind-ok (on_gateway put) (λ _. modify count_change) p h in
      let counted : count_change p₁ ≡ p' = ap (λ q. q.1) rest in
      rw (← counted) (put-HasRoute r stored p.gateway p₁.gateway plain (on_gateway-ok put p done))

  put_if_needed-HasRoute :
      (r : ApisixRoute) (o : Option Fields) (p p' : Progress G)
      → IsPlain r
      → o ≡ route_at r.id p.gateway
      → put_if_needed settings client r o p ≡ (ok tt, p')
      → HasRoute p'.gateway r × Same r.id p.gateway p'.gateway
  unfolding put_if_needed
  put_if_needed-HasRoute r o p p' plain e h = elim (Bool-cases (matches settings client r o)) [
    | inl there ↦
        let (_, same) = pure-ok tt p (rw (put_if_needed, there) at h) in
        rw same (matches-HasRoute r o p.gateway e there, λ j other. refl)
    | inr missing ↦ put_desired-HasRoute r p p' plain (rw (put_if_needed, missing) at h)
  ]

  -- How the loop gets what the gateway has: as it was at the start, and without a change.
  abbrev pub Reads :
      (ApisixRoute → Exec (Progress G) (Option Fields)) → List ApisixRoute → G → Type 0
  Reads current rs start =
      (r : ApisixRoute)
      → Memᴰ r rs
      → (q q' : Progress G) (o : Option Fields) → route_at r.id q.gateway ≡ route_at r.id start
      → current r q ≡ (ok o, q')
      → (q'.gateway ≡ q.gateway) × (o ≡ route_at r.id q.gateway)

  abbrev pub Fresh : List ApisixRoute → G → G → Type 0
  Fresh rs start g = (r : ApisixRoute) → Memᴰ r rs → route_at r.id g ≡ route_at r.id start

  abbrev pub HasRoutes : List ApisixRoute → G → G → Type 0
  HasRoutes rs g g' =
      ((r : ApisixRoute) → Memᴰ r rs → HasRoute g' r)
      × ((j : String) → has_id j rs ≡ false → route_at j g' ≡ route_at j g)

  -- A route that is put, and then the others.
  put-then :
      (r : ApisixRoute) (later : List ApisixRoute) (g g₁ g' : G)
      → has_id r.id later ≡ false
      → HasRoute g₁ r × Same r.id g g₁
      → HasRoutes later g₁ g'
      → HasRoutes (r ∷ later) g g'
  put-then r later g g₁ g' alone ((current, there, right), others) (all, untouched) =
      let stays : HasRoute g' r = (current, untouched r.id alone ∙ there, right) in
      (
        λ s m. elim (Memᴰ.cases_cons m) [ inl e ↦ rw e stays | inr later_s ↦ all s later_s ],
        λ j away.
            let not_r : r.id ≢ j = λ e. ground (arith, eq_iff r.id j) in
            untouched j (ground arith) ∙ others j not_r,
      )

  pub put_routes-HasRoutes :
      (current : ApisixRoute → Exec (Progress G) (Option Fields)) (rs : List ApisixRoute)
      (start : G) (p p' : Progress G)
      → Reads current rs start
      → ((r : ApisixRoute) → Memᴰ r rs → IsPlain r)
      → distinct_ids rs ≡ true
      → Fresh rs start p.gateway
      → put_routes settings client current rs p ≡ (ok tt, p')
      → HasRoutes rs p.gateway p'.gateway
  unfolding put_routes ◌>>=◌
  put_routes-HasRoutes current [] start p p' reads plain d fresh h =
      let (_, same) = pure-ok tt p h in rw same (λ r m. absurd (Memᴰ.not-nil m), λ j away. refl)
  put_routes-HasRoutes current (r ∷ later) start p p' reads plain d fresh h =
      let rest = put_routes settings client current later in
      let (o, q, read, h₁) =
        bind-ok (current r) (λ f. put_if_needed settings client r f >>= (λ _. rest)) p h in
      let (_, q₁, put, h₂) = bind-ok (put_if_needed settings client r o) (λ _. rest) q h₁ in
      let (unread, found) = reads r (Memᴰ.head refl) p q o (fresh r (Memᴰ.head refl)) read in
      let alone : has_id r.id later ≡ false = ground arith in
      let (here, others) =
        put_if_needed-HasRoute r o q q₁ (plain r (Memᴰ.head refl)) (rw unread found) put in
      let others' : Same r.id p.gateway q₁.gateway =
        subst (λ g. Same r.id g q₁.gateway) unread others in
      put-then r later p.gateway q₁.gateway p'.gateway alone (here, others')
        (put_routes-HasRoutes current later start q₁ p' (λ s m. reads s (Memᴰ.tail m))
          (λ s m. plain s (Memᴰ.tail m)) (ground arith)
          (λ s m. others' s.id (other_id r s later alone m) ∙ fresh s (Memᴰ.tail m)) h₂)
