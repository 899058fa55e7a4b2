-- ===== src/Apisix/Drift.antt =====
-- When the drift check of apisix/reconciler.py reports that the gateway is in sync.
use mathlib.Core.List.Memᴰ
use grantora.Prelude.{
  ℕ, suc, String, ◌≡◌, refl, ap, ◌↔◌, inl, inr, Bool, true, false, List, [], ◌∷◌, length, arith,
  Memᴰ, ◌==◌, nat_eq, string_eq, Bool-cases,
}
use grantora.Json.{Fields}
use grantora.Config.{Settings}
use grantora.Db.Models.{Db, ApisixRoute}
use grantora.Apisix.{
  Reply, found, missing, raised, drift_of, desired_apisix_routes, route_matches_desired,
  build_apisix_route_payload, check_apisix_route_drift,
}

module _ (settings : Settings) (get_route : String → Reply) where
  -- The gateway has the route, with every field that it should have.
  abbrev pub IsInSync : ApisixRoute → Type 0
  IsInSync route =
      (current : Fields) × (get_route route.id ≡ found current)
      × (route_matches_desired current (build_apisix_route_payload route settings) ≡ true)

  abbrev pub AllInSync : List ApisixRoute → Type 0
  AllInSync routes = (r : ApisixRoute) → Memᴰ r routes → IsInSync r

  all-cons :
      (r : ApisixRoute) (rs : List ApisixRoute) → IsInSync r → AllInSync rs → AllInSync (r ∷ rs)
  all-cons r rs h k s (Memᴰ.head e) = rw e h
  all-cons r rs h k s (Memᴰ.tail m) = k s m

  module _ (checked : ℕ) where
    -- The check of the routes that are left, with the counts so far, finds all in sync.
    abbrev Reports : List ApisixRoute → ℕ → ℕ → Type 0
    Reports routes d n = (drift_of settings get_route checked routes d n).status ≡ "in_sync"

    matched :
        (r : ApisixRoute) (routes : List ApisixRoute) (d n : ℕ) (current : Fields) (b : Bool)
        → ((d' n' : ℕ) → Reports routes d' n' → (d' ≡ 0) × AllInSync routes)
        → get_route r.id ≡ found current
        → route_matches_desired current (build_apisix_route_payload r settings) ≡ b
        → Reports (r ∷ routes) d n
        → (d ≡ 0) × AllInSync (r ∷ routes)
    unfolding drift_of
    matched r routes d n current true ih answered e h =
        let (zero_d, all) = ih d n (rw (drift_of, answered, e) at h) in
        (zero_d, all-cons r routes (current, answered, e) all)
    matched r routes d n current false ih answered e h =
        let (never, _) = ih (suc d) n (rw (drift_of, answered, e) at h) in absurd (omega arith)

    answered_by :
        (r : ApisixRoute) (routes : List ApisixRoute) (d n : ℕ) (reply : Reply)
        → ((d' n' : ℕ) → Reports routes d' n' → (d' ≡ 0) × AllInSync routes)
        → get_route r.id ≡ reply
        → Reports (r ∷ routes) d n
        → (d ≡ 0) × AllInSync (r ∷ routes)
    unfolding drift_of
    answered_by r routes d n (found current) ih e h = matched r routes d n current _ ih e refl h
    answered_by r routes d n missing ih e h =
        let (never, _) = ih (suc d) (suc n) (rw (drift_of, e) at h) in absurd (omega arith)
    answered_by r routes d n (raised code message) ih e h =
        let failed : "error" ≡ "in_sync" = rw (drift_of, e) at h in
        absurd (ground (arith, ap (λ s. s == "in_sync") failed))

    Reports-all :
        (routes : List ApisixRoute) (d n : ℕ) → Reports routes d n → (d ≡ 0) × AllInSync routes
    unfolding drift_of
    Reports-all [] d n h = elim (Bool-cases (d == 0)) [
      | inl none_drifted ↦ (ground arith, λ r m. absurd (Memᴰ.not-nil m))
      | inr drifted ↦
          let wrong : "drifted" ≡ "in_sync" = rw drifted at h in
          absurd (ground (arith, ap (λ s. s == "in_sync") wrong))
    ]
    Reports-all (r ∷ routes) d n h = answered_by r routes d n _ (Reports-all routes) refl h

    all-Reports : (routes : List ApisixRoute) (n : ℕ) → AllInSync routes → Reports routes 0 n
    unfolding drift_of
    all-Reports [] n k = refl
    all-Reports (r ∷ routes) n k =
        let (current, answered, matches) = k r (Memᴰ.head refl) in
        rw (drift_of, answered, matches) (all-Reports routes n (λ s m. k s (Memᴰ.tail m)))

-- The drift check reports that the gateway is in sync exactly if, for every route that it should have,
-- it has a route of that id with every field as it should be.
pub in_sync_iff :
    (db : Db) (settings : Settings) (get_route : String → Reply)
    → ((check_apisix_route_drift db settings get_route).status ≡ "in_sync")
      ↔ AllInSync settings get_route (desired_apisix_routes db settings)
unfolding check_apisix_route_drift
in_sync_iff db settings get_route =
    let routes = desired_apisix_routes db settings in
    (
      λ h. (Reports-all settings get_route (length routes) routes 0 0 h).1,
      all-Reports settings get_route (length routes) routes 0,
    )
