-- ===== src/Apisix/Reconcile/Converges.antt =====
-- What a reconciliation that ends well has made of the gateway.
use mathlib.Core.List.Memᴰ
use grantora.Prelude.{
  ℕ, String, ◌≡◌, refl, ap, sym, ◌∙◌, inl, inr, true, Option, some, List, [], ◌∷◌, arith, Memᴰ,
  ◌==◌, eq_iff, string_eq, Bool-cases,
}
use grantora.Errors.{Result, ok, err, pure, ◌>>=◌}
use grantora.Errors.Keeps.{bind-ok, pure-ok}
use grantora.Json.{Fields}
use grantora.Config.{Settings}
use grantora.Db.Models.{ApisixRoute}
use grantora.Admin.{Session}
use grantora.Apisix.Reconcile.{
  result_of, ordered_routes, ensure_default_runtime_route, reconcile_apisix_routes, ApisixClient,
  Progress, on_gateway, has_id, load_current_routes, loaded, put_routes, delete_strays,
  sync_fail_closed, sync_in_turn, sync_routes, route_is_grantora_managed,
}
use grantora.Apisix.Reconcile.Puts.{
  IsGateway, on_gateway-ok, distinct_ids, has_id-mem, HasRoute, HasRoutes, Reads, IsPlain,
  put_routes-HasRoutes,
}
use grantora.Apisix.Reconcile.Deletes.{delete_strays-Deleted}

module _ {G : Type 0} (client : ApisixClient G) (route_at : String → G → Option Fields)
    (is_gateway : IsGateway client route_at) (settings : Settings) where
  -- One more route that is loaded.
  loaded-cons :
      (s : ApisixRoute) (later : List ApisixRoute) (o : Option Fields)
      (rest : List (String × Option Fields)) (g : G)
      → o ≡ route_at s.id g
      → ((r : ApisixRoute) → Memᴰ r later → loaded settings client rest r.id ≡ route_at r.id g)
      → (r : ApisixRoute) → Memᴰ r (s ∷ later)
      → loaded settings client ((s.id, o) ∷ rest) r.id ≡ route_at r.id g
  unfolding loaded
  loaded-cons s later o rest g e all r m = elim (Bool-cases (s.id == r.id)) [
    | inl same ↦
        let same_id : s.id ≡ r.id = ground (arith, eq_iff s.id r.id) in
        rw (loaded, same) (rw same_id at e)
    | inr other ↦ elim (Memᴰ.cases_cons m) [
      | inl x ↦ absurd (ground (arith, other, ap (λ (y : ApisixRoute). y.id) x, eq_iff s.id r.id))
      | inr in_later ↦ rw (loaded, other) (all r in_later)
    ]
  ]

  -- The routes that were loaded before anything was written.
  load-loaded :
      (rs : List ApisixRoute) (p p' : Progress G) (l : List (String × Option Fields))
      → load_current_routes settings client rs p ≡ (ok l, p')
      → (p'.gateway ≡ p.gateway)
        × ((r : ApisixRoute) → Memᴰ r rs → loaded settings client l r.id ≡ route_at r.id p.gateway)
  unfolding load_current_routes ◌>>=◌ loaded
  load-loaded [] p p' l h =
      let (_, same) = pure-ok [] p h in (ap (λ q. q.gateway) same, λ r m. absurd (Memᴰ.not-nil m))
  load-loaded (s ∷ later) p p' l h =
      let more =
        λ (o : Option Fields) (rest : List (String × Option Fields)). pure ((s.id, o) ∷ rest) in
      let (o, q, got, h₁) =
        bind-ok (on_gateway (client.get_route s.id))
          (λ o. load_current_routes settings client later >>= more o) p h in
      let (rest, q₁, loads, h₂) =
        bind-ok (load_current_routes settings client later) (more o) q h₁ in
      let (all, same) = pure-ok ((s.id, o) ∷ rest) q₁ h₂ in
      let (read, at_s) =
        is_gateway.get s.id p.gateway q.gateway o (on_gateway-ok (client.get_route s.id) p got) in
      let (read', at_later) = load-loaded later q q₁ rest loads in
      let later_routes =
        λ (r : ApisixRoute) (m : Memᴰ r later). at_later r m ∙ ap (route_at r.id) read in
      (
        ap (λ q. q.gateway) same ∙ read' ∙ read,
        rw (← all) (loaded-cons s later o rest p.gateway at_s later_routes),
      )

  -- What a reconciliation aims at: every route of the database is there as it should be, and every
  -- route that is marked as managed is one of the database.
  pub record IsReconciled (routes : List ApisixRoute) (g : G) : Type 0 where
    pub desired :
        (r : ApisixRoute) → Memᴰ r routes → HasRoute client route_at is_gateway settings g r
    pub no_stray :
        (k : String) (c : Fields)
        → route_at k g ≡ some c
        → route_is_grantora_managed c ≡ true
        → has_id k routes ≡ true

  -- The deletions after the puts; the list may have been read before the puts.
  deleted-IsReconciled :
      (routes : List ApisixRoute) (ms : List (String × Fields)) (g : G) (p p' : Progress G)
      → ((k : String) (c : Fields) → route_at k g ≡ some c → Memᴰ (k, c) ms)
      → HasRoutes client route_at is_gateway settings routes g p.gateway
      → delete_strays settings client routes ms p ≡ (ok tt, p')
      → IsReconciled routes p'.gateway
  deleted-IsReconciled routes ms g p p' listed (all, untouched) h =
      let ((keep, less), gone) =
        delete_strays-Deleted client route_at is_gateway settings routes ms p p' h in
      record {
        desired = λ r m.
            let (current, there, right) = all r m in
            (current, keep r.id (has_id-mem r routes m) ∙ there, right);
        no_stray = λ k c there managed. elim (Bool-cases (has_id k routes)) [
          | inl ours ↦ ours
          | inr stray ↦
              let before : route_at k g ≡ some c = sym (untouched k stray) ∙ less k c there in
              absurd (gone k c (listed k c before) (ground arith) c there)
        ];
      }

  abbrev pub ArePlain : List ApisixRoute → Type 0
  ArePlain routes =
      (r : ApisixRoute) → Memᴰ r routes → IsPlain client route_at is_gateway settings r

  module _ (routes : List ApisixRoute) (plain : ArePlain routes)
      (distinct : distinct_ids routes ≡ true) where
    loaded-Reads :
        (l : List (String × Option Fields)) (start : G)
        → ((r : ApisixRoute) → Memᴰ r routes → loaded settings client l r.id ≡ route_at r.id start)
        → Reads client route_at is_gateway settings
            (λ r. pure (loaded settings client l r.id))
            routes
            start
    loaded-Reads l start all r m q q' o e h =
        let (found, same) = pure-ok (loaded settings client l r.id) q h in
        (ap (λ x. x.gateway) same, sym found ∙ all r m ∙ sym e)

    sync_fail_closed-IsReconciled :
        (p p' : Progress G)
        → sync_fail_closed settings client routes p ≡ (ok tt, p')
        → IsReconciled routes p'.gateway
    unfolding sync_fail_closed ◌>>=◌
    sync_fail_closed-IsReconciled p p' h =
        let put = λ (l : List (String × Option Fields)).
          put_routes settings client (λ r. pure (loaded settings client l r.id)) routes in
        let delete = delete_strays settings client routes in
        let (l, q, loads, h₁) =
          bind-ok (load_current_routes settings client routes)
            (λ l. on_gateway client.list_routes >>= (λ ms. put l >>= (λ _. delete ms))) p h in
        let (ms, q₁, lists, h₂) =
          bind-ok (on_gateway client.list_routes) (λ ms. put l >>= (λ _. delete ms)) q h₁ in
        let (_, q₂, puts, h₃) = bind-ok (put l) (λ _. delete ms) q₁ h₂ in
        let (unread, at_start) = load-loaded routes p q l loads in
        let (unread', listed) =
          is_gateway.list q.gateway q₁.gateway ms (on_gateway-ok client.list_routes q lists) in
        deleted-IsReconciled routes ms q₁.gateway q₂ p' (rw unread' listed)
          (put_routes-HasRoutes client route_at is_gateway settings
            (λ r. pure (loaded settings client l r.id)) routes p.gateway q₁ q₂
            (loaded-Reads l p.gateway at_start) plain distinct
            (λ r m. ap (route_at r.id) (unread' ∙ unread)) puts)
          h₃

    sync_in_turn-IsReconciled :
        (p p' : Progress G)
        → sync_in_turn settings client routes p ≡ (ok tt, p')
        → IsReconciled routes p'.gateway
    unfolding sync_in_turn ◌>>=◌
    sync_in_turn-IsReconciled p p' h =
        let read = λ (r : ApisixRoute). on_gateway (client.get_route r.id) in
        let delete = delete_strays settings client routes in
        let (_, q, puts, h₁) =
          bind-ok (put_routes settings client read routes)
            (λ _. on_gateway client.list_routes >>= delete) p h in
        let (ms, q₁, lists, h₂) = bind-ok (on_gateway client.list_routes) delete q h₁ in
        let (unread, listed) =
          is_gateway.list q.gateway q₁.gateway ms (on_gateway-ok client.list_routes q lists) in
        let put =
          put_routes-HasRoutes client route_at is_gateway settings read routes p.gateway p q
            (λ r m s s' o e k.
              is_gateway.get r.id s.gateway s'.gateway o
                (on_gateway-ok (client.get_route r.id) s k))
            plain distinct (λ r m. refl) puts in
        deleted-IsReconciled routes ms q.gateway q₁ p' listed (rw unread (put.0, λ j away. refl)) h₂

    sync_routes-IsReconciled :
        (p p' : Progress G)
        → sync_routes settings client routes p ≡ (ok tt, p')
        → IsReconciled routes p'.gateway
    unfolding sync_routes
    sync_routes-IsReconciled p p' h = elim (Bool-cases settings.apisix_fail_closed) [
      | inl closed ↦ sync_fail_closed-IsReconciled p p' (rw (sync_routes, closed) at h)
      | inr in_turn ↦ sync_in_turn-IsReconciled p p' (rw (sync_routes, in_turn) at h)
    ]

  outcome-IsReconciled :
      (routes : List ApisixRoute) (checked : ℕ) (outcome : Result (Unit {0})) (p p' : Progress G)
      → ArePlain routes
      → distinct_ids routes ≡ true
      → sync_routes settings client routes p ≡ (outcome, p')
      → (result_of settings client checked outcome p'.changed).status ≡ "ok"
      → IsReconciled routes p'.gateway
  unfolding result_of
  outcome-IsReconciled routes checked (ok _) p p' plain distinct h e =
      sync_routes-IsReconciled routes plain distinct p p' h
  outcome-IsReconciled routes checked (err x) p p' plain distinct h e =
      absurd (ground (arith, ap (λ s. s == "ok") e))

  -- The same for a client whose calls mean what their names say where they do not raise.
  pub reconcile-IsReconciled :
      (started_at finished_at : ℕ) (s : Session) (g : G)
      → let routes = ordered_routes (ensure_default_runtime_route settings s.db) in
        ArePlain routes
        → distinct_ids routes ≡ true
        → (reconcile_apisix_routes settings client started_at finished_at s g).result.status ≡ "ok"
        → IsReconciled routes
            (reconcile_apisix_routes settings client started_at finished_at s g).gateway
  unfolding reconcile_apisix_routes
  reconcile-IsReconciled started_at finished_at s g plain distinct h =
      outcome-IsReconciled _ _ _ _ _ plain distinct refl h
