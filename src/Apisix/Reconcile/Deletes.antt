-- ===== src/Apisix/Reconcile/Deletes.antt =====
-- What the loop of deletions of a reconciliation does.
use mathlib.Core.List.Memᴰ
use grantora.Prelude.{
  String, ◌≡◌, ◌≢◌, refl, ap, sym, ◌∙◌, inl, inr, Bool, true, false, not, ◌&&◌, Option, none, some,
  List, [], ◌∷◌, arith, Memᴰ, eq_iff, string_eq, Bool-cases,
}
use grantora.Errors.{ok, ◌>>=◌}
use grantora.Errors.Keeps.{bind-ok, pure-ok}
use grantora.Json.{Fields}
use grantora.Config.{Settings}
use grantora.Db.Models.{ApisixRoute}
use grantora.Apisix.Reconcile.{
  ApisixClient, Progress, on_gateway, has_id, delete_one, count_if, delete_if_stray, delete_strays,
  route_is_grantora_managed,
}
use grantora.Apisix.Reconcile.Puts.{IsGateway, on_gateway-ok}

module _ {G : Type 0} (client : ApisixClient G) (route_at : String → G → Option Fields)
    (is_gateway : IsGateway client route_at) (settings : Settings) where
  module _ (routes : List ApisixRoute) where
    -- Deletions keep the desired routes, and take away others only.
    abbrev pub Deleted : G → G → Type 0
    Deleted g g' =
        ((j : String) → has_id j routes ≡ true → route_at j g' ≡ route_at j g)
        × ((j : String) (c : Fields) → route_at j g' ≡ some c → route_at j g ≡ some c)

    -- A route that should not be there.
    abbrev pub IsStray : String → Fields → Type 0
    IsStray k c = (not (has_id k routes) && route_is_grantora_managed c) ≡ true

    Deleted-trans : (g g₁ g' : G) → Deleted g g₁ → Deleted g₁ g' → Deleted g g'
    Deleted-trans g g₁ g' (keep, less) (keep', less') =
        (λ j d. keep' j d ∙ keep j d, λ j c e. less j c (less' j c e))

    count_if-gateway :
        (b : Bool) (p p' : Progress G)
        → count_if settings client b p ≡ (ok tt, p')
        → p'.gateway ≡ p.gateway
    unfolding ◌>>=◌
    count_if-gateway true p p' h = sym (ap (λ q. q.1.gateway) h)
    count_if-gateway false p p' h = sym (ap (λ q. q.1.gateway) h)

    delete_one-Deleted :
        (k : String) (p p' : Progress G)
        → has_id k routes ≡ false
        → delete_one settings client k p ≡ (ok tt, p')
        → Deleted p.gateway p'.gateway × (route_at k p'.gateway ≡ none)
    unfolding ◌>>=◌
    delete_one-Deleted k p p' away h =
        let (b, p₁, done, rest) =
          bind-ok (on_gateway (client.delete_route k)) (count_if settings client) p h in
        let all = is_gateway.delete k p.gateway p₁.gateway b (on_gateway-ok _ p done) in
        rw (count_if-gateway b p₁ p' rest) (
          (
            λ j d. ground (arith, all j, eq_iff k j, ap (λ i. has_id i routes)),
            λ j c e. ground (arith, all j),
          ),
          ground (arith, all k, eq_iff k k),
        )

    delete_if_stray-Deleted :
        (k : String) (c : Fields) (p p' : Progress G)
        → delete_if_stray settings client routes k c p ≡ (ok tt, p')
        → Deleted p.gateway p'.gateway × (IsStray k c → route_at k p'.gateway ≡ none)
    unfolding delete_if_stray
    delete_if_stray-Deleted k c p p' h =
        elim (Bool-cases (not (has_id k routes) && route_is_grantora_managed c)) [
          | inl stray ↦
              let away : has_id k routes ≡ false = ground arith in
              let (deleted, gone) =
                delete_one-Deleted k p p' away (rw (delete_if_stray, stray) at h) in
              (deleted, λ s. gone)
          | inr wanted ↦
              let (_, same) = pure-ok tt p (rw (delete_if_stray, wanted) at h) in
              rw same ((λ j d. refl, λ j c e. e), λ s. absurd (ground (arith, wanted, s)))
        ]

    pub delete_strays-Deleted :
        (ms : List (String × Fields)) (p p' : Progress G)
        → delete_strays settings client routes ms p ≡ (ok tt, p')
        → Deleted p.gateway p'.gateway
          × ((k : String) (c : Fields)
              → Memᴰ (k, c) ms
              → IsStray k c
              → (d : Fields) → route_at k p'.gateway ≢ some d)
    unfolding delete_strays ◌>>=◌
    delete_strays-Deleted [] p p' h =
        let (_, same) = pure-ok tt p h in
        rw same ((λ j d. refl, λ j c e. e), λ k c m. absurd (Memᴰ.not-nil m))
    delete_strays-Deleted ((k, c) ∷ later) p p' h =
        let (_, p₁, first, h₁) =
          bind-ok (delete_if_stray settings client routes k c)
            (λ _. delete_strays settings client routes later) p h in
        let (deleted, gone) = delete_if_stray-Deleted k c p p₁ first in
        let (deleted', gone') = delete_strays-Deleted later p₁ p' h₁ in
        (
          Deleted-trans p.gateway p₁.gateway p'.gateway deleted deleted',
          λ j d m s e t. elim (Memᴰ.cases_cons m) [
            | inl x ↦
                let same_id : j ≡ k = ap (λ q. q.0) x in
                let same_route : d ≡ c = ap (λ q. q.1) x in
                let stray : IsStray k c = rw (same_id, same_route) at s in
                let there : route_at k p₁.gateway ≡ some e = rw same_id at (deleted'.1 j e t) in
                ground (arith, gone stray, there)
            | inr in_later ↦ gone' j d in_later s e t
          ],
        )
