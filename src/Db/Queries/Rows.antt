-- ===== src/Db/Queries/Rows.antt =====
-- The rows of `list_active_capabilities_for_agent_user` of db/queries.py: the available
-- capabilities that an available binding of the agent and the user joins.
use grantora.Prelude.{
  ℕ, ◌≡◌, ap, sym, ◌∙◌, inl, inr, Bool, true, ◌&&◌, List, [], ◌∷◌, map, filter, Memᴰ, filter-mem,
  mem-filter, ◌==◌, string_eq,
}
use mathlib.Core.List.Memᴰ
use grantora.Db.Models.{Db, Capability, Binding}
use grantora.Db.Queries.{
  capability_available, binding_available, rows_of, list_active_capabilities_for_agent_user,
}
use grantora.Db.Queries.Sorting.{mem-sort_by, sort_by-mem}
use grantora.Prelude.Text.{text_leb}

module _ (db : Db) (workspace_id agent_id user_id : ℕ) where
  -- The binding joins the capability.
  abbrev pub joins : Capability → Binding → Bool
  joins c b = b.capability_id == c.id && binding_available db workspace_id agent_id user_id b

  map_const-mem :
      (c : Capability) (bs : List Binding) {z : Capability} → Memᴰ z (map (λ _. c) bs) → z ≡ c
  map_const-mem c bs m = let (b, _, e) = Memᴰ.of_map (λ (_ : Binding). c) bs m in sym e

  rows_of-mem :
      (cs : List Capability) {z : Capability}
      → Memᴰ z (rows_of db workspace_id agent_id user_id cs)
      → Memᴰ z cs
  rows_of-mem [] m = m
  rows_of-mem (c ∷ cs) m =
      elim (Memᴰ.append_cases (map (λ (_ : Binding). c) (filter (joins c) db.bindings)) m) [
        | inl here ↦ Memᴰ.head (map_const-mem c (filter (joins c) db.bindings) here)
        | inr later ↦ Memᴰ.tail (rows_of-mem cs later)
      ]

  mem-rows_of :
      (cs : List Capability) (b : Binding) {z : Capability}
      → Memᴰ z cs
      → Memᴰ b db.bindings
      → joins z b ≡ true
      → Memᴰ z (rows_of db workspace_id agent_id user_id cs)
  mem-rows_of [] b x m j = absurd (Memᴰ.not-nil x)
  mem-rows_of (c ∷ cs) b (Memᴰ.head e) m j =
      Memᴰ.append_left (rows_of db workspace_id agent_id user_id cs) (
        rw e (
          Memᴰ.map (λ (_ : Binding). c)
            (mem-filter (joins c) db.bindings m (ap (λ z. joins z b) (sym e) ∙ j))))
  mem-rows_of (c ∷ cs) b (Memᴰ.tail later) m j = Memᴰ.append_right _ (mem-rows_of cs b later m j)

  pub list_active-mem :
      {c : Capability}
      → Memᴰ c (list_active_capabilities_for_agent_user db workspace_id agent_id user_id)
      → Memᴰ c db.capabilities × (capability_available db workspace_id c ≡ true)
  unfolding list_active_capabilities_for_agent_user
  list_active-mem m =
      filter-mem (capability_available db workspace_id) db.capabilities
        (rows_of-mem _ (sort_by-mem (λ c d. text_leb c.id d.id) _ m))

  pub mem-list_active :
      (b : Binding) {c : Capability}
      → Memᴰ c db.capabilities
      → capability_available db workspace_id c ≡ true
      → Memᴰ b db.bindings
      → joins c b ≡ true
      → Memᴰ c (list_active_capabilities_for_agent_user db workspace_id agent_id user_id)
  unfolding list_active_capabilities_for_agent_user
  mem-list_active b m available mb j =
      mem-sort_by (λ c d. text_leb c.id d.id) _
        (mem-rows_of _ b (mem-filter (capability_available db workspace_id) _ m available) mb j)
