-- ===== src/Runtime/Usage/Totals.antt =====
-- `get_usage_me` shows an agent its own events, and its totals are those of the selected events.
use mathlib.Core.Path.{subst}
use grantora.Prelude.{
  eq_iff, ℕ, ◌+◌, ◌≤◌, ◌≡◌, refl, ap, ◌∙◌, Bool, true, false, none, some, List, [], ◌∷◌, length,
  length-take, Memᴰ, Bool-cases, inl, inr, and_true, nat_beq_iff, string_eq, nat_eq, arith, Option,
}
use grantora.Db.Models.{Db, Agent, UsageEvent}
use grantora.Db.Queries.Joins.{sort_by, insert_sorted}
use grantora.Admin.Listing.Scope.{on_page}
use grantora.Runtime.Usage.{
  UsageQuery, UsageGroup, UsageSummary, UsageMeResponse, group_of, same_user, same_group,
  first_of_group, one_more, add_event, group_usage, newest_first, by_status,
  usage_filters_for_agent, selected_usage, get_usage_me,
}

-- The sum of a number over a list.
abbrev pub sum_by : {A : Type 0} → (A → ℕ) → List A → ℕ
sum_by f [] = 0
sum_by f (x ∷ xs) = f x + sum_by f xs

module _ {A : Type 0} (f : A → ℕ) (le : A → A → Bool) where
  sum_by-insert_sorted :
      (x : A) (xs : List A) → sum_by f (insert_sorted le x xs) ≡ f x + sum_by f xs
  unfolding insert_sorted
  sum_by-insert_sorted x [] = refl
  sum_by-insert_sorted x (y ∷ ys) = elim (Bool-cases (le x y)) [
    | inl first ↦ rw first refl
    | inr later ↦ rw later (omega (arith, sum_by-insert_sorted x ys))
  ]

  -- The order does not matter to a sum.
  sum_by-sort_by : (xs : List A) → sum_by f (sort_by le xs) ≡ sum_by f xs
  unfolding sort_by
  sum_by-sort_by [] = refl
  sum_by-sort_by (x ∷ xs) =
      sum_by-insert_sorted x (sort_by le xs) ∙ ap (λ n. f x + n) (sum_by-sort_by xs)

abbrev pub counted : Bool → ℕ → ℕ
counted true n = n
counted false n = 0

counted-add : (b : Bool) (m n s : ℕ) → counted b (m + n) + s ≡ counted b n + (counted b m + s)
counted-add true m n s = omega arith
counted-add false m n s = omega arith

same_user-≡ : (a b : Option ℕ) → same_user a b ≡ true → a ≡ b
same_user-≡ none none h = refl
same_user-≡ none (some b) h = cc
same_user-≡ (some a) none h = cc
same_user-≡ (some a) (some b) h = ap some ((nat_beq_iff a b).0 h)

same_columns :
    (g h : UsageGroup)
    → g.workspace_id ≡ h.workspace_id
    → g.agent_id ≡ h.agent_id
    → g.user_id ≡ h.user_id
    → g.capability_id ≡ h.capability_id
    → g.status ≡ h.status
    → g ≡ h
same_columns g h w a u c s = λ i. record {
  workspace_id = w i;
  agent_id = a i;
  user_id = u i;
  capability_id = c i;
  status = s i;
}

-- Groups that agree in all columns are the same.
same_group-≡ : (g h : UsageGroup) → same_group g h ≡ true → g ≡ h
unfolding same_group
same_group-≡ g h t =
    let (t₁, s) = and_true _ _ t in
    let (t₂, c) = and_true _ _ t₁ in
    let (t₃, u) = and_true _ _ t₂ in
    let (w, a) = and_true _ _ t₃ in
    same_columns g h ((nat_beq_iff _ _).0 w) ((nat_beq_iff _ _).0 a) (same_user-≡ _ _ u)
      ((eq_iff _ _).0 c) ((eq_iff _ _).0 s)

-- A group that has the columns asked for: any test on groups.
module _ (p : UsageGroup → Bool) (f : UsageSummary → ℕ) (v : UsageEvent → ℕ)
    (first : (e : UsageEvent) → f (first_of_group e) ≡ v e)
    (more : (e : UsageEvent) (t : UsageSummary) → f (one_more e t) ≡ f t + v e) where
  add_event-adds :
      (e : UsageEvent) (ts : List UsageSummary)
      → sum_by (λ t. counted (p t.group) (f t)) (add_event e ts)
        ≡ counted (p (group_of e)) (v e) + sum_by (λ t. counted (p t.group) (f t)) ts
  unfolding add_event
  add_event-adds e [] = rw (first e) refl
  add_event-adds e (t ∷ ts) = elim (Bool-cases (same_group t.group (group_of e))) [
    | inl here ↦ rw here (
        let same : p t.group ≡ p (group_of e) = ap p (same_group-≡ t.group (group_of e) here) in
        rw (more e t, same) (counted-add (p (group_of e)) (f t) (v e) _))
    | inr later ↦ rw later (omega (arith, add_event-adds e ts))
  ]

  -- The totals of the groups are those of the events.
  group_usage-adds :
      (es : List UsageEvent)
      → sum_by (λ t. counted (p t.group) (f t)) (group_usage es)
        ≡ sum_by (λ e. counted (p (group_of e)) (v e)) es
  unfolding group_usage
  group_usage-adds [] = refl
  group_usage-adds (e ∷ es) = omega (arith, add_event-adds e (group_usage es), group_usage-adds es)

-- How many summaries a group has.
abbrev pub summaries_of : UsageGroup → List UsageSummary → ℕ
summaries_of g ts = sum_by (λ t. counted (same_group t.group g) 1) ts

module _ (e : UsageEvent) (g : UsageGroup) where
  add_event-others :
      (ts : List UsageSummary)
      → same_group (group_of e) g ≡ false
      → summaries_of g (add_event e ts) ≡ summaries_of g ts
  unfolding add_event
  add_event-others [] other = rw other refl
  add_event-others (t ∷ ts) other = elim (Bool-cases (same_group t.group (group_of e))) [
    | inl here ↦ rw here refl
    | inr later ↦ rw later (omega (arith, add_event-others ts other))
  ]

  apart_total :
      (t : UsageSummary)
      → same_group t.group g ≡ false
      → (ts : List UsageSummary) → summaries_of g (t ∷ ts) ≡ summaries_of g ts
  apart_total t apart ts = rw apart (omega arith)

  add_event-own :
      (ts : List UsageSummary)
      → same_group (group_of e) g ≡ true
      → summaries_of g ts ≤ 1
      → summaries_of g (add_event e ts) ≤ 1
  unfolding add_event
  add_event-own [] own h = rw own (omega arith)
  add_event-own (t ∷ ts) own h = elim (Bool-cases (same_group t.group (group_of e))) [
    | inl here ↦ rw here h
    | inr later ↦
        let same : group_of e ≡ g = same_group-≡ (group_of e) g own in
        let apart : same_group t.group g ≡ false =
          subst (λ k. same_group t.group k ≡ false) same later in
        let below : summaries_of g ts ≤ 1 = omega (arith, rw apart at h) in
        rw later (omega (arith, apart_total t apart (add_event e ts), add_event-own ts own below))
  ]

  add_event-once :
      (ts : List UsageSummary) → summaries_of g ts ≤ 1 → summaries_of g (add_event e ts) ≤ 1
  add_event-once ts h = elim (Bool-cases (same_group (group_of e) g)) [
    | inl own ↦ add_event-own ts own h
    | inr other ↦ rw (add_event-others ts other) h
  ]

group_usage-once : (g : UsageGroup) (es : List UsageEvent) → summaries_of g (group_usage es) ≤ 1
unfolding group_usage
group_usage-once g [] = omega arith
group_usage-once g (e ∷ es) = add_event-once e g (group_usage es) (group_usage-once g es)

module _ (agent : Agent) (q : UsageQuery) where
  own_columns :
      (e : UsageEvent)
      → usage_filters_for_agent agent q e ≡ true
      → (e.workspace_id ≡ agent.workspace_id) × (e.agent_id ≡ agent.id)
  unfolding usage_filters_for_agent
  own_columns e t =
      let (t₁, _) = and_true _ _ t in
      let (t₂, _) = and_true _ _ t₁ in
      let (t₃, _) = and_true _ _ t₂ in
      let (t₄, _) = and_true _ _ t₃ in
      let (t₅, _) = and_true _ _ t₄ in
      let (w, a) = and_true _ _ t₅ in ((nat_beq_iff _ _).0 w, (nat_beq_iff _ _).0 a)

  -- A page of the agent's own events, and the totals of all that the query selects: by group, so
  -- that any choice of groups has as many events and units as the selected events in those groups.
  pub record IsOwnUsage (db : Db) (r : UsageMeResponse) : Type 0 where
    pub own :
        (e : UsageEvent)
        → Memᴰ e r.usage
        → Memᴰ e db.usage_events × (e.workspace_id ≡ agent.workspace_id) × (e.agent_id ≡ agent.id)
    pub short : length r.usage ≤ q.limit
    pub once : (g : UsageGroup) → summaries_of g r.summaries ≤ 1
    pub events :
        (p : UsageGroup → Bool)
        → sum_by (λ t. counted (p t.group) t.events) r.summaries
          ≡ sum_by (λ e. counted (p (group_of e)) 1) (selected_usage db agent q)
    pub units :
        (p : UsageGroup → Bool)
        → sum_by (λ t. counted (p t.group) t.total_units) r.summaries
          ≡ sum_by (λ e. counted (p (group_of e)) e.units) (selected_usage db agent q)

  -- The answer has at most as many events as the limit, all of them of the agent itself and of its
  -- workspace. It has at most one summary for each group, and for any choice of groups its summaries
  -- there count exactly the selected events of those groups and add up exactly their units, whatever
  -- the page.
  pub get_usage_me-IsOwnUsage : (db : Db) → IsOwnUsage db (get_usage_me db agent q)
  unfolding get_usage_me
  get_usage_me-IsOwnUsage db = record {
    own = λ e m.
        let (listed, wanted) =
          on_page newest_first (usage_filters_for_agent agent q) db.usage_events q.limit q.offset
            m in
        let (workspace, itself) = own_columns e wanted in (listed, workspace, itself);
    short = length-take q.limit _;
    once = λ g.
        rw
          (sum_by-sort_by (λ t. counted (same_group t.group g) 1) by_status
            (group_usage (selected_usage db agent q)))
          (group_usage-once g (selected_usage db agent q));
    events = λ p.
        sum_by-sort_by (λ t. counted (p t.group) t.events) by_status _
        ∙ group_usage-adds p (λ t. t.events) (λ _. 1) (λ e. refl) (λ e t. refl) _;
    units = λ p.
        sum_by-sort_by (λ t. counted (p t.group) t.total_units) by_status _
        ∙ group_usage-adds p (λ t. t.total_units) (λ e. e.units) (λ e. refl) (λ e t. refl) _;
  }
