-- ===== src/Runtime/Usage.antt =====
-- `get_usage_me` of api/runtime.py: an agent's own usage events, and their totals by group.
pub mod Totals
use grantora.Prelude.{
  ℕ, ◌+◌, String, Bool, true, false, ◌&&◌, ◌||◌, Option, none, some, List, [], ◌∷◌, filter, take,
  drop, leb, ltb, ◌==◌, nat_eq, string_eq, is_some_of, if◌then◌else◌,
}
use grantora.Prelude.Text.{text_leb}
use grantora.Db.Models.{Db, Agent, UsageEvent}
use grantora.Db.Queries.Joins.{sort_by}

-- The parameters of the request; a moment is a number of microseconds.
pub record UsageQuery : Type 0 where
  pub user_id : Option ℕ
  pub capability_id : Option String
  pub status_filter : Option String
  pub start_time : Option ℕ
  pub end_time : Option ℕ
  pub limit : ℕ
  pub offset : ℕ

abbrev pub if_given : {A : Type 0} → Option A → (A → Bool) → Bool
if_given none test = true
if_given (some a) test = test a

-- `_usage_filters_for_agent`.
unfoldable pub usage_filters_for_agent : Agent → UsageQuery → UsageEvent → Bool
usage_filters_for_agent agent q e =
    e.workspace_id == agent.workspace_id
    && e.agent_id == agent.id
    && if_given q.user_id (λ wanted. is_some_of e.user_id wanted)
    && if_given q.capability_id (λ wanted. e.capability_id == wanted)
    && if_given q.status_filter (λ wanted. e.status == wanted)
    && if_given q.start_time (λ start. leb start e.timestamp)
    && if_given q.end_time (λ end_. leb e.timestamp end_)

-- The columns of the `GROUP BY`.
pub record UsageGroup : Type 0 where
  pub workspace_id : ℕ
  pub agent_id : ℕ
  pub user_id : Option ℕ
  pub capability_id : String
  pub status : String

abbrev pub group_of : UsageEvent → UsageGroup
group_of e = record {
  workspace_id = e.workspace_id;
  agent_id = e.agent_id;
  user_id = e.user_id;
  capability_id = e.capability_id;
  status = e.status;
}

-- Rows without a user are in one group.
abbrev pub same_user : Option ℕ → Option ℕ → Bool
same_user none none = true
same_user none (some _) = false
same_user (some _) none = false
same_user (some a) (some b) = a == b

unfoldable pub same_group : UsageGroup → UsageGroup → Bool
same_group g h =
    g.workspace_id == h.workspace_id
    && g.agent_id == h.agent_id
    && same_user g.user_id h.user_id
    && g.capability_id == h.capability_id
    && g.status == h.status

-- `RuntimeUsageAggregateSummary`, with the columns of the group together.
pub record UsageSummary : Type 0 where
  pub group : UsageGroup
  pub events : ℕ
  pub total_units : ℕ

abbrev pub first_of_group : UsageEvent → UsageSummary
first_of_group e = record { group = group_of e; events = 1; total_units = e.units }

abbrev pub one_more : UsageEvent → UsageSummary → UsageSummary
one_more e t = record {
  group = t.group;
  events = t.events + 1;
  total_units = t.total_units + e.units;
}

unfoldable pub add_event : UsageEvent → List UsageSummary → List UsageSummary
unfolding same_group
add_event e [] = first_of_group e ∷ []
add_event e (t ∷ ts) =
    let later = add_event e ts in
    if same_group t.group (group_of e) then one_more e t ∷ ts else t ∷ later

-- The rows of `GROUP BY` with `COUNT` and `SUM`.
unfoldable pub group_usage : List UsageEvent → List UsageSummary
unfolding add_event
group_usage [] = []
group_usage (e ∷ es) = add_event e (group_usage es)

-- `ORDER BY timestamp DESC, id DESC`.
abbrev pub newest_first : UsageEvent → UsageEvent → Bool
newest_first e f = ltb f.timestamp e.timestamp || (f.timestamp == e.timestamp && leb f.id e.id)

abbrev pub by_status : UsageSummary → UsageSummary → Bool
by_status t u = text_leb t.group.status u.group.status

pub record UsageMeResponse : Type 0 where
  pub usage : List UsageEvent
  pub summaries : List UsageSummary
  pub limit : ℕ
  pub offset : ℕ

abbrev pub selected_usage : Db → Agent → UsageQuery → List UsageEvent
selected_usage db agent q = filter (usage_filters_for_agent agent q) db.usage_events

unfoldable pub get_usage_me : Db → Agent → UsageQuery → UsageMeResponse
unfolding usage_filters_for_agent group_usage sort_by
get_usage_me db agent q = record {
  usage = take q.limit (drop q.offset (sort_by newest_first (selected_usage db agent q)));
  summaries = sort_by by_status (group_usage (selected_usage db agent q));
  limit = q.limit;
  offset = q.offset;
}
