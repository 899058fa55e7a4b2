-- ===== src/Tests/Usage.antt =====
-- Runs and witnesses for `get_usage_me` of api/runtime.py.
use grantora.Prelude.{ℕ, String, ◌≡◌, refl, Option, none, some, [], ◌∷◌}
use grantora.Db.Models.{Db, UsageEvent}
use grantora.Db.Queries.Joins.{sort_by}
use grantora.Prelude.Text.{text_leb}
use grantora.Runtime.Usage.{UsageQuery, UsageGroup, group_usage, get_usage_me}
use grantora.Runtime.Usage.Totals.{IsOwnUsage, get_usage_me-IsOwnUsage}
use grantora.Tests.Fixture.{small_db, hermes}

abbrev used : ℕ → ℕ → ℕ → Option ℕ → ℕ → String → UsageEvent
used id timestamp agent_id user_id units status = record {
  id = id;
  timestamp = timestamp;
  workspace_id = 1;
  agent_id = agent_id;
  user_id = user_id;
  capability_id = "mock.phonebook.search";
  application_instance_id = some 2;
  units = units;
  status = status;
  latency_ms = 5;
}

-- Two calls for Alice, one without a user, one that was denied, and one of another agent.
abbrev used_db : Db
used_db = record small_db {
  usage_events =
      used 80 10 3 (some 4) 1 "success"
      ∷ used 81 20 3 (some 4) 2 "success"
      ∷ used 82 30 3 none 1 "success"
      ∷ used 83 40 9 (some 4) 1 "success"
      ∷ used 84 50 3 (some 4) 0 "denied"
      ∷ [];
}

abbrev first_page : UsageQuery
first_page = record {
  user_id = none;
  capability_id = none;
  status_filter = none;
  start_time = some 10;
  end_time = none;
  limit = 2;
  offset = 0;
}

abbrev of_user : Option ℕ → String → UsageGroup
of_user user_id status = record {
  workspace_id = 1;
  agent_id = 3;
  user_id = user_id;
  capability_id = "mock.phonebook.search";
  status = status;
}

usage_of_hermes : get_usage_me used_db hermes first_page ≡ record {
  usage = used 84 50 3 (some 4) 0 "denied" ∷ used 82 30 3 none 1 "success" ∷ [];
  summaries =
      record { group = of_user (some 4) "denied"; events = 1; total_units = 0 }
      ∷ record { group = of_user none "success"; events = 1; total_units = 1 }
      ∷ record { group = of_user (some 4) "success"; events = 2; total_units = 3 }
      ∷ [];
  limit = 2;
  offset = 0;
}
unfolding get_usage_me group_usage sort_by text_leb
usage_of_hermes = refl

get_usage_me-IsOwnUsage_example :
    IsOwnUsage hermes first_page used_db (get_usage_me used_db hermes first_page)
get_usage_me-IsOwnUsage_example = get_usage_me-IsOwnUsage hermes first_page used_db
