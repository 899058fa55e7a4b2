-- ===== src/Adapters/Upstream.antt =====
-- What adapters/nethvoice.py and adapters/nextcloud.py have in common: the same functions stand in both
-- files, with other defaults and messages, which are parameters here.
pub mod Answers
use grantora.Prelude.{
  ℕ, String, Bool, true, false, ◌||◌, Option, none, some, List, [], ◌∷◌, ℤ, pos, negsuc, max_with,
  ltb, leb, ◌==◌, nat_eq, string_eq, if◌then◌else◌,
}
use grantora.Prelude.Text.{strip}
use grantora.Json.{
  Json, null, bool, num, str, arr, obj, Items, nil, cons, Fields, end, field, field?, get?, or_null,
  as_int,
}
use grantora.Adapters.{AdapterResult, error_result, HealthResult}
use grantora.Adapters.Http.{
  Response, Sent, response, timed_out, not_sent, raised, Reply, Exchange, unreachable_error,
}

-- What a request says: `client.get(path, headers=…, params=…)` with the client's `base_url`.
pub record GetRequest : Type 0 where
  pub base_url : String
  pub path : String
  pub headers : List (String × String)
  pub params : Fields

-- What the constructor keeps of its arguments. The time limits, the certificate check and the
-- transport are for httpx.
pub record Options : Type 0 where
  pub max_response_bytes : ℤ
  pub search_path : String
  pub health_check_path : Option String
  pub read_retry_attempts : ℤ

-- `str(input_data.get("query", "")).strip()`; `repr` gives the text of a value that is no text.
unfoldable pub query_of : (Json → String) → Json → String
unfolding strip
query_of repr input = elim (get? "query" input) [
  | none ↦ ""
  | some (str s) ↦ strip s
  | some v ↦ strip (repr v)
]

-- `_schema_maximum_limit`: the value under "maximum" of "limit" of "properties".
abbrev of_key : String → Option Json → Option Json
of_key key none = none
of_key key (some v) = get? key v

unfoldable pub maximum_limit : ℕ → Json → ℕ
unfolding max_with
maximum_limit default input_schema =
    let maximum = of_key "maximum" (of_key "limit" (get? "properties" input_schema)) in
    elim (as_int (or_null maximum)) [ none ↦ default | some n ↦ max_with 1 n ]

abbrev pub clamp : ℤ → ℕ → ℕ
clamp n top = let least = max_with 1 n in if leb least top then least else top

-- `_requested_limit`.
unfoldable pub limit_within : ℕ → Json → Json → ℕ
unfolding maximum_limit
limit_within default input input_schema =
    let schema_limit = maximum_limit default input_schema in
    elim (get? "limit" input) [
      | none ↦ clamp (pos schema_limit) schema_limit
      | some v ↦ elim (as_int v) [ none ↦ schema_limit | some n ↦ clamp n schema_limit ]
    ]

-- `_error_result_from_response`.
unfoldable pub error_of_status : String → ℕ → Option AdapterResult
error_of_status not_found_message status =
    if ltb status 400
    then none
    else if status == 401 || status == 403
    then some (
        error_result "upstream_unauthorized"
          "The upstream application rejected the delegated credentials" (some status) false)
    else if status == 404
    then some (error_result "upstream_not_found" not_found_message (some status) false)
    else if status == 429
    then some (
        error_result "upstream_rate_limited" "The upstream application rate limit was reached"
          (some status) true)
    else some (
        error_result "upstream_error" "The upstream application returned an error" (some status)
          (leb 500 status))

-- `_invalid_response` and `_response_too_large`.
abbrev pub invalid_response : ℕ → AdapterResult
invalid_response upstream_status =
    error_result "upstream_invalid_response" "The upstream application returned an invalid response"
      (some upstream_status) false

abbrev pub too_large : Response → ℤ → Bool
too_large r (pos max_response_bytes) = ltb max_response_bytes r.content_length
too_large r (negsuc n) = true

abbrev pub payload_too_large : ℕ → AdapterResult
payload_too_large upstream_status =
    error_result "upstream_payload_too_large" "The upstream application response was too large"
      (some upstream_status) false

-- What becomes of the pair that `send_with_read_only_retries` returns.
unfoldable pub conclude : (Response → Option AdapterResult) → Option Reply → Option AdapterResult
conclude on_response none = none
conclude on_response (some (r, some request_error)) = some request_error
conclude on_response (some (none, none)) = some unreachable_error
conclude on_response (some (some r, none)) = on_response r

-- `health`, for an application's `base_url`; `answer` is what its one request comes back with, and the
-- result is `none` where an exception leaves it.
abbrev ok_health : Option String → HealthResult
ok_health message = record { status = "ok"; safe_message = message }

abbrev error_health : String → HealthResult
error_health message = record { status = "error"; safe_message = some message }

unfoldable pub health_of_status : String → ℕ → HealthResult
health_of_status not_found_message status =
    if ltb status 400
    then ok_health none
    else if status == 401 || status == 403
    then ok_health (some "The upstream application is reachable but requires credentials")
    else if status == 404
    then error_health not_found_message
    else if status == 429
    then error_health "The upstream application rate limit was reached"
    else error_health "The upstream application returned an error"

unfoldable pub health_of :
    String → Options → Option String → (String → String → Sent) → Option HealthResult
unfolding health_of_status
health_of not_found_message options none answer =
    some (error_health "The upstream application endpoint was not configured")
health_of not_found_message options (some base_url) answer = elim options.health_check_path [
  | none ↦ some (ok_health none)
  | some path ↦ elim (answer base_url path) [
    | timed_out ↦ some (error_health "The upstream application timed out")
    | not_sent ↦ some (error_health "The upstream application could not be reached")
    | response r ↦ some (health_of_status not_found_message r.status_code)
    | raised ↦ none
  ]
]

-- `_first_present`.
unfoldable pub first_present : List String → Fields → Json
first_present [] payload = null
first_present (key ∷ later) payload =
    let rest = first_present later payload in elim (field? key payload) [ some v ↦ v | none ↦ rest ]

-- A text that is not blank, without the white space around it.
unfoldable pub nonblank : Json → Option String
unfolding strip
nonblank (str s) = if strip s == "" then none else some (strip s)
nonblank _ = none

-- `_first_string`.
unfoldable pub first_string : List String → Fields → Option String
unfolding nonblank
first_string [] payload = none
first_string (key ∷ later) payload =
    let rest = first_string later payload in
    elim (nonblank (or_null (field? key payload))) [ some v ↦ some v | none ↦ rest ]

-- The items of a list that holds objects only.
unfoldable pub mappings : Items → Option (List Fields)
mappings nil = some []
mappings (cons (obj fs) later) = elim (mappings later) [
  | none ↦ none
  | some rest ↦ some (fs ∷ rest)
]
mappings (cons _ later) = none

-- `isinstance(raw_items, list)`, and that it holds objects only.
unfoldable pub as_mappings : Json → Option (List Fields)
unfolding mappings
as_mappings (arr items) = mappings items
as_mappings _ = none

-- A list of dicts as a document.
unfoldable pub items_of : List Fields → Items
items_of [] = nil
items_of (fs ∷ later) = cons (obj fs) (items_of later)
