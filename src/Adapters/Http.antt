-- ===== src/Adapters/Http.antt =====
-- adapters/http.py: requests to an upstream application, repeated where the capability only reads.
-- What httpx does is a parameter: what the n-th request of a call comes back with.
pub mod Retries
use grantora.Prelude.{
  ℕ, zero, suc, ◌-◌, String, Bool, true, false, not, ◌&&◌, ◌||◌, Option, none, some, ℤ, max_with,
  ltb, leb, ◌==◌, nat_eq, string_eq, if◌then◌else◌,
}
use grantora.Json.{Json}
use grantora.Db.Models.{Capability}
use grantora.Adapters.{AdapterResult, error_result}

-- A response: its status, the length of its content, and what `response.json()` reads, `none` where
-- it raises a `ValueError`.
pub record Response : Type 0 where
  pub status_code : ℕ
  pub content_length : ℕ
  pub json : Option Json

-- What `await send()` gives: a response, `TimeoutException`, any other `RequestError`, or an exception
-- that is not handled here.
pub data Sent : Type 0 where
  response : Response → Sent
  timed_out : Sent
  not_sent : Sent
  raised : Sent

unfoldable pub retryable_status : ℕ → Bool
retryable_status status_code = status_code == 429 || leb 500 status_code

unfoldable pub attempts_for_capability : Capability → ℤ → ℕ
unfolding max_with
attempts_for_capability capability read_only_attempts =
    if capability.risk_class == "read_only" then max_with 1 read_only_attempts else 1

abbrev pub timeout_error : AdapterResult
timeout_error = error_result "upstream_timeout" "The upstream application timed out" none true

abbrev pub unreachable_error : AdapterResult
unreachable_error =
    error_result "upstream_error" "The upstream application could not be reached" none true

-- The pair that the function returns.
abbrev pub Reply : Type 0
Reply = Option Response × Option AdapterResult

-- The requests that were made, and the reply: `none` where an exception leaves the function.
pub record Exchange : Type 0 where
  pub sends : ℕ
  pub reply : Option Reply

abbrev pub exchange : ℕ → Option Reply → Exchange
exchange sends reply = record { sends = sends; reply = reply }

module _ (answer : ℕ → Sent) (attempts : ℕ) where
  -- The loop from the request `attempt` on, with the rounds that are left.
  unfoldable pub attempts_from : ℕ → ℕ → Exchange
  unfolding retryable_status
  attempts_from zero attempt = exchange attempt (some (none, some unreachable_error))
  attempts_from (suc left) attempt =
      let next = attempts_from left (suc attempt) in
      let has_next = ltb attempt (attempts - 1) in
      elim (answer attempt) [
        | timed_out ↦
            if has_next then next else exchange (suc attempt) (some (none, some timeout_error))
        | not_sent ↦
            if has_next then next else exchange (suc attempt) (some (none, some unreachable_error))
        | response r ↦
            if has_next && retryable_status r.status_code
            then next
            else exchange (suc attempt) (some (some r, none))
        | raised ↦ exchange (suc attempt) none
      ]

unfoldable pub send_with_read_only_retries : Capability → (ℕ → Sent) → ℤ → Exchange
unfolding attempts_for_capability attempts_from
send_with_read_only_retries capability answer read_only_attempts =
    let attempts = attempts_for_capability capability read_only_attempts in
    attempts_from answer attempts attempts 0
