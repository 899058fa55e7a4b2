-- ===== src/Adapters/Http/Retries.antt =====
-- How often adapters/http.py sends a request, and which answer it passes on.
use grantora.Prelude.{
  ℕ, zero, suc, ◌+◌, ◌-◌, ◌≤◌, ◌<◌, ◌≡◌, refl, ◌⊎◌, inl, inr, Bool, true, false, Option, none, some,
  ℤ, max_with, le-max_with, arith, ◌==◌, eq_iff, string_eq, nat_eq, Bool-cases, ltb,
}
use grantora.Db.Models.{Capability}
use grantora.Adapters.Http.{
  Sent, response, timed_out, not_sent, raised, Reply, Exchange, retryable_status,
  attempts_for_capability, attempts_from, send_with_read_only_retries, timeout_error,
  unreachable_error,
}

-- A request may be repeated after this answer.
unfoldable pub may_retry : Sent → Bool
may_retry (response r) = retryable_status r.status_code
may_retry timed_out = true
may_retry not_sent = true
may_retry raised = false

-- What the function returns of the last answer.
unfoldable pub reply_of : Sent → Option Reply
reply_of (response r) = some (some r, none)
reply_of timed_out = some (none, some timeout_error)
reply_of not_sent = some (none, some unreachable_error)
reply_of raised = none

module _ (answer : ℕ → Sent) where
  -- The requests from `first` on: `last` is the one whose answer is passed on.
  pub record IsExchange (attempts first : ℕ) (e : Exchange) : Type 0 where
    pub last : ℕ
    pub sends : e.sends ≡ suc last
    pub at_least : first ≤ last
    pub bounded : suc last ≤ attempts
    pub retried : (i : ℕ) → first ≤ i → i < last → may_retry (answer i) ≡ true
    pub final : (suc last ≡ attempts) ⊎ (may_retry (answer last) ≡ false)
    pub reply : e.reply ≡ reply_of (answer last)

  module _ (attempts : ℕ) where
    abbrev From : ℕ → Exchange → Type 0
    From first e = IsExchange attempts first e

    -- The answer to the request `first` is passed on.
    stops :
        (first : ℕ) (e : Exchange)
        → suc first ≤ attempts
        → (suc first ≡ attempts) ⊎ (may_retry (answer first) ≡ false)
        → e.sends ≡ suc first
        → e.reply ≡ reply_of (answer first)
        → From first e
    stops first e bound final sent replied = record {
      last = first;
      sends = sent;
      at_least = omega arith;
      bounded = bound;
      retried = λ i h k. absurd (omega arith);
      final = final;
      reply = replied;
    }

    goes_on :
        (first : ℕ) (e : Exchange)
        → may_retry (answer first) ≡ true
        → From (suc first) e
        → From first e
    goes_on first e again rest = record {
      last = rest.last;
      sends = rest.sends;
      bounded = rest.bounded;
      final = rest.final;
      reply = rest.reply;
      at_least = omega (arith, rest.at_least);
      retried = λ i h k. elim (Bool-cases (i == first)) [
        | inl here ↦ let same : i ≡ first = ground arith in rw same again
        | inr later ↦ rest.retried i (ground arith) k
      ];
    }

    -- The last round, and a round before it.
    last_round :
        (first : ℕ) (s : Sent)
        → answer first ≡ s
        → suc first ≡ attempts
        → ltb first (attempts - 1) ≡ false
        → From first (attempts_from answer attempts 1 first)
    unfolding attempts_from reply_of
    last_round first (response r) e h no_next =
        rw (attempts_from, e, no_next) (stops first _ (omega arith) (inl h) refl (rw e refl))
    last_round first timed_out e h no_next =
        rw (attempts_from, e, no_next) (stops first _ (omega arith) (inl h) refl (rw e refl))
    last_round first not_sent e h no_next =
        rw (attempts_from, e, no_next) (stops first _ (omega arith) (inl h) refl (rw e refl))
    last_round first raised e h no_next =
        rw (attempts_from, e) (stops first _ (omega arith) (inl h) refl (rw e refl))

    earlier_round :
        (left first : ℕ) (s : Sent)
        → answer first ≡ s
        → first + suc (suc left) ≡ attempts
        → ltb first (attempts - 1) ≡ true
        → From (suc first) (attempts_from answer attempts (suc left) (suc first))
        → From first (attempts_from answer attempts (suc (suc left)) first)
    unfolding attempts_from reply_of may_retry
    earlier_round left first (response r) e h next rest =
        elim (Bool-cases (retryable_status r.status_code)) [
          | inl again ↦ rw (attempts_from, e, next, again) (goes_on first _ (rw e again) rest)
          | inr enough ↦
              rw (attempts_from, e, next, enough)
                (stops first _ (omega arith) (inr (rw e enough)) refl (rw e refl))
        ]
    earlier_round left first timed_out e h next rest =
        rw (attempts_from, e, next) (goes_on first _ (rw e refl) rest)
    earlier_round left first not_sent e h next rest =
        rw (attempts_from, e, next) (goes_on first _ (rw e refl) rest)
    earlier_round left first raised e h next rest =
        rw (attempts_from, e) (stops first _ (omega arith) (inr (rw e refl)) refl (rw e refl))

    rounds-IsExchange :
        (left first : ℕ)
        → first + suc left ≡ attempts
        → From first (attempts_from answer attempts (suc left) first)
    rounds-IsExchange zero first h = last_round first _ refl (omega arith) (ground arith)
    rounds-IsExchange (suc left) first h =
        earlier_round left first _ refl h (ground arith)
          (rounds-IsExchange left (suc first) (omega arith))

  all-IsExchange :
      (attempts : ℕ)
      → 1 ≤ attempts
      → IsExchange attempts 0 (attempts_from answer attempts attempts 0)
  all-IsExchange zero h = absurd (omega arith)
  all-IsExchange (suc left) h = rounds-IsExchange (suc left) left 0 (omega arith)

attempts-positive : (capability : Capability) (n : ℤ) → 1 ≤ attempts_for_capability capability n
unfolding attempts_for_capability
attempts-positive capability n = ground (arith, le-max_with 1 n)

attempts-bounded :
    (capability : Capability) (n : ℤ) → attempts_for_capability capability n ≤ max_with 1 n
unfolding attempts_for_capability
attempts-bounded capability n = ground (arith, le-max_with 1 n)

attempts-once :
    (capability : Capability) (n : ℤ)
    → (capability.risk_class ≡ "read_only") ⊎ (attempts_for_capability capability n ≡ 1)
unfolding attempts_for_capability
attempts-once capability n = elim (Bool-cases (capability.risk_class == "read_only")) [
  | inl reads ↦ inl (ground (arith, eq_iff capability.risk_class "read_only"))
  | inr writes ↦ inr (rw writes refl)
]

-- Every call sends at least one request and at most the attempts that the policy allows, which is one
-- for a capability that does more than read. A request is repeated only after a time-out, an error of
-- the connection or a status that invites to try again; the loop stops at the first other answer, or
-- with the last attempt, and returns what that last answer, and no earlier one, gives.
pub send-IsExchange :
    (capability : Capability) (answer : ℕ → Sent) (n : ℤ)
    → let attempts = attempts_for_capability capability n in
      IsExchange answer attempts 0 (send_with_read_only_retries capability answer n)
      × (attempts ≤ max_with 1 n)
      × ((capability.risk_class ≡ "read_only") ⊎ (attempts ≡ 1))
unfolding send_with_read_only_retries
send-IsExchange capability answer n =
    let positive = attempts-positive capability n in
    (all-IsExchange answer _ positive, attempts-bounded capability n, attempts-once capability n)
