-- ===== src/Auth/Tokens.antt =====
-- auth/tokens.py. The digest is a parameter: HMAC-SHA-256 in hexadecimal, of the key and the text.
use text.Mathlib.TextPositions.{starts_with-append}
use text.Mathlib.TextLemmas.{append_cancel_left}
use mathlib.Core.Option.{some-injective}
use grantora.Prelude.{
  String, ◌≡◌, ap, sym, ◌∙◌, ◌↔◌, Bool, true, false, ◌||◌, not, Option, none, some, arith, eq_iff,
  ◌==◌, string_eq, Bool-cases, inl, inr, if◌then◌else◌,
}
use grantora.Prelude.Text.{◌<>◌, starts_with}

abbrev pub agent_token_prefix : String
agent_token_prefix = "grt_agent_"

abbrev pub token_hash_algorithm : String
token_hash_algorithm = "hmac-sha256"

abbrev pub token_hash_prefix : String
token_hash_prefix = "hmac-sha256:"

-- `create_agent_token`; `random` is what `secrets.token_urlsafe` returns.
unfoldable pub create_agent_token : String → String
create_agent_token random = agent_token_prefix <> random

module _ (hmac : String → String → String) where
  -- `hash_token`; `none` where it raises.
  unfoldable pub hash_token : String → String → Option String
  hash_token plaintext_token pepper =
      if plaintext_token == "" || pepper == ""
      then none
      else some (token_hash_prefix <> hmac pepper plaintext_token)

  abbrev same_hash : Option String → String → Bool
  same_hash none stored_hash = false
  same_hash (some expected_hash) stored_hash = expected_hash == stored_hash

  unfoldable pub verify_token : String → String → String → Bool
  verify_token plaintext_token stored_hash pepper =
      if not (starts_with stored_hash token_hash_prefix)
      then false
      else same_hash (hash_token plaintext_token pepper) stored_hash

  hash-starts_with :
      (token pepper : String) {h : String}
      → hash_token token pepper ≡ some h
      → starts_with h token_hash_prefix ≡ true
  unfolding hash_token
  hash-starts_with token pepper {h} e = elim (Bool-cases (token == "" || pepper == "")) [
    | inl empty ↦ absurd (ground arith)
    | inr full ↦
        let e' : some (token_hash_prefix <> hmac pepper token) ≡ some h = rw full at e in
        rw (← some-injective _ _ e') (starts_with-append token_hash_prefix (hmac pepper token))
  ]

  -- Two tokens with one hash are the same, where the digest has no collisions.
  pub hash_token-injective :
      (pepper : String)
      → ((x y : String) → hmac pepper x ≡ hmac pepper y → x ≡ y)
      → (t u : String) {h : String} → hash_token t pepper ≡ some h
      → hash_token u pepper ≡ some h
      → t ≡ u
  unfolding hash_token
  hash_token-injective pepper no_collision t u e f = elim (Bool-cases (t == "" || pepper == "")) [
    | inl empty ↦ absurd (ground arith)
    | inr full_t ↦ elim (Bool-cases (u == "" || pepper == "")) [
      | inl empty ↦ absurd (ground arith)
      | inr full_u ↦ no_collision t u (
          append_cancel_left token_hash_prefix _ _ (
            some-injective _ _ (rw (hash_token, full_t) at e)
            ∙ sym (some-injective _ _ (rw (hash_token, full_u) at f))))
    ]
  ]

  same_hash-true :
      (o : Option String) (stored : String) → (same_hash o stored ≡ true) ↔ (o ≡ some stored)
  same_hash-true none stored = (λ h. cc, λ h. cc)
  same_hash-true (some x) stored =
      (λ h. ap some ((eq_iff x stored).0 h), λ h. (eq_iff x stored).1 (some-injective _ _ h))

  -- A token is accepted against a stored hash exactly if hashing the token with the pepper gives that
  -- hash; in particular an empty token, or an empty pepper, is accepted against none.
  pub verify_token_iff :
      (token stored pepper : String)
      → (verify_token token stored pepper ≡ true) ↔ (hash_token token pepper ≡ some stored)
  unfolding verify_token
  verify_token_iff token stored pepper = elim (Bool-cases (starts_with stored token_hash_prefix)) [
    | inl prefixed ↦ rw prefixed (same_hash-true (hash_token token pepper) stored)
    | inr other ↦
        (λ h. absurd (ground arith), λ e. absurd (ground (arith, hash-starts_with token pepper e)))
  ]
