-- ===== src/Adapters/Upstream/Answers.antt =====
-- The bounds on the limit of a search, and the results that a search can have.
use mathlib.Core.Option.{some-injective}
use grantora.Prelude.{
  ℕ, String, ◌≡◌, refl, sym, ◌≤◌, ◌<◌, ◌⊎◌, inl, inr, Bool, true, false, Option, none, some, List,
  [], ◌∷◌, ℤ, arith, length, Memᴰ, le-max_with, ◌==◌, nat_eq, if◌then◌else◌, Bool-cases, ◌≢◌,
  eq_iff, string_eq,
}
use grantora.Prelude.Text.{strip}
use grantora.Json.{Json, null, bool, num, str, arr, obj, Fields, end, field, field?, or_null}
use grantora.Adapters.{AdapterResult, error_result, ok_result}
use grantora.Adapters.Http.{Response, Sent, response, timed_out, not_sent, raised}
use grantora.Adapters.Http.Retries.{reply_of}
use grantora.Adapters.Upstream.{
  maximum_limit, limit_within, clamp, error_of_status, conclude, items_of, nonblank, first_string,
}

clamp-bounds : (n : ℤ) (top : ℕ) → 1 ≤ top → (1 ≤ clamp n top) × (clamp n top ≤ top)
clamp-bounds n top h = (ground (arith, le-max_with 1 n), ground (arith, le-max_with 1 n))

pub one-maximum_limit :
    (default : ℕ) (schema : Json) → 1 ≤ default → 1 ≤ maximum_limit default schema
unfolding maximum_limit
one-maximum_limit default schema h = ground (arith, le-max_with 1)

pub limit_within-bounds :
    (default : ℕ) (input schema : Json)
    → 1 ≤ default
    → (1 ≤ limit_within default input schema)
      × (limit_within default input schema ≤ maximum_limit default schema)
unfolding limit_within
limit_within-bounds default input schema h =
    let top = one-maximum_limit default schema h in
    (
      ground (arith, λ (n : ℤ). clamp-bounds n (maximum_limit default schema) top),
      ground (arith, λ (n : ℤ). clamp-bounds n (maximum_limit default schema) top),
    )

-- A result that reports a failure, and carries no data.
pub record IsFailure (r : AdapterResult) : Type 0 where
  pub code : String
  pub message : String
  pub upstream_status : Option ℕ
  pub retryable : Bool
  pub result : r ≡ error_result code message upstream_status retryable

pub failed :
    (code message : String) (status : Option ℕ) (retryable : Bool) (r : AdapterResult)
    → some (error_result code message status retryable) ≡ some r
    → IsFailure r
failed code message status retryable r h = record {
  code = code;
  message = message;
  upstream_status = status;
  retryable = retryable;
  result = sym (some-injective _ _ h);
}

-- What an optional result gives is a failure.
abbrev pub Fails : Option AdapterResult → Type 0
Fails o = (r : AdapterResult) → o ≡ some r → IsFailure r

Fails-if : (b : Bool) (x y : Option AdapterResult) → Fails x → Fails y → Fails (if b then x else y)
Fails-if true x y f g = f
Fails-if false x y f g = g

Fails-none : Fails none
Fails-none r h = cc

pub error_of_status-Fails : (message : String) (status : ℕ) → Fails (error_of_status message status)
unfolding error_of_status
error_of_status-Fails message status = search (Fails-if, Fails-none, failed) depth 12

pub error_of_status-none :
    (message : String) (status : ℕ) → error_of_status message status ≡ none → status < 400
unfolding error_of_status
error_of_status-none message status h = ground arith

-- What an optional text gives is not empty.
abbrev pub Texts : Option String → Type 0
Texts o = (s : String) → o ≡ some s → s ≢ ""

pub Texts-none : Texts none
Texts-none s h = cc

pub Texts-or :
    (o p : Option String) → Texts o → Texts p → Texts (elim o [ some v ↦ some v | none ↦ p ])
Texts-or none p f g = g
Texts-or (some v) p f g = f

pub nonblank-Texts : (v : Json) → Texts (nonblank v)
unfolding nonblank
nonblank-Texts (str t) s h = elim (Bool-cases (strip t == "")) [
  | inl blank ↦ absurd (ground arith)
  | inr text ↦ λ e. ground (arith, eq_iff (strip t) "")
]
nonblank-Texts null s h = cc
nonblank-Texts (bool b) s h = cc
nonblank-Texts (num n) s h = cc
nonblank-Texts (arr xs) s h = cc
nonblank-Texts (obj fs) s h = cc

pub first_string-Texts : (keys : List String) (payload : Fields) → Texts (first_string keys payload)
unfolding first_string
first_string-Texts [] payload = Texts-none
first_string-Texts (key ∷ later) payload =
    Texts-or _ _ (nonblank-Texts (or_null (field? key payload))) (first_string-Texts later payload)

pub ruleset text_rules = (Texts-none, Texts-or, nonblank-Texts, first_string-Texts)

module _ (key : String) (IsItem : Fields → Type 0) (limit : ℕ) where
  -- A result with a list of at most `limit` objects of one form, under one key.
  pub record IsListing (r : AdapterResult) : Type 0 where
    pub found : List Fields
    pub upstream_status : ℕ
    pub answered : upstream_status < 400
    pub result : r ≡ ok_result (obj (field key (arr (items_of found)) end)) (some upstream_status)
    pub at_most : length found ≤ limit
    pub items : (fs : Fields) → Memᴰ fs found → IsItem fs

  abbrev pub IsAnswer : AdapterResult → Type 0
  IsAnswer r = IsFailure r ⊎ IsListing r

  -- A call gives such a result, or has an excuse.
  abbrev pub Gives : Type 0 → Option AdapterResult → Type 0
  Gives Excuse o = Excuse ⊎ ((r : AdapterResult) × (o ≡ some r) × IsAnswer r)

  pub answer-Gives : {E : Type 0} (r : AdapterResult) → IsAnswer r → Gives E (some r)
  answer-Gives r h = inr (r, refl, h)

  pub failure-Gives :
      {E : Type 0} (code message : String) (status : Option ℕ) (retryable : Bool)
      → Gives E (some (error_result code message status retryable))
  failure-Gives code message status retryable = answer-Gives _ (inl (failed _ _ _ _ _ refl))

  -- The pair that the sending returns is turned into such a result if every response is.
  pub conclude-Gives :
      {E : Type 0} (on_response : Response → Option AdapterResult) (s : Sent)
      → ((p : Response) → Gives E (on_response p))
      → (s ≡ raised → E)
      → Gives E (conclude on_response (reply_of s))
  unfolding conclude reply_of
  conclude-Gives on_response (response p) each excuse = each p
  conclude-Gives on_response timed_out each excuse = failure-Gives _ _ _ _
  conclude-Gives on_response not_sent each excuse = failure-Gives _ _ _ _
  conclude-Gives on_response raised each excuse = inl (excuse refl)
