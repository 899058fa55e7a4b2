-- ===== src/Auth/Bearer.antt =====
-- `extract_bearer_token` of auth/dependencies.py.
use grantora.Prelude.{
  ℕ, String, ◌≡◌, refl, ◌≢◌, Bool, true, false, ◌&&◌, ◌||◌, not, Option, none, some, List, [], ◌∷◌,
  arith, ◌==◌, string_eq, nat_eq, eq_iff, Bool-cases, inl, inr, ◌∙◌, if◌then◌else◌,
}
use grantora.Prelude.Text.{partition_space, strip, lower_codes}
use grantora.Errors.{ApiError, api_error, Result, ok, err}

-- `scheme.lower() == "bearer"`.
abbrev codes_eq : List ℕ → List ℕ → Bool
codes_eq [] [] = true
codes_eq (a ∷ xs) (b ∷ ys) = a == b && codes_eq xs ys
codes_eq _ _ = false

abbrev bearer_codes : List ℕ
bearer_codes = b'b' ∷ b'e' ∷ b'a' ∷ b'r' ∷ b'e' ∷ b'r' ∷ []

abbrev pub is_bearer : String → Bool
is_bearer scheme = codes_eq (lower_codes scheme) bearer_codes

abbrev pub unauthorized : String → String → ApiError
unauthorized code message = record (api_error 401 code message) {
  headers = ("WWW-Authenticate", "Bearer") ∷ [];
}

abbrev token_of : Option (String × String) → ApiError → Result String
token_of none refusal = err refusal
token_of (some (scheme, token)) refusal =
    if not (is_bearer scheme) || strip token == "" then err refusal else ok (strip token)

unfoldable pub extract_bearer_token : Option String → String → String → String → Result String
extract_bearer_token none missing_code invalid_code invalid_message =
    err (unauthorized missing_code "Missing bearer token")
extract_bearer_token (some authorization) missing_code invalid_code invalid_message =
    token_of (partition_space authorization) (unauthorized invalid_code invalid_message)

-- A header that names a token: its scheme before the first space is "bearer" in any case, and its
-- rest is not blank.
pub record NamesToken (authorization token : String) : Type 0 where
  pub scheme : String
  pub rest : String
  pub parts : partition_space authorization ≡ some (scheme, rest)
  pub bearer : is_bearer scheme ≡ true
  pub stripped : strip rest ≡ token
  pub not_blank : token ≢ ""

token_of-ok :
    (o : Option (String × String)) (refusal : ApiError) {t : String}
    → token_of o refusal ≡ ok t
    → (scheme : String) × (rest : String) × (o ≡ some (scheme, rest))
      × (is_bearer scheme ≡ true)
      × (strip rest ≡ t)
      × ((strip rest == "") ≡ false)
token_of-ok none refusal h = cc
token_of-ok (some (scheme, rest)) refusal h =
    elim (Bool-cases (not (is_bearer scheme) || strip rest == "")) [
      | inl refused ↦ absurd (ground arith)
      | inr taken ↦ (scheme, rest, refl, ground arith, ground arith, ground arith)
    ]

-- A token that is extracted stands in the header: behind a scheme that is "bearer" in any case and
-- the first space, without the blanks around it, and it is not empty.
pub extract_bearer_token-ok :
    (header : Option String) (missing invalid message : String) {token : String}
    → extract_bearer_token header missing invalid message ≡ ok token
    → (authorization : String) × (header ≡ some authorization) × NamesToken authorization token
unfolding extract_bearer_token
extract_bearer_token-ok none missing invalid message h = cc
extract_bearer_token-ok (some authorization) missing invalid message {token} h =
    let (scheme, rest, parts, bearer, stripped, full) =
      token_of-ok (partition_space authorization) _ h in
    (
      authorization,
      refl,
      record {
        scheme = scheme;
        rest = rest;
        parts = parts;
        bearer = bearer;
        stripped = stripped;
        not_blank = λ blank. ground (arith, eq_iff (strip rest) "", stripped ∙ blank);
      },
    )
