-- ===== src/Errors.antt =====
-- api/errors.py, and the shape of a handler: it reads and changes the state, and returns or raises.
-- A handler that raises leaves what it has written, so its state comes with the error.
pub mod Keeps
use grantora.Prelude.{
  ℕ, List, [], String, Bool, true, false, Option, none, some, ◌==◌, string_eq, if◌then◌else◌,
}

-- `GrantoraAPIError`.
pub record ApiError : Type 0 where
  pub status_code : ℕ
  pub code : String
  pub message : String
  pub headers : List (String × String)

-- `GrantoraAPIError(status_code, code, message)`.
abbrev pub api_error : ℕ → String → String → ApiError
api_error status_code code message = record {
  status_code = status_code;
  code = code;
  message = message;
  headers = [];
}

pub data Result {ℓ} (A : Type ℓ) : Type ℓ where
  ok : A → Result A
  err : ApiError → Result A

-- The answer to an exception that no handler catches.
abbrev pub unhandled : ApiError
unhandled = api_error 500 "internal_error" "Internal Server Error"

abbrev pub Exec : Type 0 → Type 0 → Type 0
Exec S A = S → Result A × S

module _ {S A : Type 0} where
  pub gets : (S → A) → Exec S A
  gets f s = (ok (f s), s)

  pub raise : ApiError → Exec S A
  raise e s = (err e, s)

  pub pure : A → Exec S A
  pure a s = (ok a, s)

  -- A value that a helper computed, or the error that it raised.
  pub lift : Result A → Exec S A
  lift r s = (r, s)

  -- `if x is None: …`, where the handling of the missing value raises.
  pub or_else_do : Option A → Exec S A → Exec S A
  unfolding pure
  or_else_do none handler = handler
  or_else_do (some a) handler = pure a

pub modify : {S : Type 0} → (S → S) → Exec S (Unit {0})
modify f s = (ok tt, f s)

-- `if test: …`, where the handling raises.
pub when : {S : Type 0} → Bool → Exec S (Unit {0}) → Exec S (Unit {0})
unfolding pure
when true handler = handler
when false handler = pure tt

-- `try: check() except E as exc: …`, where `check` is the error that it raises and the handling
-- raises.
pub except_do : {S E : Type 0} → Option E → (E → Exec S (Unit {0})) → Exec S (Unit {0})
unfolding pure
except_do none handler = pure tt
except_do (some e) handler = handler e

module _ {S A B : Type 0} where
  abbrev pub continue : Result A × S → (A → Exec S B) → Result B × S
  continue (ok a, s) f = f a s
  continue (err e, s) f = (err e, s)

  infixl 5 ◌>>=◌ ◌>>◌
  -- Opening this opens the other actions too.
  unfoldable pub ◌>>=◌ : Exec S A → (A → Exec S B) → Exec S B
  unfolding pure raise gets lift or_else_do modify when except_do
  ◌>>=◌ m f s = continue (m s) f

  abbrev pub ◌>>◌ : Exec S A → Exec S B → Exec S B
  m >> n = m >>= λ _. n

-- A request, as far as the handlers read it. `header` is the lookup in `request.headers`.
pub record Request : Type 0 where
  pub state_request_id : Option String
  pub header : String → Option String
  pub client_host : Option String

abbrev truthy : Option String → Option String
truthy none = none
truthy (some s) = if s == "" then none else some s

-- `x or default` for an optional text: an empty text gives the default too.
abbrev pub or_default : Option String → String → String
or_default o d = elim (truthy o) [ none ↦ d | some s ↦ s ]

-- `get_request_id`; `created` is what `create_request_id` returns.
unfoldable pub get_request_id : Request → String → String → String
get_request_id request request_id_header created =
    or_default request.state_request_id (or_default (request.header request_id_header) created)
