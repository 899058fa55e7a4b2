-- ===== src/Adapters/Nextcloud/Results.antt =====
-- What a call of the adapter of adapters/nextcloud.py gives.
use grantora.Prelude.{
  ℕ, String, ◌≡◌, ◌≤◌, inl, inr, arith, ◌==◌, string_eq, Bool-cases, Option-cases,
}
use grantora.Json.{Json}
use grantora.Db.Models.{Capability}
use grantora.Adapters.{InvocationContext, SecretMaterial}
use grantora.Adapters.Http.{Sent, raised, send_with_read_only_retries}
use grantora.Adapters.Http.Retries.{send-IsExchange}
use grantora.Adapters.Upstream.{GetRequest, Options, conclude}
use grantora.Adapters.Upstream.Answers.{Gives, failure-Gives, conclude-Gives, limit_within-bounds}
use grantora.Adapters.Nextcloud.Files.{Library}
use grantora.Adapters.Nextcloud.Search.{
  auth_headers, schema_maximum_limit, requested_limit, read_response, invoke,
}
use grantora.Adapters.Nextcloud.Found.{IsFile, LibraryRaises, read_response-Gives}

module _ (library : Library) (repr : Json → String) (answer : GetRequest → ℕ → Sent)
    (options : Options) where
  -- A request ended in an exception that the adapter does not handle, or the address of a file, its
  -- size or its moment made the standard library raise.
  pub data HasRaised : Type 0 where
    in_request : (request : GetRequest) (n : ℕ) → answer request n ≡ raised → HasRaised
    in_library : LibraryRaises library → HasRaised

  sent-Gives :
      (capability : Capability) (limit : ℕ) (request : GetRequest)
      → Gives "files" IsFile limit HasRaised (
          conclude
            (read_response library options limit)
            (send_with_read_only_retries capability
              (answer request)
              options.read_retry_attempts).reply)
  sent-Gives capability limit request =
      let (e, _, _) = send-IsExchange capability (answer request) options.read_retry_attempts in
      rw e.reply (
        conclude-Gives _ _ _ _ (answer request e.last)
          (λ p. read_response-Gives library options limit p in_library) (in_request request e.last))

  invoke-Gives :
      (capability : Capability) (input : Json) (context : InvocationContext)
      (secret : SecretMaterial)
      → Gives "files" IsFile
          (requested_limit input capability.input_schema)
          HasRaised
          (invoke library repr answer options capability input context secret)
  unfolding invoke
  invoke-Gives capability input context secret =
      elim (Bool-cases (capability.operation == "files.search")) [
        | inr other ↦ rw (invoke, other) (failure-Gives _ _ _ _ _ _ _)
        | inl search ↦ elim (Option-cases context.application.base_url) [
          | inl unset ↦ rw (invoke, search, unset) (failure-Gives _ _ _ _ _ _ _)
          | inr (base_url, e) ↦ elim (Option-cases (auth_headers library secret)) [
            | inl unusable ↦ rw (invoke, search, e, unusable) (failure-Gives _ _ _ _ _ _ _)
            | inr (headers, e') ↦ rw (invoke, search, e, e') (sent-Gives capability _ _)
          ]
        ]
      ]

  -- A search for files always gives a result, unless a request ends in an exception that the adapter
  -- does not handle, or the address, the size or the moment of a file makes the standard library raise. The
  -- result reports a failure without any data, or it comes from a response with a status below 400
  -- and lists at most as many files as the requested limit, which is at least 1 and at most the
  -- largest that the capability's input schema allows; every file has an absolute path, a name that
  -- is not empty, a type, a size that is an integer or null, a moment that is a text or null, and the
  -- source, and nothing else.
  pub invoke-IsFiles :
      (capability : Capability) (input : Json) (context : InvocationContext)
      (secret : SecretMaterial)
      → let limit = requested_limit input capability.input_schema in
        (1 ≤ limit)
        × (limit ≤ schema_maximum_limit capability.input_schema)
        × Gives "files" IsFile limit HasRaised
            (invoke library repr answer options capability input context secret)
  unfolding requested_limit schema_maximum_limit
  invoke-IsFiles capability input context secret =
      let (least, most) = limit_within-bounds 50 input capability.input_schema (omega arith) in
      (least, most, invoke-Gives capability input context secret)
