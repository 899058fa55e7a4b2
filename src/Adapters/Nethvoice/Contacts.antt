-- ===== src/Adapters/Nethvoice/Contacts.antt =====
-- The contacts that adapters/nethvoice.py returns.
use text.Mathlib.TextLemmas.{cons-append}
use mathlib.Core.Path.{subst}
use mathlib.Core.Option.{some-injective}
use mathlib.Core.List.Memᴰ
use grantora.Prelude.{
  ℕ, suc, String, ◌≡◌, ◌≢◌, refl, ap, sym, ◌∙◌, ◌≤◌, ◌<◌, inl, inr, false, Option, none, some, List,
  [], ◌∷◌, arith, length, take, length-take, Memᴰ, ◌==◌, string_eq, Bool-cases, Option-cases,
  or_else,
}
use grantora.Prelude.Text.{text_length, ◌<>◌}
use grantora.Json.{Json, null, bool, num, str, arr, obj, Items, nil, cons, Fields, field?, or_null}
use grantora.Db.Models.{Capability}
use grantora.Adapters.{AdapterResult, InvocationContext, SecretMaterial}
use grantora.Adapters.Http.{Response, Sent, raised, send_with_read_only_retries}
use grantora.Adapters.Http.Retries.{send-IsExchange}
use grantora.Adapters.Upstream.{GetRequest, Options, conclude, too_large}
use grantora.Adapters.Upstream.Answers.{
  Fails, failed, error_of_status-Fails, error_of_status-none, IsAnswer, Gives, answer-Gives,
  failure-Gives, conclude-Gives, limit_within-bounds, text_rules, Texts, Texts-none, Texts-or,
  nonblank-Texts, first_string-Texts,
}
use grantora.Adapters.Nethvoice.{
  contact, display_name, phone_number, company, normalized_contact, normalize_all,
  normalized_contacts, extract_contact_items, schema_maximum_limit, requested_limit,
  error_result_from_response, read_response, invoke, auth_headers, phone_of_entry, phone_in,
  phone_from_sequence, phone_in_lists, join_names, phone_keys, phone_list_keys, name_keys,
  first_name_keys, last_name_keys,
}

-- An object with a name and a number, both not empty, a company and the source, and no other field.
pub record IsContact (fs : Fields) : Type 0 where
  pub name : String
  pub phone : String
  pub company_name : String
  pub form : fs ≡ contact name phone company_name
  pub has_name : name ≢ ""
  pub has_phone : phone ≢ ""

phone_of_entry-Texts : (entry : Json) → Texts (phone_of_entry entry)
unfolding phone_of_entry
phone_of_entry-Texts (obj fs) = search text_rules
phone_of_entry-Texts null = nonblank-Texts null
phone_of_entry-Texts (bool b) = nonblank-Texts (bool b)
phone_of_entry-Texts (num n) = nonblank-Texts (num n)
phone_of_entry-Texts (str s) = nonblank-Texts (str s)
phone_of_entry-Texts (arr xs) = nonblank-Texts (arr xs)

phone_in-Texts : (entries : Items) → Texts (phone_in entries)
unfolding phone_in
phone_in-Texts nil = Texts-none
phone_in-Texts (cons entry later) = Texts-or _ _ (phone_of_entry-Texts entry) (phone_in-Texts later)

phone_from_sequence-Texts : (v : Json) → Texts (phone_from_sequence v)
unfolding phone_from_sequence
phone_from_sequence-Texts (arr entries) = phone_in-Texts entries
phone_from_sequence-Texts null = Texts-none
phone_from_sequence-Texts (bool b) = Texts-none
phone_from_sequence-Texts (num n) = Texts-none
phone_from_sequence-Texts (str s) = Texts-none
phone_from_sequence-Texts (obj fs) = Texts-none

phone_in_lists-Texts : (keys : List String) (fs : Fields) → Texts (phone_in_lists keys fs)
unfolding phone_in_lists
phone_in_lists-Texts [] fs = Texts-none
phone_in_lists-Texts (key ∷ later) fs =
    Texts-or _ _ (phone_from_sequence-Texts (or_null (field? key fs)))
      (phone_in_lists-Texts later fs)

phone_number-Texts : (fs : Fields) → Texts (phone_number fs)
unfolding phone_number
phone_number-Texts fs =
    Texts-or _ _ (first_string-Texts phone_keys fs) (phone_in_lists-Texts phone_list_keys fs)

append-not_empty : (s t : String) → s ≢ "" → s <> t ≢ ""
unfolding text_length
append-not_empty String.[] t h = absurd (h refl)
append-not_empty (String.◌∷◌ c s) t h =
    λ e. omega (arith, ap text_length (sym (cons-append c s t) ∙ e))

join_names-Texts :
    (first last : Option String) → Texts first → Texts last → Texts (join_names first last)
join_names-Texts none none f g = Texts-none
join_names-Texts (some a) none f g = f
join_names-Texts none (some b) f g = g
join_names-Texts (some a) (some b) f g =
    λ s h. subst (λ x. x ≢ "") (some-injective _ _ h) (append-not_empty a (" " <> b) (f a refl))

display_name-Texts : (fs : Fields) → Texts (display_name fs)
unfolding display_name
display_name-Texts fs = Texts-or _ _ (first_string-Texts name_keys fs) (
    join_names-Texts _ _ (first_string-Texts first_name_keys fs)
      (first_string-Texts last_name_keys fs))

pub normalized_contact-IsContact :
    (raw_contact fs : Fields) → normalized_contact raw_contact ≡ some fs → IsContact fs
unfolding normalized_contact
normalized_contact-IsContact raw_contact fs h = elim (Option-cases (display_name raw_contact)) [
  | inl no_name ↦ absurd (ground arith)
  | inr (name, e) ↦ elim (Option-cases (phone_number raw_contact)) [
    | inl no_phone ↦ absurd (ground arith)
    | inr (phone, e') ↦ record {
      name = name;
      phone = phone;
      company_name = or_else (company raw_contact) "";
      form = ground arith;
      has_name = display_name-Texts raw_contact name e;
      has_phone = phone_number-Texts raw_contact phone e';
    }
  ]
]

all-cons :
    (c : Fields) (cs : List Fields)
    → IsContact c
    → ((fs : Fields) → Memᴰ fs cs → IsContact fs)
    → (fs : Fields) → Memᴰ fs (c ∷ cs)
    → IsContact fs
all-cons c cs h k fs (Memᴰ.head e) = rw e h
all-cons c cs h k fs (Memᴰ.tail m) = k fs m

normalize_all-IsContact :
    (raw_contacts contacts : List Fields)
    → normalize_all raw_contacts ≡ some contacts
    → (length contacts ≡ length raw_contacts) × ((fs : Fields) → Memᴰ fs contacts → IsContact fs)
unfolding normalize_all
normalize_all-IsContact [] contacts h =
    let e : contacts ≡ [] = ground arith in rw e (refl, λ fs m. absurd (Memᴰ.not-nil m))
normalize_all-IsContact (raw_contact ∷ later) contacts h =
    elim (Option-cases (normalized_contact raw_contact)) [
      | inl bad ↦ absurd (ground arith)
      | inr (c, e) ↦ elim (Option-cases (normalize_all later)) [
        | inl bad ↦ absurd (ground arith)
        | inr (cs, e') ↦
            let same : contacts ≡ c ∷ cs = ground arith in
            let (long, each) = normalize_all-IsContact later cs e' in
            rw same (ap suc long, all-cons c cs (normalized_contact-IsContact raw_contact c e) each)
      ]
    ]

normalized_contacts-IsContact :
    (payload : Json) (limit : ℕ) (contacts : List Fields)
    → normalized_contacts payload limit ≡ some contacts
    → (length contacts ≤ limit) × ((fs : Fields) → Memᴰ fs contacts → IsContact fs)
unfolding normalized_contacts
normalized_contacts-IsContact payload limit contacts h =
    elim (Option-cases (extract_contact_items payload)) [
      | inl bad ↦ absurd (ground arith)
      | inr (items, e) ↦
          let (long, each) =
            normalize_all-IsContact (take limit items) contacts
              (rw (normalized_contacts, e) at h) in
          (omega (arith, long, length-take limit items), each)
    ]

error_result-Fails : (p : Response) → Fails (error_result_from_response p)
unfolding error_result_from_response
error_result-Fails p = error_of_status-Fails _ p.status_code

error_result-none : (p : Response) → error_result_from_response p ≡ none → p.status_code < 400
unfolding error_result_from_response
error_result-none p h = error_of_status-none _ p.status_code h

-- The result that a response gives.
abbrev IsContacts : ℕ → AdapterResult → Type 0
IsContacts = IsAnswer "contacts" IsContact

module _ (options : Options) (limit : ℕ) (p : Response) where
  payload-IsContacts :
      (payload : Json)
      → p.status_code < 400
      → error_result_from_response p ≡ none
      → too_large p options.max_response_bytes ≡ false
      → p.json ≡ some payload
      → (o : Option (List Fields)) → normalized_contacts payload limit ≡ o
      → IsContacts limit (read_response options limit p)
  unfolding read_response
  payload-IsContacts payload status no_error small read none e =
      rw (read_response, no_error, small, read, e) (inl (failed _ _ _ _ _ refl))
  payload-IsContacts payload status no_error small read (some contacts) e =
      let (few, each) = normalized_contacts-IsContact payload limit contacts e in
      rw (read_response, no_error, small, read, e)
        (inr (record {
          found = contacts;
          upstream_status = p.status_code;
          answered = status;
          result = refl;
          at_most = few;
          items = each;
        }))

  read_response-IsContacts : IsContacts limit (read_response options limit p)
  unfolding read_response
  read_response-IsContacts = elim (Option-cases (error_result_from_response p)) [
    | inr (failure, e) ↦ rw (read_response, e) (inl (error_result-Fails p failure e))
    | inl no_error ↦ elim (Bool-cases (too_large p options.max_response_bytes)) [
      | inl large ↦ rw (read_response, no_error, large) (inl (failed _ _ _ _ _ refl))
      | inr small ↦ elim (Option-cases p.json) [
        | inl unreadable ↦
            rw (read_response, no_error, small, unreadable) (inl (failed _ _ _ _ _ refl))
        | inr (payload, read) ↦
            payload-IsContacts payload (error_result-none p no_error) no_error small read _ refl
      ]
    ]
  ]

module _ (repr : Json → String) (answer : GetRequest → ℕ → Sent) (options : Options) where
  -- A request to the application ended in an exception that the adapter does not handle.
  pub record HasRaised : Type 0 where
    pub request : GetRequest
    pub attempt : ℕ
    pub raises : answer request attempt ≡ raised

  sent-Gives :
      (capability : Capability) (limit : ℕ) (request : GetRequest)
      → Gives "contacts" IsContact limit HasRaised (
          conclude
            (λ p. some (read_response options limit p))
            (send_with_read_only_retries capability
              (answer request)
              options.read_retry_attempts).reply)
  sent-Gives capability limit request =
      let (e, _, _) = send-IsExchange capability (answer request) options.read_retry_attempts in
      rw e.reply (
        conclude-Gives _ _ _ _ (answer request e.last)
          (λ p. answer-Gives _ _ _ _ (read_response-IsContacts options limit p))
          (λ q. record { request = request; attempt = e.last; raises = q }))

  invoke-Gives :
      (capability : Capability) (input : Json) (context : InvocationContext)
      (secret : SecretMaterial)
      → Gives "contacts" IsContact
          (requested_limit input capability.input_schema)
          HasRaised
          (invoke repr answer options capability input context secret)
  unfolding invoke
  invoke-Gives capability input context secret =
      elim (Bool-cases (capability.operation == "phonebook.search")) [
        | inr other ↦ rw (invoke, other) (failure-Gives _ _ _ _ _ _ _)
        | inl search ↦ elim (Option-cases context.application.base_url) [
          | inl unset ↦ rw (invoke, search, unset) (failure-Gives _ _ _ _ _ _ _)
          | inr (base_url, e) ↦ elim (Option-cases (auth_headers secret)) [
            | inl unusable ↦ rw (invoke, search, e, unusable) (failure-Gives _ _ _ _ _ _ _)
            | inr (headers, e') ↦ rw (invoke, search, e, e') (sent-Gives capability _ _)
          ]
        ]
      ]

  -- A search in the phone book always gives a result, unless a request ends in an exception that the
  -- adapter does not handle. The result reports a failure without any data, or it comes from a
  -- response with a status below 400 and lists at most as many contacts as the requested limit,
  -- which is at least 1 and at most the largest that the capability's input schema allows; every
  -- contact has a name and a number that are not empty, a company and the source, and nothing else.
  pub invoke-IsContacts :
      (capability : Capability) (input : Json) (context : InvocationContext)
      (secret : SecretMaterial)
      → let limit = requested_limit input capability.input_schema in
        (1 ≤ limit)
        × (limit ≤ schema_maximum_limit capability.input_schema)
        × Gives "contacts" IsContact limit HasRaised
            (invoke repr answer options capability input context secret)
  unfolding requested_limit schema_maximum_limit
  invoke-IsContacts capability input context secret =
      let (least, most) = limit_within-bounds 50 input capability.input_schema (omega arith) in
      (least, most, invoke-Gives capability input context secret)
