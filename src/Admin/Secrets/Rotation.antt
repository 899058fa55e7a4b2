-- ===== src/Admin/Secrets/Rotation.antt =====
-- What `rotate_secret` of api/admin.py leaves: the old secret revoked, and the new one in its place.
use mathlib.Core.List.Memᴰ
use grantora.Prelude.{
  ℕ, String, ◌≡◌, refl, sym, ap, ◌∙◌, Bool, true, false, Option, none, some, List, [], ◌∷◌, ◌++◌,
  arith, Memᴰ, any, and_true, string_eq, nat_eq,
}
use grantora.Prelude.Text.{starts_with}
use grantora.Errors.{ApiError, Result, ok, raise, lift, modify, or_else_do, ◌>>=◌, ◌>>◌}
use grantora.Errors.Keeps.{Keeps, modify-bind, bind-ok}
use grantora.Db.Models.{Db, Secret, revoked_status, is_active}
use grantora.Secrets.{resolve_secret_value, usable_value, external_secret_prefix}
use grantora.Admin.{Session, AdminEnv, has_integrity, manages, same_secret_key, no_two, keep_if}
use grantora.Admin.Steps.{get_or_raise-bind, require-bind, flush-bind, commit-bind}
use grantora.Admin.Secrets.Laws.{validate-Keeps}
use grantora.Admin.Secrets.{
  SecretRotateRequest, secret_stored_value, secret_by_id, with_status, set_secret_status,
  validate_secret_can_be_active, encrypted, insert_secret, secret_event, replacement, rotate_secret,
}

any-last :
    {A : Type 0} (p : A → Bool) (xs : List A) (t : A) → any p (xs ++ t ∷ []) ≡ false → p t ≡ false
any-last p [] t h = ground arith
any-last p (x ∷ xs) t h = any-last p xs t (ground arith)

-- A list with no two entries alike has none before its last that is like it.
no_two-last :
    {A : Type 0} (same : A → A → Bool) (xs : List A) (t : A) {u : A}
    → no_two same (xs ++ t ∷ []) ≡ true
    → Memᴰ u xs
    → same u t ≡ false
no_two-last same [] t h m = absurd (Memᴰ.not-nil m)
no_two-last same (x ∷ xs) t {u} h (Memᴰ.head e) =
    ap (λ y. same y t) e ∙ any-last (same x) xs t (ground arith)
no_two-last same (x ∷ xs) t h (Memᴰ.tail m) = no_two-last same xs t (ground arith) m

lift-ok :
    {A : Type 0} (r : Result A) (s : Session) {a : A} {s' : Session}
    → lift r s ≡ (ok a, s')
    → (r ≡ ok a) × (s' ≡ s)
unfolding ◌>>=◌
lift-ok r s h = (ap (λ x. x.0) h, sym (ap (λ x. x.1) h))

or_else_raise-ok :
    {A : Type 0} (o : Option A) (e : ApiError) (s : Session) {a : A} {s' : Session}
    → or_else_do o (raise e) s ≡ (ok a, s')
    → (o ≡ some a) × (s' ≡ s)
unfolding ◌>>=◌
or_else_raise-ok none e s h = cc
or_else_raise-ok (some b) e s h = (cc, cc)

module _ (env : AdminEnv) where
  -- A value that was encrypted is the stored form of what the request gives.
  encrypted-ok :
      (value reference : Option String) (s : Session) {c : String} {s' : Session}
      → encrypted env value reference s ≡ (ok c, s')
      → (stored : String) × (secret_stored_value value reference ≡ ok stored)
        × (env.cipher.encrypt env.settings.secret_encryption_key stored ≡ some c)
        × (s' ≡ s)
  unfolding encrypted
  encrypted-ok value reference s h =
      let (stored, s₁, e, h₁) = bind-ok _ _ s h in
      let (source, same) = lift-ok _ s e in
      let (cipher, unchanged) = or_else_raise-ok _ _ s₁ h₁ in
      (stored, source, cipher, unchanged ∙ same)

  insert-ok :
      (t : Secret) (message : String) (s : Session) {u : Secret} {s' : Session}
      → insert_secret env t message s ≡ (ok u, s')
      → (u ≡ t)
        × (s'.db.secrets ≡ s.db.secrets ++ u ∷ [])
        × (s'.db.audit_events ≡ s.db.audit_events ++ secret_event env u ∷ [])
        × (has_integrity s'.db ≡ true)
        × (s'.committed ≡ s'.db)
  unfolding insert_secret
  insert-ok t message s h =
      let (_, h₁) = flush-bind _ _ _ _ (modify-bind _ _ s h) in
      let (same, e, good) = commit-bind _ _ _ _ (modify-bind _ _ _ h₁) in
      (
        sym same,
        ap (λ (x : Session). x.db.secrets) e ∙ ap (λ v. s.db.secrets ++ v ∷ []) same,
        ap (λ (x : Session). x.db.audit_events) e
            ∙ ap (λ v. s.db.audit_events ++ secret_event env v ∷ []) same,
        ap (λ (x : Session). has_integrity x.db) e ∙ good,
        rw e refl,
      )

  -- The new row stands for the old one: it has its workspace, application and owner, it holds what the
  -- request gives, encrypted, and no other active secret has that owner.
  pub record IsRotated (secret_id : ℕ) (payload : SecretRotateRequest) (s : Session) (t : Secret)
      (s' : Session) : Type 0 where
    pub old : Secret
    pub found : keep_if (λ u. is_active u.status) (secret_by_id secret_id s.db) ≡ some old
    pub managed : manages env.admin old.workspace_id ≡ true
    pub stored : String
    pub source : secret_stored_value payload.value payload.external_reference ≡ ok stored
    pub cipher :
        env.cipher.encrypt env.settings.secret_encryption_key stored ≡ some t.encrypted_value
    pub new_row : t ≡ replacement env old payload t.encrypted_value
    pub secrets : s'.db.secrets ≡ with_status secret_id revoked_status s.db.secrets ++ t ∷ []
    pub event : s'.db.audit_events ≡ s.db.audit_events ++ secret_event env t ∷ []
    pub only :
        (u : Secret)
        → Memᴰ u (with_status secret_id revoked_status s.db.secrets)
        → same_secret_key u t ≡ false
    pub committed : s'.committed ≡ s'.db

  only_active :
      (db : Db) (xs : List Secret) (t : Secret)
      → has_integrity db ≡ true
      → db.secrets ≡ xs ++ t ∷ []
      → (u : Secret) → Memᴰ u xs
      → same_secret_key u t ≡ false
  unfolding has_integrity
  only_active db xs t good e u m =
      no_two-last same_secret_key xs t
        (ap (no_two same_secret_key) (sym e) ∙ (and_true _ _ (and_true _ _ good).0).1) m

  -- A rotation that succeeds was made by an administrator of the secret's workspace. It revokes the
  -- active secret, adds an active one in its place, with the same workspace, application and owner, that
  -- holds the encrypted value of the request, and adds one event. No other active secret then has that
  -- owner, and all of it is committed.
  pub rotate-IsRotated :
      (secret_id : ℕ) (payload : SecretRotateRequest) (s : Session) {t : Secret} {s' : Session}
      → rotate_secret env secret_id payload s ≡ (ok t, s')
      → IsRotated secret_id payload s t s'
  unfolding rotate_secret
  rotate-IsRotated secret_id payload s {t} {s'} h =
      let (old, found, h₁) = get_or_raise-bind _ _ _ s h in
      let (managed, h₂) = require-bind _ _ _ s h₁ in
      let (_, s₁, e₁, h₃) = bind-ok _ _ s h₂ in
      let kept : Keeps (λ x. x ≡ s) (validate_secret_can_be_active old) = validate-Keeps old in
      let same₁ : s₁ ≡ s = sym (ap (λ x. x.1) e₁) ∙ kept.kept s refl in
      let (c, s₂, e₂, h₄) = bind-ok _ _ s₁ h₃ in
      let (stored, source, cipher, same₂) = encrypted-ok _ _ s₁ e₂ in
      let same : s₂ ≡ s = same₂ ∙ same₁ in
      let (new_row, secrets, event, good, committed) = insert-ok _ _ _ (
        modify-bind _ _ s (
          ap
            (modify (set_secret_status secret_id revoked_status)
              >> insert_secret env (replacement env old payload c) "Secret could not be rotated")
            (sym same)
          ∙ h₄)) in
      let held : c ≡ t.encrypted_value = sym (ap (λ (u : Secret). u.encrypted_value) new_row) in
      record {
        old = old;
        found = found;
        managed = managed;
        stored = stored;
        source = source;
        cipher = cipher ∙ ap some held;
        new_row = new_row ∙ ap (replacement env old payload) held;
        secrets = secrets;
        event = event;
        only = only_active s'.db _ t good secrets;
        committed = committed;
      }

  stored_plain :
      (v : String) (value reference : Option String) {stored : String}
      → value ≡ some v
      → reference ≡ none
      → secret_stored_value value reference ≡ ok stored
      → stored ≡ v
  unfolding secret_stored_value
  stored_plain v none reference e f h = cc
  stored_plain v (some w) (some r) e f h = cc
  stored_plain v (some w) none e f h = cc

  plain-usable :
      (v : String) (t : Secret)
      → starts_with v external_secret_prefix ≡ false
      → env.cipher.decrypt env.settings.secret_encryption_key t.encrypted_value ≡ some v
      → usable_value env.cipher env.settings t ≡ some v
  unfolding resolve_secret_value
  plain-usable v t plain e = rw (usable_value, e, plain) refl

  -- With a cipher that decrypts what it encrypted under the configured key: after a rotation to a plain
  -- value that does not start like an external reference, an invocation that uses the new secret gets
  -- that value.
  pub rotate-usable_value :
      (secret_id : ℕ) (payload : SecretRotateRequest) (s : Session) (v : String) {t : Secret}
      {s' : Session}
      → ((text c : String)
          → env.cipher.encrypt env.settings.secret_encryption_key text ≡ some c
          → env.cipher.decrypt env.settings.secret_encryption_key c ≡ some text)
      → payload.value ≡ some v
      → payload.external_reference ≡ none
      → starts_with v external_secret_prefix ≡ false
      → rotate_secret env secret_id payload s ≡ (ok t, s')
      → usable_value env.cipher env.settings t ≡ some v
  rotate-usable_value secret_id payload s v {t} decrypts given no_reference plain h =
      let rotated = rotate-IsRotated secret_id payload s h in
      let same =
        stored_plain v payload.value payload.external_reference given no_reference rotated.source in
      plain-usable v t plain (decrypts _ _ rotated.cipher ∙ ap some same)
