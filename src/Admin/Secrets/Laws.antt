-- ===== src/Admin/Secrets/Laws.antt =====
-- The handlers of secrets in api/admin.py are atomic.
use grantora.Prelude.{ℕ, String, Option, refl, Bool-cases, inl, inr, ◌==◌, string_eq, nat_eq}
use grantora.Errors.Keeps.{
  Keeps, Keeps-bind, Keeps-modify, Keeps-raise, Keeps-lift, Keeps-when, Keeps-or_else_do,
}
use grantora.Db.Models.{Db, Secret}
use grantora.Admin.{Session, AdminEnv}
use grantora.Admin.Atomic.{
  Sees, Ends, IsAtomic, admin_rules, Keeps-get_or_raise, Keeps-require, Sees-flush, IsAtomic-bind,
  IsAtomic-commit,
}
use grantora.Admin.Secrets.{
  SecretCreateRequest, SecretRotateRequest, validate_secret_owner, validate_secret_can_be_active,
  encrypted, insert_secret, create_secret, rotate_secret, update_secret_status,
}

module _ {P : Session → Type 0} where
  pub owner-Keeps :
      (workspace_id : ℕ) (owner_type : String) (owner_id : ℕ)
      → Keeps P (validate_secret_owner workspace_id owner_type owner_id)
  unfolding validate_secret_owner
  owner-Keeps workspace_id owner_type owner_id = elim (Bool-cases (owner_type == "workspace")) [
    | inl w ↦ rw w (search admin_rules depth 12)
    | inr not_w ↦ elim (Bool-cases (owner_type == "user")) [
      | inl u ↦ rw (not_w, u) (search admin_rules depth 12)
      | inr not_u ↦ elim (Bool-cases (owner_type == "agent")) [
        | inl a ↦ rw (not_w, not_u, a) (search admin_rules depth 12)
        | inr not_a ↦ rw (not_w, not_u, not_a) (search admin_rules depth 12)
      ]
    ]
  ]

  pub validate-Keeps : (t : Secret) → Keeps P (validate_secret_can_be_active t)
  unfolding validate_secret_can_be_active
  validate-Keeps t = Keeps-bind _ _ (Keeps-get_or_raise _ _) λ w.
      Keeps-bind _ _ (Keeps-get_or_raise _ _)
        λ a. Keeps-bind _ _ (Keeps-require _ _) λ _. owner-Keeps w.id t.owner_type t.owner_id

module _ (c : Db) where
  encrypted-Sees :
      (env : AdminEnv) (value reference : Option String)
      → Keeps (Sees c) (encrypted env value reference)
  unfolding encrypted
  encrypted-Sees env value reference =
      Keeps-bind _ _ (Keeps-lift _) λ stored. Keeps-or_else_do _ _ (Keeps-raise _)

  insert-IsAtomic :
      (env : AdminEnv) (t : Secret) (message : String) → IsAtomic c (insert_secret env t message)
  unfolding insert_secret
  insert-IsAtomic env t message = IsAtomic-bind c _ _ (Keeps-modify _ (λ _ h. h)) λ _.
      IsAtomic-bind c _ _ (Sees-flush c _ _)
        λ _. IsAtomic-bind c _ _ (Keeps-modify _ (λ _ h. h)) λ _. IsAtomic-commit c _ _ _

module _ (env : AdminEnv) (s : Session) where
  pub create_secret-Ends :
      (payload : SecretCreateRequest) → Ends s.committed (create_secret env payload s)
  unfolding create_secret
  create_secret-Ends payload =
      (IsAtomic-bind s.committed _ _ (Keeps-require _ _) λ _.
          IsAtomic-bind s.committed _ _ (Keeps-get_or_raise _ _) λ w.
            IsAtomic-bind s.committed _ _ (Keeps-get_or_raise _ _) λ a.
              IsAtomic-bind s.committed _ _ (Keeps-require _ _) λ _.
                IsAtomic-bind s.committed _ _ (owner-Keeps w.id payload.owner_type payload.owner_id)
                  λ _.
                    IsAtomic-bind s.committed _ _
                      (encrypted-Sees s.committed env payload.value payload.external_reference)
                      λ _. insert-IsAtomic s.committed env _ _).ends
        s refl

  pub rotate_secret-Ends :
      (secret_id : ℕ) (payload : SecretRotateRequest)
      → Ends s.committed (rotate_secret env secret_id payload s)
  unfolding rotate_secret
  rotate_secret-Ends secret_id payload =
      (IsAtomic-bind s.committed _ _ (Keeps-get_or_raise _ _) λ old.
          IsAtomic-bind s.committed _ _ (Keeps-require _ _) λ _.
            IsAtomic-bind s.committed _ _ (validate-Keeps old) λ _.
              IsAtomic-bind s.committed _ _
                (encrypted-Sees s.committed env payload.value payload.external_reference)
                λ _.
                  IsAtomic-bind s.committed _ _ (Keeps-modify _ (λ _ h. h))
                    λ _. insert-IsAtomic s.committed env _ _).ends
        s refl

  pub update_secret_status-Ends :
      (secret_id : ℕ) (status : String)
      → Ends s.committed (update_secret_status env secret_id status s)
  unfolding update_secret_status
  update_secret_status-Ends secret_id status =
      (IsAtomic-bind s.committed _ _ (Keeps-get_or_raise _ _) λ t.
          IsAtomic-bind s.committed _ _ (Keeps-require _ _) λ _.
            IsAtomic-bind s.committed _ _ (Keeps-when _ _ (validate-Keeps t)) λ _.
              IsAtomic-bind s.committed _ _ (Keeps-modify _ (λ _ h. h)) λ _.
                IsAtomic-bind s.committed _ _ (Keeps-modify _ (λ _ h. h))
                  λ _. IsAtomic-commit s.committed _ _ _).ends
        s refl
