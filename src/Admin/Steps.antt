-- ===== src/Admin/Steps.antt =====
-- What a handler of api/admin.py has passed when it returns, step by step.
use grantora.Prelude.{
  String, ◌≡◌, refl, Bool, true, false, Option, none, some, Bool-cases, inl, inr, arith,
}
use grantora.Errors.{ApiError, ok, Exec, pure, modify, raise, or_else_do, ◌>>=◌, ◌>>◌}
use grantora.Errors.Keeps.{pure-ok}
use grantora.Db.Models.{Db}
use grantora.Admin.{
  Session, has_integrity, flush_or_conflict, commit_or_conflict, change_and_commit,
  insert_and_commit, get_or_raise, require,
}

module _ {B : Type 0} where
  found_from :
      {A : Type 0} (o : Option A) (e : ApiError) (k : A → Exec Session B) (s : Session) {b : B}
      {s' : Session}
      → (or_else_do o (raise e) >>= k) s ≡ (ok b, s')
      → (a : A) × (o ≡ some a) × (k a s ≡ (ok b, s'))
  unfolding ◌>>=◌
  found_from none e k s h = cc
  found_from (some a) e k s h = (a, refl, h)

  -- A lookup that did not raise found its row.
  pub get_or_raise-bind :
      {A : Type 0} (lookup : Db → Option A) (e : ApiError) (k : A → Exec Session B) (s : Session)
      {b : B} {s' : Session}
      → (get_or_raise lookup e >>= k) s ≡ (ok b, s')
      → (a : A) × (lookup s.db ≡ some a) × (k a s ≡ (ok b, s'))
  unfolding get_or_raise ◌>>=◌
  get_or_raise-bind lookup e k s h = found_from (lookup s.db) e k s h

  -- A requirement that did not raise held.
  pub require-bind :
      (test : Bool) (e : ApiError) (k : Unit {0} → Exec Session B) (s : Session) {b : B}
      {s' : Session}
      → (require test e >>= k) s ≡ (ok b, s')
      → (test ≡ true) × (k tt s ≡ (ok b, s'))
  unfolding require ◌>>=◌
  require-bind true e k s h = (refl, h)
  require-bind false e k s h = cc

  pub flush-bind :
      (code message : String) (k : Unit {0} → Exec Session B) (s : Session) {b : B} {s' : Session}
      → (flush_or_conflict code message >>= k) s ≡ (ok b, s')
      → (has_integrity s.db ≡ true) × (k tt s ≡ (ok b, s'))
  unfolding flush_or_conflict ◌>>=◌
  flush-bind code message k s h = elim (Bool-cases (has_integrity s.db)) [
    | inl good ↦ (good, rw good at h)
    | inr bad ↦ absurd (ground (arith, rw bad at h))
  ]

  pub commit-bind :
      (code message : String) (a : B) (s : Session) {b : B} {s' : Session}
      → (commit_or_conflict code message >> pure a) s ≡ (ok b, s')
      → (a ≡ b) × (s' ≡ record s { committed = s.db }) × (has_integrity s.db ≡ true)
  unfolding commit_or_conflict ◌>>=◌
  commit-bind code message a s h = elim (Bool-cases (has_integrity s.db)) [
    | inl good ↦
        let (same, e) = pure-ok a (record s { committed = s.db }) (rw good at h) in (same, e, good)
    | inr bad ↦ absurd (ground (arith, rw bad at h))
  ]

  pub change-bind :
      (code message : String) (change_row add_event : Session → Session) (a : B) (s : Session)
      {b : B} {s' : Session}
      → change_and_commit code message change_row add_event a s ≡ (ok b, s')
      → let changed = add_event (change_row s) in
        (a ≡ b)
        × (s' ≡ record changed { committed = changed.db })
        × (has_integrity changed.db ≡ true)
  unfolding change_and_commit ◌>>=◌
  change-bind code message change_row add_event a s h =
      commit-bind code message a (add_event (change_row s)) h

  pub insert-bind :
      (code message : String) (add_row add_event : Session → Session) (a : B) (s : Session) {b : B}
      {s' : Session}
      → insert_and_commit code message add_row add_event a s ≡ (ok b, s')
      → let added = add_event (add_row s) in
        (a ≡ b) × (s' ≡ record added { committed = added.db }) × (has_integrity added.db ≡ true)
  unfolding insert_and_commit ◌>>=◌
  insert-bind code message add_row add_event a s h =
      let (_, h₁) =
        flush-bind code message
          (λ _. modify add_event >>= (λ _. commit_or_conflict code message >> pure a)) (add_row s)
          h in
      commit-bind code message a (add_event (add_row s)) h₁
