-- ===== src/Admin/Atomic.antt =====
-- The handlers of api/admin.py are atomic: they commit at the end, or other sessions see nothing.
use grantora.Prelude.{String, ◌≡◌, refl, ◌∙◌, true, Bool, not, Option, Bool-cases, inl, inr}
use grantora.Errors.{ApiError, Result, ok, err, Exec, pure, modify, continue, ◌>>=◌, ◌>>◌}
use grantora.Errors.Keeps.{
  Keeps, Keeps-pure, Keeps-raise, Keeps-gets, Keeps-bind, Keeps-modify, Keeps-when,
  Keeps-or_else_do,
}
use grantora.Db.Models.{Db}
use grantora.Admin.{
  Session, has_integrity, flush_or_conflict, commit_or_conflict, get_or_raise, require,
  insert_and_commit, change_and_commit,
}

-- The steps that only look keep everything.
module _ {P : Session → Type 0} where
  pub Keeps-get_or_raise :
      {A : Type 0} (lookup : Db → Option A) (e : ApiError) → Keeps P (get_or_raise lookup e)
  unfolding get_or_raise
  Keeps-get_or_raise lookup e =
      Keeps-bind _ _ (Keeps-gets _) λ o. Keeps-or_else_do o _ (Keeps-raise e)

  pub Keeps-require : (test : Bool) (e : ApiError) → Keeps P (require test e)
  unfolding require
  Keeps-require test e = Keeps-when (not test) _ (Keeps-raise e)

module _ (c : Db) where
  -- Other sessions see `c`.
  abbrev pub Sees : Session → Type 0
  Sees s = s.committed ≡ c

  -- Where a handler returns, all that it did is committed and meets the constraints; where it
  -- raises, others still see `c`.
  abbrev pub Ends : {A : Type 0} → Result A × Session → Type 0
  Ends (ok a, s) = (s.committed ≡ s.db) × (has_integrity s.db ≡ true)
  Ends (err e, s) = Sees s

  pub record IsAtomic {A : Type 0} (m : Exec Session A) : Type 0 where
    pub ends : (s : Session) → Sees s → Ends (m s)

  pub Sees-flush : (code message : String) → Keeps Sees (flush_or_conflict code message)
  unfolding flush_or_conflict
  Sees-flush code message = record {
    kept =
        λ s h. elim (Bool-cases (has_integrity s.db)) [ inl good ↦ rw good h | inr bad ↦ rw bad h ];
  }

  continue-Ends :
      {A B : Type 0} (r : Result A × Session) (f : A → Exec Session B)
      → Sees r.1
      → ((a : A) → IsAtomic (f a))
      → Ends (continue r f)
  continue-Ends (ok a, s) f h k = (k a).ends s h
  continue-Ends (err e, s) f h k = h

  pub IsAtomic-bind :
      {A B : Type 0} (m : Exec Session A) (f : A → Exec Session B)
      → Keeps Sees m
      → ((a : A) → IsAtomic (f a))
      → IsAtomic (m >>= f)
  unfolding ◌>>=◌
  IsAtomic-bind m f h k = record { ends = λ s sees. continue-Ends (m s) f (h.kept s sees) k }

  pub IsAtomic-commit :
      {A : Type 0} (code message : String) (a : A)
      → IsAtomic (commit_or_conflict code message >> pure a)
  unfolding commit_or_conflict ◌>>=◌
  IsAtomic-commit code message a = record {
    ends = λ s h. elim (Bool-cases (has_integrity s.db)) [
      | inl good ↦ rw good (refl, good)
      | inr bad ↦ rw bad h
    ];
  }

  -- The changes that a handler makes in its own session.
  pub Keeps-change :
      (f : Session → Session)
      → ((s : Session) → (f s).committed ≡ s.committed)
      → Keeps Sees (modify f)
  Keeps-change f h = Keeps-modify f (λ s sees. h s ∙ sees)

  pub IsAtomic-insert :
      {A : Type 0} (code message : String) (add_row add_event : Session → Session) (a : A)
      → ((s : Session) → (add_row s).committed ≡ s.committed)
      → ((s : Session) → (add_event s).committed ≡ s.committed)
      → IsAtomic (insert_and_commit code message add_row add_event a)
  unfolding insert_and_commit ◌>>=◌
  IsAtomic-insert code message add_row add_event a h k =
      IsAtomic-bind _ _ (Keeps-change add_row h) λ _.
        IsAtomic-bind _ _ (Sees-flush code message)
          λ _. IsAtomic-bind _ _ (Keeps-change add_event k) λ _. IsAtomic-commit code message a

  pub IsAtomic-change :
      {A : Type 0} (code message : String) (change_row add_event : Session → Session) (a : A)
      → ((s : Session) → (change_row s).committed ≡ s.committed)
      → ((s : Session) → (add_event s).committed ≡ s.committed)
      → IsAtomic (change_and_commit code message change_row add_event a)
  unfolding change_and_commit ◌>>=◌
  IsAtomic-change code message change_row add_event a h k =
      IsAtomic-bind _ _ (Keeps-change change_row h)
        λ _. IsAtomic-bind _ _ (Keeps-change add_event k) λ _. IsAtomic-commit code message a

  forget-Ends :
      {A : Type 0} (r : Result A × Session)
      → Ends r
      → Ends (continue r (λ _. pure {A = Unit {0}} tt))
  unfolding ◌>>=◌
  forget-Ends (ok a, s) h = h
  forget-Ends (err e, s) h = h

  -- A handler whose result is not looked at.
  pub IsAtomic-forget :
      {A : Type 0} (m : Exec Session A) → IsAtomic m → IsAtomic (m >> pure {A = Unit {0}} tt)
  unfolding ◌>>=◌
  IsAtomic-forget m h = record { ends = λ s sees. forget-Ends (m s) (h.ends s sees) }

pub ruleset admin_rules = (Keeps-pure, Keeps-raise, Keeps-bind, Keeps-get_or_raise, Keeps-require)
