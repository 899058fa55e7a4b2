-- ===== src/Errors/Keeps.antt =====
-- Invariants of handlers, one rule for each way to build one.
use grantora.Prelude.{◌≡◌, refl, ap, ◌⊎◌, inl, inr, Bool, true, false, Option, none, some}
use grantora.Errors.{
  ApiError, Result, ok, err, Exec, pure, raise, gets, lift, modify, when, or_else_do, except_do,
  continue, ◌>>=◌,
}

-- However the handler ends, what held before holds after it.
pub record Keeps {S A : Type 0} (P : S → Type 0) (m : Exec S A) : Type 0 where
  pub kept : (s : S) → P s → P (m s).1

module _ {S : Type 0} {P : S → Type 0} where
  module _ {A : Type 0} where
    pub Keeps-gets : (f : S → A) → Keeps P (gets f)
    unfolding ◌>>=◌
    Keeps-gets f = record { kept = λ s h. h }

    pub Keeps-pure : (a : A) → Keeps P (pure a)
    unfolding ◌>>=◌
    Keeps-pure a = record { kept = λ s h. h }

    pub Keeps-or_else_do :
        (o : Option A) (handler : Exec S A) → Keeps P handler → Keeps P (or_else_do o handler)
    unfolding ◌>>=◌
    Keeps-or_else_do none handler h = h
    Keeps-or_else_do (some a) handler h = Keeps-pure a

    pub Keeps-lift : (r : Result A) → Keeps P (lift r)
    unfolding ◌>>=◌
    Keeps-lift r = record { kept = λ s h. h }

    pub Keeps-raise : (e : ApiError) → Keeps P (raise {A = A} e)
    unfolding ◌>>=◌
    Keeps-raise e = record { kept = λ s h. h }

  pub Keeps-modify : (f : S → S) → ((s : S) → P s → P (f s)) → Keeps P (modify f)
  unfolding ◌>>=◌
  Keeps-modify f h = record { kept = h }

  pub Keeps-when :
      (b : Bool) (handler : Exec S (Unit {0})) → Keeps P handler → Keeps P (when b handler)
  unfolding ◌>>=◌
  Keeps-when true handler h = h
  Keeps-when false handler h = Keeps-pure tt

  pub Keeps-except_do :
      {E : Type 0} (o : Option E) (handler : E → Exec S (Unit {0}))
      → ((e : E) → Keeps P (handler e))
      → Keeps P (except_do o handler)
  unfolding ◌>>=◌
  Keeps-except_do none handler h = Keeps-pure tt
  Keeps-except_do (some e) handler h = h e

  module _ {A B : Type 0} where
    Keeps-continue :
        (r : Result A × S) (f : A → Exec S B)
        → P r.1
        → ((a : A) → Keeps P (f a))
        → P (continue r f).1
    Keeps-continue (ok a, s) f h k = (k a).kept s h
    Keeps-continue (err e, s) f h k = h

    pub Keeps-bind :
        (first : Exec S A) (rest : A → Exec S B)
        → Keeps P first
        → ((a : A) → Keeps P (rest a))
        → Keeps P (first >>= rest)
    unfolding ◌>>=◌
    Keeps-bind first rest h k = record {
      kept = λ s p. Keeps-continue (first s) rest (h.kept s p) k;
    }

module _ {S B : Type 0} {P : S → Type 0} where
  -- After a first assignment the rest of a block keeps what holds from there on.
  pub modify-Keeps :
      (g : S → S) (f : Unit {0} → Exec S B) (s : S)
      → Keeps P (f tt)
      → P (g s)
      → P ((modify g >>= f) s).1
  unfolding ◌>>=◌
  modify-Keeps g f s k h = k.kept (g s) h

pub ruleset keeps_rules = (
  Keeps-pure, Keeps-raise, Keeps-gets, Keeps-lift, Keeps-or_else_do, Keeps-when, Keeps-except_do,
  Keeps-bind,
)

-- A handler that ends in a raise.
abbrev pub Raises : {S A : Type 0} → Exec S A → Type 0
Raises {S} {A} m = (s : S) → (e : ApiError) × (s' : S) × (m s ≡ (err e, s'))

-- The steps of a block that returned.
module _ {S A B : Type 0} where
  continue-ok :
      (r : Result A × S) (f : A → Exec S B) {b : B} {s' : S}
      → continue r f ≡ (ok b, s')
      → (a : A) × (s₁ : S) × (r ≡ (ok a, s₁)) × (f a s₁ ≡ (ok b, s'))
  continue-ok (ok a, s) f h = (a, s, refl, h)
  continue-ok (err e, s) f h = cc

  pub continue-raised :
      (r : Result A × S) (f : A → Exec S B) {e : ApiError} {b : B} {s₁ s' : S}
      → r ≡ (err e, s₁)
      → continue r f ≡ (ok b, s')
      → ⊥
  continue-raised (ok a, s) f q h = cc
  continue-raised (err e, s) f q h = cc

  pub bind-ok :
      (m : Exec S A) (f : A → Exec S B) (s : S) {b : B} {s' : S}
      → (m >>= f) s ≡ (ok b, s')
      → (a : A) × (s₁ : S) × (m s ≡ (ok a, s₁)) × (f a s₁ ≡ (ok b, s'))
  unfolding ◌>>=◌
  bind-ok m f s h = continue-ok (m s) f h

  pub gets-bind :
      (g : S → A) (f : A → Exec S B) (s : S) {r : Result B × S}
      → (gets g >>= f) s ≡ r
      → f (g s) s ≡ r
  unfolding ◌>>=◌
  gets-bind g f s h = h

  pub or_else_do-bind :
      (o : Option A) (handler : Exec S A) (f : A → Exec S B) (s : S) {b : B} {s' : S}
      → Raises handler
      → (or_else_do o handler >>= f) s ≡ (ok b, s')
      → (a : A) × (o ≡ some a) × (f a s ≡ (ok b, s'))
  unfolding ◌>>=◌
  or_else_do-bind none handler f s raises h =
      let (e, s₁, q) = raises s in absurd (continue-raised (handler s) f q h)
  or_else_do-bind (some a) handler f s raises h = (a, refl, h)

module _ {S B : Type 0} where
  pub when-bind :
      (t : Bool) (handler : Exec S (Unit {0})) (f : Unit {0} → Exec S B) (s : S) {b : B} {s' : S}
      → Raises handler
      → (when t handler >>= f) s ≡ (ok b, s')
      → (t ≡ false) × (f tt s ≡ (ok b, s'))
  unfolding ◌>>=◌
  when-bind true handler f s raises h =
      let (e, s₁, q) = raises s in absurd (continue-raised (handler s) f q h)
  when-bind false handler f s raises h = (refl, h)

  pub except_do-bind :
      {E : Type 0} (o : Option E) (handler : E → Exec S (Unit {0})) (f : Unit {0} → Exec S B)
      (s : S) {b : B} {s' : S}
      → ((e : E) → Raises (handler e))
      → (except_do o handler >>= f) s ≡ (ok b, s')
      → (o ≡ none) × (f tt s ≡ (ok b, s'))
  unfolding ◌>>=◌
  except_do-bind none handler f s raises h = (refl, h)
  except_do-bind (some e) handler f s raises h =
      let (e', s₁, q) = raises e s in absurd (continue-raised (handler e s) f q h)

  pub modify-bind :
      (g : S → S) (f : Unit {0} → Exec S B) (s : S) {r : Result B × S}
      → (modify g >>= f) s ≡ r
      → f tt (g s) ≡ r
  unfolding ◌>>=◌
  modify-bind g f s h = h

module _ {S A B : Type 0} where
  -- A block raises with its first step, or goes on from where that returned.
  pub bind-cases :
      (m : Exec S A) (f : A → Exec S B) (s : S)
      → ((e : ApiError) × (s' : S) × (m s ≡ (err e, s')) × ((m >>= f) s ≡ (err e, s')))
        ⊎ ((a : A) × (s' : S) × (m s ≡ (ok a, s')) × ((m >>= f) s ≡ f a s'))
  unfolding ◌>>=◌
  bind-cases m f s = cases (m s) refl
    where
      cases :
          (r : Result A × S)
          → m s ≡ r
          → ((e : ApiError) × (s' : S) × (m s ≡ (err e, s')) × (continue (m s) f ≡ (err e, s')))
            ⊎ ((a : A) × (s' : S) × (m s ≡ (ok a, s')) × (continue (m s) f ≡ f a s'))
      cases (err e, s') q = inl (e, s', q, ap (λ r. continue r f) q)
      cases (ok a, s') q = inr (a, s', q, ap (λ r. continue r f) q)

pub pure-ok :
    {S A : Type 0} (a : A) (s : S) {b : A} {s' : S} → pure a s ≡ (ok b, s') → (a ≡ b) × (s' ≡ s)
unfolding ◌>>=◌
pure-ok a s h = (cc, cc)
