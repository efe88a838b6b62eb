-- ===== src/Python/Exec/Relates.antt =====
-- What every run of a method does to its object, whether it returns or raises: a relation between
-- the object before and after, proved part by part. The relation is reflexive and transitive.
use sovrin.Prelude.{◌≡◌, refl, Bool, true, false, if◌then◌else◌}
use sovrin.Python.Result.{Exc, Result, ok, err}
use sovrin.Python.Exec.{
  Exec, pure, raise, lift, gets, asks, catching, handle_result, continue, ◌>>=◌,
}

pub record IsPreorder {ℓ} {S : Type ℓ} (R : S → S → Type ℓ) : Type ℓ where
  pub same : (s : S) → R s s
  pub chain : (s t u : S) → R s t → R t u → R s u

pub record Relates {ℓ} {S A : Type ℓ} (R : S → S → Type ℓ) (m : Exec S A) : Type ℓ where
  pub at : (s : S) → R s (m s).1

module _ {ℓ} {S A : Type ℓ} {R : S → S → Type ℓ} (o : IsPreorder R) where
  pub Relates-pure : (a : A) → Relates R (pure a)
  Relates-pure a = record { at = o.same }

  pub Relates-raise : (e : Exc) → Relates R (raise {A = A} e)
  Relates-raise e = record { at = o.same }

  pub Relates-lift : (r : Result A) → Relates R (lift r)
  Relates-lift r = record { at = o.same }

  pub Relates-gets : (f : S → A) → Relates R (gets f)
  Relates-gets f = record { at = o.same }

  pub Relates-asks : (f : S → Result A) → Relates R (asks f)
  Relates-asks f = record { at = o.same }

  pub Relates-catching :
      (m : Exec S A) (h : Exc → Exec S A)
      → Relates R m
      → ((e : Exc) → Relates R (h e))
      → Relates R (catching m h)
  Relates-catching m h rm rh = record { at = λ s. after s (m s) (rm.at s) }
    where
      after : (s : S) (p : Result A × S) → R s p.1 → R s (handle_result p.0 h p.1).1
      after s (ok a, t) r = r
      after s (err e, t) r = o.chain s t (h e t).1 r ((rh e).at t)

module _ {ℓ} {S A : Type ℓ} {R : S → S → Type ℓ} where
  pub Relates-if :
      (b : Bool) (m n : Exec S A)
      → (b ≡ true → Relates R m)
      → (b ≡ false → Relates R n)
      → Relates R (if b then m else n)
  Relates-if true m n rm rn = rm refl
  Relates-if false m n rm rn = rn refl

module _ {ℓ} {S A B : Type ℓ} {R : S → S → Type ℓ} (o : IsPreorder R) where
  pub Relates-bind :
      (m : Exec S A) (f : A → Exec S B)
      → Relates R m
      → ((a : A) → Relates R (f a))
      → Relates R (m >>= f)
  Relates-bind m f rm rf = record { at = λ s. after s (m s) (rm.at s) }
    where
      after : (s : S) (p : Result A × S) → R s p.1 → R s (continue p.0 f p.1).1
      after s (ok a, t) r = o.chain s t (f a t).1 r ((rf a).at t)
      after s (err e, t) r = r

pub ruleset relates_rules = (
  Relates-pure, Relates-raise, Relates-lift, Relates-gets, Relates-asks, Relates-if,
  Relates-catching, Relates-bind,
)

module _ {ℓ} {S A B : Type ℓ} {R : S → S → Type ℓ} (o : IsPreorder R) where
  -- What relates the states before and after the rest of a body relates the state that the first
  -- call leaves to the last one.
  pub rest-Relates :
      (m : Exec S A) (f : A → Exec S B)
      → ((a : A) → Relates R (f a))
      → (s : S) → R (m s).1 ((m >>= f) s).1
  rest-Relates m f rf s = after (m s)
    where
      after : (p : Result A × S) → R p.1 (continue p.0 f p.1).1
      after (ok a, t) = (rf a).at t
      after (err e, t) = o.same t

module _ {ℓ} {S A : Type ℓ} {R : S → S → Type ℓ} (o : IsPreorder R) where
  -- The same for the handler of exceptions.
  pub handler-Relates :
      (m : Exec S A) (h : Exc → Exec S A)
      → ((e : Exc) → Relates R (h e))
      → (s : S) → R (m s).1 (catching m h s).1
  handler-Relates m h rh s = after (m s)
    where
      after : (p : Result A × S) → R p.1 (handle_result p.0 h p.1).1
      after (ok a, t) = o.same t
      after (err e, t) = (rh e).at t
