-- ===== src/Python/Exec.antt =====
-- Methods that change an object and may raise. What was written before a raise stays written, so
-- the state comes back beside the exception too.
pub mod Relates
use sovrin.Python.Result.{Exc, Result, ok, err}

abbrev pub Exec {ℓ} : Type ℓ → Type ℓ → Type ℓ
Exec S A = S → Result A × S

module _ {ℓ} {S A : Type ℓ} where
  abbrev pub pure : A → Exec S A
  pure a s = (ok a, s)

  abbrev pub raise : Exc → Exec S A
  raise e s = (err e, s)

  abbrev pub lift : Result A → Exec S A
  lift r s = (r, s)

  abbrev pub gets : (S → A) → Exec S A
  gets f s = (ok (f s), s)

  -- a query that may raise
  abbrev pub asks : (S → Result A) → Exec S A
  asks f s = (f s, s)

module _ {ℓ} {S : Type ℓ} where
  abbrev pub modify : (S → S) → Exec S Unit
  modify f s = (ok tt, f s)

module _ {ℓ} {S A B : Type ℓ} where
  abbrev pub continue : Result A → (A → Exec S B) → Exec S B
  continue (ok a) f s = f a s
  continue (err e) f s = (err e, s)

  infixl 10 ◌>>=◌ ◌>>◌
  abbrev pub ◌>>=◌ : Exec S A → (A → Exec S B) → Exec S B
  ◌>>=◌ m f s = let (r, s') = m s in continue r f s'

  abbrev pub ◌>>◌ : Exec S A → Exec S B → Exec S B
  m >> n = m >>= λ _. n

module _ {ℓ} {S A : Type ℓ} where
  abbrev pub handle_result : Result A → (Exc → Exec S A) → Exec S A
  handle_result (ok a) h s = (ok a, s)
  handle_result (err e) h s = h e s

  -- `try: m except: h`, where `h` raises again what it does not handle
  abbrev pub catching : Exec S A → (Exc → Exec S A) → Exec S A
  catching m h s = let (r, s') = m s in handle_result r h s'
