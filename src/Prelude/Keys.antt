-- ===== src/Prelude/Keys.antt =====
-- Python's `==` on the types that serve as keys, as an interface with its law.
use Prim.Native.Nat.{ℕ}
use Prim.Native.String.{String}
use mathlib.Core.Path.{◌≡◌, refl}
use mathlib.Core.Logic.{◌↔◌}
use mathlib.Core.Bool.{Bool, true, false, ◌&&◌}
use mathlib.Core.Option.{Option, none, some}
use native.Mathlib.Omega.{arith}
use text.Mathlib.Text.{◌==◌ as str_eq}
use text.Mathlib.TextEquality.{eq_iff}
use sovrin.Prelude.Tests.{nat_eq, nat_eq_iff}

pub record Eq {ℓ} (K : Type ℓ) : Type ℓ where
  pub beq : (left right : K) → Bool
  pub beq_iff : (left right : K) → (beq left right ≡ true) ↔ (left ≡ right)

abbrev pub ◌==◌ {ℓ} : {K : Type ℓ} ⦃keys : Eq K⦄ → (left right : K) → Bool
◌==◌ ⦃keys⦄ = keys.beq

infix 50 ◌==◌
instance abbrev pub ℕ-Eq : Eq ℕ
ℕ-Eq = record { beq = nat_eq; beq_iff = nat_eq_iff }

instance abbrev pub String-Eq : Eq String
String-Eq = record { beq = str_eq; beq_iff = eq_iff }

module _ {ℓ} {A : Type ℓ} ⦃e : Eq A⦄ where
  abbrev option_beq : Option A → Option A → Bool
  option_beq none none = true
  option_beq (some a) (some b) = e.beq a b
  option_beq _ _ = false

  pub option_beq_iff : (x y : Option A) → (option_beq x y ≡ true) ↔ (x ≡ y)
  option_beq_iff none none = ground arith
  option_beq_iff none (some b) = ground arith
  option_beq_iff (some a) none = ground arith
  option_beq_iff (some a) (some b) = ground (arith, e.beq_iff a b)

  instance abbrev pub Option-Eq : Eq (Option A)
  Option-Eq = record { beq = option_beq; beq_iff = option_beq_iff }

module _ {ℓ κ} {A : Type ℓ} {B : Type κ} ⦃e : Eq A⦄ ⦃f : Eq B⦄ where
  abbrev pair_beq : A × B → A × B → Bool
  pair_beq (a, b) (c, d) = e.beq a c && f.beq b d

  pub pair_beq_iff : (x y : A × B) → (pair_beq x y ≡ true) ↔ (x ≡ y)
  pair_beq_iff (a, b) (c, d) = ground (arith, e.beq_iff a c, f.beq_iff b d)

  instance abbrev pub Pair-Eq : Eq (A × B)
  Pair-Eq = record { beq = pair_beq; beq_iff = pair_beq_iff }

pub beq_refl {ℓ} : {A : Type ℓ} ⦃e : Eq A⦄ (a : A) → e.beq a a ≡ true
beq_refl ⦃e⦄ a = (e.beq_iff a a).1 refl
