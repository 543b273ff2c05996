-- ===== src/Prelude/Equality.antt =====
-- Types whose values the program compares with `==`, as an interface.
use Prim.Native.String.{String}
use mathlib.Core.Path.{◌≡◌, refl}
use mathlib.Core.Logic.{◌↔◌, ◌≢◌}
use mathlib.Core.Bool.{Bool, true, false}
use native.Mathlib.Omega.{arith}
use text.Mathlib.Text.{◌==◌ as str_eq}
use text.Mathlib.TextEquality.{eq_iff}
use Prim.Native.Nat.{ℕ}
use nanit_onvif.Prelude.Tests.{eqb, eqb_iff}
use nanit_onvif.Prelude.Int.{ℤ, eqb_ℤ}

abbrev pub eqb_Bool : Bool → Bool → Bool
eqb_Bool true true = true
eqb_Bool false false = true
eqb_Bool _ _ = false

pub eqb_Bool_iff : (a b : Bool) → (eqb_Bool a b ≡ true) ↔ (a ≡ b)
eqb_Bool_iff a b = ground arith

pub eqb_ℤ_iff : (a b : ℤ) → (eqb_ℤ a b ≡ true) ↔ (a ≡ b)
eqb_ℤ_iff a b = ground arith

pub record Eq {ℓ} (T : Type ℓ) : Type ℓ where
  pub beq : T → T → Bool
  pub beq_iff : (x y : T) → (beq x y ≡ true) ↔ (x ≡ y)

instance abbrev pub ℕ_eq : Eq ℕ
ℕ_eq = record { beq_iff = eqb_iff; beq = eqb }

instance abbrev pub ℤ_eq : Eq ℤ
ℤ_eq = record { beq_iff = eqb_ℤ_iff; beq = eqb_ℤ }

instance abbrev pub Bool_eq : Eq Bool
Bool_eq = record { beq_iff = eqb_Bool_iff; beq = eqb_Bool }

instance abbrev pub String_eq : Eq String
String_eq = record { beq_iff = eq_iff; beq = str_eq }

module _ {ℓ} {A : Type ℓ} ⦃e : Eq A⦄ where
  pub beq_refl : (a : A) → e.beq a a ≡ true
  beq_refl a = (e.beq_iff a a).1 refl

  pub beq-eq-false : (a b : A) → a ≢ b → e.beq a b ≡ false
  beq-eq-false a b h = ground (arith, e.beq_iff a b)

infix 50 ◌==◌
abbrev pub ◌==◌ {ℓ} : {A : Type ℓ} ⦃e : Eq A⦄ → A → A → Bool
◌==◌ ⦃e⦄ = e.beq
