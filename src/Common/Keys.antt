-- ===== src/Common/Keys.antt =====
-- Keys that a table compares: a Boolean test that decides equality.
use Prim.Native.String.{String}
use text.Mathlib.Text.{◌==◌ as str_eq}
use text.Mathlib.TextEquality.{eq_iff}
use mathlib.Core.Path.{◌≡◌, refl}
use mathlib.Core.Logic.{◌↔◌, ◌≢◌}
use mathlib.Core.Bool.{Bool, true, false}
use native.Mathlib.Omega.{arith}
use Prim.Native.Nat.{ℕ}
use secure_gateway.Common.Tests.{nat_eq, nat_eq_iff}

pub record Key {ℓ} (K : Type ℓ) : Type ℓ where
  pub same : K → K → Bool
  pub same_iff : (a b : K) → (same a b ≡ true) ↔ (a ≡ b)

instance abbrev pub string_key : Key String
string_key = record { same = str_eq; same_iff = eq_iff }

instance abbrev pub nat_key : Key ℕ
nat_key = record { same = nat_eq; same_iff = nat_eq_iff }

module _ {ℓ} {K : Type ℓ} ⦃e : Key K⦄ where
  abbrev pub same : K → K → Bool
  same = e.same

  pub same_refl : (a : K) → same a a ≡ true
  same_refl a = (e.same_iff a a).1 refl

  pub eq_of_same : (a b : K) → same a b ≡ true → a ≡ b
  eq_of_same a b = (e.same_iff a b).0

  pub same_of_ne : (a b : K) → a ≢ b → same a b ≡ false
  same_of_ne a b h = ground (arith, e.same_iff a b)

pub str_eq_refl : (s : String) → str_eq s s ≡ true
str_eq_refl s = (eq_iff s s).1 refl
