-- ===== src/AuthService/Ends.antt =====
-- Reasoning about every way in which a handler can end.
use secure_gateway.Common.{ap, ℕ, ◌≡◌, refl, String, Bool, true, false, Option, none, some}
use secure_gateway.AuthService.{World, Flow, done, going, ◌>>=◌, ◌>>◌, need, require}

-- The world that an early end leaves behind meets P, and the value of a flow that goes on meets Q.
abbrev pub Leaves {ℓ κ} : {A : Type ℓ} → (World → Type κ) → (A → Type κ) → Flow A → Type κ
Leaves P Q (done w status code) = P w
Leaves P Q (going a) = Q a

-- The same, as a type of its own, so that a rule's flow can be read off its goal.
pub record Ends {ℓ κ} {A : Type ℓ} (P : World → Type κ) (Q : A → Type κ) (m : Flow A) : Type κ where
  pub leaves : Leaves P Q m

module _ {ℓ κ λ'} {A : Type ℓ} {B : Type λ'} (P : World → Type κ) (Q : B → Type κ) where
  pub Ends-bind :
      (R : A → Type κ) (m : Flow A) (f : A → Flow B)
      → Leaves P R m
      → ((a : A) → m ≡ going a → R a → Ends P Q (f a))
      → Ends P Q (m >>= f)
  Ends-bind R (done w status code) f h k = record { leaves = h }
  Ends-bind R (going a) f h k = k a refl h

  pub Ends-need :
      (w : World) (o : Option A) (status : ℕ) (code : String) (f : A → Flow B)
      → P w
      → ((a : A) → o ≡ some a → Ends P Q (f a))
      → Ends P Q (need w o status code >>= f)
  Ends-need w none status code f h k = record { leaves = h }
  Ends-need w (some a) status code f h k = k a refl

module _ {κ λ'} {B : Type λ'} (P : World → Type κ) (Q : B → Type κ) where
  pub Ends-require :
      (w : World) (t : Bool) (status : ℕ) (code : String) (m : Flow B)
      → P w
      → (t ≡ true → Ends P Q m)
      → Ends P Q (require w t status code >> m)
  Ends-require w true status code m h k = k refl
  Ends-require w false status code m h k = record { leaves = h }

  pub Leaves-need :
      (w : World) (o : Option B) (status : ℕ) (code : String)
      → P w
      → ((a : B) → o ≡ some a → Q a)
      → Leaves P Q (need w o status code)
  Leaves-need w none status code h k = h
  Leaves-need w (some a) status code h k = k a refl

-- Inversion of a handler that goes on.
pub need-going {ℓ κ} :
    {A : Type ℓ} {B : Type κ} (w : World) (o : Option A) (status : ℕ) (code : String)
    (f : A → Flow B) {b : B}
    → (need w o status code >>= f) ≡ going b
    → (a : A) × (o ≡ some a) × (f a ≡ going b)
need-going w none status code f h = cc
need-going w (some a) status code f h = (a, refl, h)

pub require-going {κ} :
    {B : Type κ} (w : World) (t : Bool) (status : ℕ) (code : String) (k : Flow B) {b : B}
    → (require w t status code >> k) ≡ going b
    → (t ≡ true) × (k ≡ going b)
require-going w true status code k h = (refl, h)
require-going w false status code k h = cc

pub going-injective {ℓ} : {A : Type ℓ} {a b : A} → going a ≡ going b → a ≡ b
going-injective {a} = ap (λ f. elim f [ going x ↦ x | done w status code ↦ a ])

pub flow-going {ℓ κ} :
    {A : Type ℓ} {B : Type κ} (m : Flow A) (f : A → Flow B) {b : B}
    → (m >>= f) ≡ going b
    → (a : A) × (m ≡ going a) × (f a ≡ going b)
flow-going (going a) f h = (a, refl, h)
flow-going (done w status code) f h = cc
