-- ===== src/Billing/Leaves.antt =====
-- Reasoning about every way in which a call of the processor can end.
use secure_gateway.Common.{◌≡◌, refl, subst, ap, Option, none, some}
use secure_gateway.AuthStore.State.{Store, Outcome, ok, fail}
use secure_gateway.Billing.Run.{World, Run, failed, going, ◌>>=◌, need, Error, with_store, stored}

abbrev pub Ends {ℓ κ} : {A : Type ℓ} → (World → Type κ) → (A → Type κ) → Run A → Type κ
Ends P Q (failed w e) = P w
Ends P Q (going a) = Q a

-- The world that an error leaves behind meets P, and the value of a call that goes on meets Q; a
-- record, so that the call can be read off a goal.
pub record Leaves {ℓ κ} {A : Type ℓ} (P : World → Type κ) (Q : A → Type κ) (m : Run A)
    : Type κ where
  pub ends : Ends P Q m

module _ {ℓ κ λ'} {A : Type ℓ} {B : Type λ'} (P : World → Type κ) (R : A → Type κ)
    (Q : B → Type κ) where
  pub Leaves-bind :
      (m : Run A) (f : A → Run B)
      → Leaves P R m
      → ((a : A) → m ≡ going a → R a → Leaves P Q (f a))
      → Leaves P Q (m >>= f)
  Leaves-bind (failed w e) f h k = record { ends = h.ends }
  Leaves-bind (going a) f h k = k a refl h.ends

  pub Leaves-need :
      (w : World) (o : Option A) (e : Error) (f : A → Run B)
      → P w
      → ((a : A) → o ≡ some a → Leaves P Q (f a))
      → Leaves P Q (need w o e >>= f)
  Leaves-need w none e f h k = record { ends = h }
  Leaves-need w (some a) e f h k = k a refl

pub Leaves-stored {κ} :
    (P : World → Type κ) (w : World) (o : Outcome Store)
    → P w
    → ((s : Store) → o ≡ ok s → P (with_store w s))
    → Leaves P P (stored w o)
Leaves-stored P w (ok s) h k = record { ends = k s refl }
Leaves-stored P w (fail e) h k = record { ends = h }

abbrev value {ℓ} : {A : Type ℓ} → A → Run A → A
value b (failed w e) = b
value b (going a) = a

pub Leaves-going {ℓ κ} :
    {A : Type ℓ} (P : World → Type κ) (Q : A → Type κ) (m : Run A) (a : A)
    → Leaves P Q m
    → m ≡ going a
    → Q a
Leaves-going P Q (failed w e) a h k = cc
Leaves-going P Q (going b) a h k = subst Q (ap (value b) k) h.ends

-- Inversion of a call that goes on.
pub bind-going {ℓ κ} :
    {A : Type ℓ} {B : Type κ} (m : Run A) (f : A → Run B) {b : B}
    → (m >>= f) ≡ going b
    → (a : A) × (m ≡ going a) × (f a ≡ going b)
bind-going (failed w e) f h = cc
bind-going (going a) f h = (a, refl, h)

pub need-going {ℓ κ} :
    {A : Type ℓ} {B : Type κ} (w : World) (o : Option A) (e : Error) (f : A → Run B) {b : B}
    → (need w o e >>= f) ≡ going b
    → (a : A) × (o ≡ some a) × (f a ≡ going b)
need-going w none e f h = cc
need-going w (some a) e f h = (a, refl, h)

pub Leaves-map {ℓ κ κ'} :
    {A : Type ℓ} {P : World → Type κ} {Q : A → Type κ} (P' : World → Type κ') (Q' : A → Type κ')
    (m : Run A)
    → ((w : World) → P w → P' w)
    → ((a : A) → Q a → Q' a)
    → Leaves P Q m
    → Leaves P' Q' m
Leaves-map P' Q' (failed w e) p q h = record { ends = p w h.ends }
Leaves-map P' Q' (going a) p q h = record { ends = q a h.ends }
