-- ===== src/Billing/Run.antt =====
-- internal/billing/stripe.go: the processor, and calls that return an error.
use Prim.Native.String.{◌++◌ as cat}
use secure_gateway.Common.{ℕ, suc, String, Option, none, some, List}
use secure_gateway.AuthStore.{StoreError}
use secure_gateway.AuthStore.State.{Store, Outcome, ok, fail}
use secure_gateway.Backplane.{Backplane, RevocationEvent, publish_revocation}
use secure_gateway.Billing.Objects.{StripeSubscription, Parsers}

-- The processor: its grace period, the random texts of authstore.NewID and license.NewKey by the
-- number of their draw, the parsers, and the answers of the Stripe API (`none` is an error).
pub record Processor : Type 0 where
  pub grace : ℕ
  pub rand : ℕ → String
  pub new_key : ℕ → String
  pub parse : Parsers
  pub get_subscription : String → Option StripeSubscription
  pub list_subscriptions : Option (List StripeSubscription)

pub record World : Type 0 where
  pub store : Store
  pub bp : Backplane
  pub drawn : ℕ

pub data Error : Type 0 where
  parse_checkout_session parse_subscription parse_invoice no_customer no_subscription : Error
  fetch_subscription invoice_without_subscription unknown_subscription list_failed : Error
  store_error : StoreError → Error

-- A call ends with an error, in the world it leaves behind, or gives its value.
pub data Run {ℓ} (A : Type ℓ) : Type ℓ where
  failed : World → Error → Run A
  going : A → Run A

infixl 5 ◌>>=◌
abbrev pub ◌>>=◌ {ℓ κ} : {A : Type ℓ} {B : Type κ} → Run A → (A → Run B) → Run B
failed w e >>= f = failed w e
going a >>= f = f a

-- `if err != nil { return err }` on a value, and on a method of the store.
abbrev pub need {ℓ} : {A : Type ℓ} → World → Option A → Error → Run A
need w none e = failed w e
need w (some a) e = going a

abbrev pub with_store : World → Store → World
with_store w s = record w { store = s }

abbrev pub stored : World → Outcome Store → Run World
stored w (ok s) = going (with_store w s)
stored w (fail e) = failed w (store_error e)

abbrev pub draw : World → World
draw w = record w { drawn = suc w.drawn }

abbrev pub new_id : Processor → String → World → String
new_id p prefix w = cat prefix (cat "_" (p.rand w.drawn))

abbrev pub publish : RevocationEvent → World → World
publish ev w = record w { bp = publish_revocation ev w.bp }
