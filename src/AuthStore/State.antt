-- ===== src/AuthStore/State.antt =====
-- internal/authstore/memory/memory.go: the in-memory store. A method takes the store and returns the
-- new one with its result; each runs under the store's mutex, so a method is one step. The order in
-- which Go visits a map is not specified: here it is the order of the table. Slices are values, so
-- `cloneBytes` has no counterpart.
use Prim.Native.String.{compare}
use text.Mathlib.Text.{is_lt}
use secure_gateway.Common.{
  String, Bool, true, false, Option, none, some, List, [], ◌∷◌, if◌then◌else◌, string_key,
}
use secure_gateway.Common.Table.{Table}
use secure_gateway.AuthStore.{
  StoreError, not_found, Account, Subscription, License, Device, Pairing, RefreshToken,
  PairingToken, PairCredential, CheckoutClaim, WebhookEvent,
}

pub record Store : Type 0 where
  pub accounts : Table String Account
  pub customer_to_acct : Table String String
  pub subscriptions : Table String Subscription
  pub licenses : Table String License
  pub devices : Table String Device
  pub pairings : Table String Pairing
  pub refresh_tokens : Table String RefreshToken
  pub pairing_tokens : Table String PairingToken
  pub pair_credentials : Table String PairCredential
  pub checkout_claims : Table String CheckoutClaim
  pub webhook_events : Table String WebhookEvent

abbrev pub new_store : Store
new_store = record {
  accounts = [];
  customer_to_acct = [];
  subscriptions = [];
  licenses = [];
  devices = [];
  pairings = [];
  refresh_tokens = [];
  pairing_tokens = [];
  pair_credentials = [];
  checkout_claims = [];
  webhook_events = [];
}

-- The outcome of a method that may fail. A failed method leaves the store as it was.
pub data Outcome {ℓ} (A : Type ℓ) : Type ℓ where
  ok : A → Outcome A
  fail : StoreError → Outcome A

abbrev pub found {ℓ} : {A : Type ℓ} → Option A → Outcome A
found none = fail not_found
found (some a) = ok a

abbrev pub has_key {ℓ} : {A : Type ℓ} → Option A → Bool
has_key none = false
has_key (some a) = true

-- sort.Slice by id: the text of each element orders it.
unfoldable pub insert_by {ℓ} : {A : Type ℓ} → (A → String) → A → List A → List A
insert_by key x [] = x ∷ []
insert_by key x (y ∷ ys) =
    if is_lt (compare (key y) (key x)) then y ∷ insert_by key x ys else x ∷ y ∷ ys

unfoldable pub sort_by {ℓ} : {A : Type ℓ} → (A → String) → List A → List A
unfolding insert_by
sort_by key [] = []
sort_by key (x ∷ xs) = insert_by key x (sort_by key xs)
