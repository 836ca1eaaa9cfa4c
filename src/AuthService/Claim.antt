-- ===== src/AuthService/Claim.antt =====
-- internal/authservice/checkout.go: the return from Stripe, the claim of the credential, the billing
-- portal and the state of the subscription.
pub mod Once
use secure_gateway.Common.{
  ℕ, String, str_eq, Bool, true, false, ◌&&◌, ◌||◌, not, Option, none, some, List, [], ◌∷◌, ltb,
  if◌then◌else◌, string_key,
}
use secure_gateway.Common.Table.{get}
use secure_gateway.AuthStore.{
  StoreError, not_found, conflict, capacity_exceeded, is_claim_consumed, is_claim_pending, Account,
  License, Subscription, CheckoutClaim,
}
use secure_gateway.AuthStore.State.{Store, Outcome, ok, fail}
use secure_gateway.AuthStore.Accounts.{upsert_account}
use secure_gateway.AuthStore.Licenses.{list_licenses_by_account}
use secure_gateway.AuthStore.Checkout.{
  get_checkout_claim, get_checkout_claim_by_code, set_checkout_claim_code, consume_checkout_claim,
}
use secure_gateway.License.{Behavior, evaluate}
use secure_gateway.AuthService.{
  Env, World, Flow, done, going, ◌>>=◌, ◌>>◌, need, require, new_id, new_secret_for, draw,
  with_store,
}
use secure_gateway.AuthService.Credentials.{authenticate_account}
use secure_gateway.AuthService.Pair.{stored}
use secure_gateway.AuthService.Checkout.{Shop, append_query, answered}

abbrev pub value_of {ℓ} : {A : Type ℓ} → Outcome A → Option A
value_of (ok a) = some a
value_of (fail e) = none

-- What the browser is shown.
pub data Page : Type 0 where
  success_page pending_page : Page
  redirect_to : String → Page

abbrev other_session : CheckoutClaim → String → Bool
other_session c session_id =
    not (str_eq session_id "")
    && not (str_eq c.stripe_session_id "")
    && not (str_eq session_id c.stripe_session_id)

-- A ready claim gets a new code.
abbrev finalize : Env → Shop → String → CheckoutClaim → World → Flow (World × Page)
finalize env shop nonce c w = do
  let code = new_id env "clm" w
  s ←
      need (draw w) (value_of (set_checkout_claim_code nonce (env.hash code) w.store)) 500
        "could not finalize checkout"
  going (draw (with_store w s), redirect_to (append_query shop c.redirect_uri "claim_code" code))

unfoldable pub handle_checkout_return :
    Env → Shop → ℕ → String → String → World → Flow (World × Page)
handle_checkout_return env shop now nonce session_id w = do
  c ← need w (value_of (get_checkout_claim nonce w.store)) 404 "unknown or expired checkout"
  require w (not (other_session c session_id)) 400 "session mismatch"
  if is_claim_consumed c.status
      then going (w, success_page)
      else if ltb c.expires_at now
      then done w 410 "checkout expired"
      else if is_claim_pending c.status
      then going (w, pending_page)
      else finalize env shop nonce c w

pub record ClaimReq : Type 0 where
  pub claim_code : String
  pub nonce : String

pub record ClaimResp : Type 0 where
  pub account_id : String
  pub account_secret : String
  pub license_id : String
  pub subscription_id : String

-- The claim is not ready yet (202), or its credential.
pub data ClaimAnswer : Type 0 where
  pending : ClaimAnswer
  claimed : ClaimResp → ClaimAnswer

-- The code is looked up first, and the nonce only if there is no code.
unfoldable pub claim_of : Env → ClaimReq → Store → Outcome CheckoutClaim
claim_of env req s =
    if str_eq req.claim_code ""
    then get_checkout_claim req.nonce s
    else get_checkout_claim_by_code (env.hash req.claim_code) s

abbrev pub consumed_or {ℓ} : {A : Type ℓ} → World → Outcome A → Flow A
consumed_or w (ok a) = going a
consumed_or w (fail conflict) = done w 409 "claim_consumed"
consumed_or w (fail not_found) = done w 500 "store_error"
consumed_or w (fail capacity_exceeded) = done w 500 "store_error"

-- The secret is made now and its hash kept; the merge keeps the account's customer.
unfoldable pub redeem : Env → ℕ → String → World → Flow (World × ClaimAnswer)
redeem env now nonce w = do
  (s, c) ← consumed_or w (consume_checkout_claim nonce now w.store)
  let secret = new_secret_for env c.account_id w
  let a : Account = record {
    id = c.account_id;
    stripe_customer_id = "";
    secret_hash = env.hash secret;
    created_at = 0;
  }
  going (
    draw (with_store w (upsert_account a s)),
    claimed (record {
      account_id = c.account_id;
      account_secret = secret;
      license_id = c.license_id;
      subscription_id = c.subscription_id;
    }),
  )

unfoldable pub handle_claim_account : Env → ℕ → Option ClaimReq → World → Flow (World × ClaimAnswer)
handle_claim_account env now body w = do
  req ← need w body 400 "bad_request"
  require w (not (str_eq req.claim_code "" && str_eq req.nonce "")) 400 "bad_request"
  c ← need w (value_of (claim_of env req w.store)) 404 "claim_not_found"
  require w (not (is_claim_consumed c.status)) 409 "claim_consumed"
  require w (not (ltb c.expires_at now)) 410 "claim_expired"
  if is_claim_pending c.status then going (w, pending) else redeem env now c.nonce w

-- The customer of an account that has one.
abbrev customer_of : Option Account → Option String
customer_of none = none
customer_of (some a) = if str_eq a.stripe_customer_id "" then none else some a.stripe_customer_id

unfoldable pub handle_billing_portal : Env → Shop → String → World → Flow String
handle_billing_portal env shop secret w = do
  account ← need w (authenticate_account env secret w.store) 401 "unauthorized"
  customer ← need w (customer_of (get account w.store.accounts)) 409 "no_customer"
  answered w "portal_unavailable" (shop.create_portal customer (shop.trim_slashes env.auth_url))

-- The behavior stands for its text, and the end of the period is an instant.
pub record SubscriptionResp : Type 0 where
  pub status : Behavior
  pub subscription_id : String
  pub current_period_end : ℕ
  pub max_pairs : ℕ
  pub license_id : String

abbrev first_subscribed : ℕ → List License → Store → Option SubscriptionResp
first_subscribed now [] s = none
first_subscribed now (lic ∷ rest) s = elim (get lic.subscription_id s.subscriptions) [
  | none ↦ first_subscribed now rest s
  | some sub ↦ some (record {
    status = evaluate sub now;
    subscription_id = sub.id;
    current_period_end = sub.current_period_end;
    max_pairs = sub.max_pairs;
    license_id = lic.id;
  })
]

unfoldable pub handle_get_subscription : Env → ℕ → String → World → Flow SubscriptionResp
handle_get_subscription env now secret w = do
  account ← need w (authenticate_account env secret w.store) 401 "unauthorized"
  need w (first_subscribed now (list_licenses_by_account account w.store) w.store) 404
      "no_subscription"
