-- ===== src/AuthService/Checkout.antt =====
-- internal/authservice/checkout.go: a desktop without an account buys one, and claims it once.

use Prim.Native.String.{len, ◌++◌ as cat}
use text.Mathlib.Text.{find?}
use secure_gateway.Common.{
  ℕ, ◌+◌, ◌/◌, String, str_eq, Bool, false, ◌&&◌, ◌||◌, not, Option, none, some, List, [], ◌∷◌, ltb,
  if◌then◌else◌, string_key,
}
use secure_gateway.Common.Table.{Table}
use secure_gateway.AuthStore.{
  not_found, conflict, capacity_exceeded, claim_pending, Account, CheckoutClaim,
}
use secure_gateway.AuthStore.State.{Store, Outcome, ok, fail, has_key}
use secure_gateway.AuthStore.Accounts.{upsert_account}
use secure_gateway.AuthStore.Checkout.{
  create_checkout_claim, mark_checkout_claim_ready, set_checkout_claim_code,
}
use secure_gateway.AuthService.{
  Env, World, Flow, done, going, ◌>>=◌, ◌>>◌, need, require, new_id, draw, with_store,
}
use secure_gateway.AuthService.Pair.{stored}
use secure_gateway.AuthService.Provision.{provision_open_license}

-- What url.Parse gives of an address.
pub record Url : Type 0 where
  pub scheme : String
  pub has_user : Bool
  pub host : String
  pub hostname : String

-- What Stripe answers to a request for a session; `not_configured` is ErrStripeNotConfigured.
pub data StripeAnswer {ℓ} (A : Type ℓ) : Type ℓ where
  not_configured stripe_error : StripeAnswer A
  session : A → StripeAnswer A

pub record SessionParams : Type 0 where
  pub price_id : String
  pub success_url : String
  pub cancel_url : String
  pub metadata : Table String String

-- The configuration of the checkout, and what it calls that is not its own: url.Parse (`none` is an
-- error), the address with one query parameter set, url.QueryEscape, strings.TrimRight of slashes,
-- net.ParseIP with IsLoopback, and Stripe.
pub record Shop : Type 0 where
  pub price_id : String
  pub claim_ttl : ℕ
  pub parse_url : String → Option Url
  pub with_query : Url → String → String → String
  pub query_escape : String → String
  pub trim_slashes : String → String
  pub is_loopback_ip : String → Bool
  pub create_session : SessionParams → StripeAnswer (String × String)
  pub create_portal : String → String → StripeAnswer String

abbrev pub min_nonce_len : ℕ
min_nonce_len = 22

abbrev is_loopback_url : Shop → Option Url → Bool
is_loopback_url shop none = false
is_loopback_url shop (some u) =
    str_eq u.scheme "http"
    && not u.has_user
    && not (str_eq u.host "")
    && (str_eq u.hostname "localhost" || shop.is_loopback_ip u.hostname)

unfoldable pub validate_loopback_redirect : Shop → String → Bool
validate_loopback_redirect shop raw = is_loopback_url shop (shop.parse_url raw)

abbrev append_to : Shop → String → String → String → Option Url → String
append_to shop raw key value none = raw
append_to shop raw key value (some u) = shop.with_query u key value

abbrev pub append_query : Shop → String → String → String → String
append_query shop raw key value = append_to shop raw key value (shop.parse_url raw)

-- strings.ContainsAny.
abbrev contains_any : String → List String → Bool
contains_any s [] = false
contains_any s (c ∷ cs) = has_key (find? s c) || contains_any s cs

-- `len` counts the bytes of the text in UTF-8, as the source does.
unfoldable pub bad_nonce : String → Bool
bad_nonce nonce =
    ltb (len nonce) min_nonce_len
    || contains_any nonce (" " ∷ "\t" ∷ "\r" ∷ "\n" ∷ "/" ∷ "?" ∷ "#" ∷ [])

-- The label of the request is not read.
pub record StartReq : Type 0 where
  pub nonce : String
  pub redirect_uri : String

pub record StartResp : Type 0 where
  pub checkout_url : String
  pub expires_in : ℕ

abbrev created : World → Outcome Store → Flow World
created w (ok s) = going (with_store w s)
created w (fail conflict) = done w 409 "nonce_in_use"
created w (fail not_found) = done w 500 "store_error"
created w (fail capacity_exceeded) = done w 500 "store_error"

abbrev pending_claim : Shop → ℕ → StartReq → String → CheckoutClaim
pending_claim shop now req session_id = record {
  nonce = req.nonce;
  stripe_session_id = session_id;
  redirect_uri = req.redirect_uri;
  claim_code_hash = "";
  account_id = "";
  license_id = "";
  subscription_id = "";
  status = claim_pending;
  created_at = now;
  expires_at = now + shop.claim_ttl;
  consumed_at = 0;
}

abbrev start_resp : Shop → String → StartResp
start_resp shop url = record { checkout_url = url; expires_in = shop.claim_ttl / 1000000000 }

-- With billing disabled: an account with an open license, and a claim that is ready at once.
unfoldable pub start_checkout_open :
    Env → Shop → ℕ → Option StartReq → World → Flow (World × StartResp)
start_checkout_open env shop now body w = do
  req ← need w body 400 "bad_request"
  require w (not (bad_nonce req.nonce)) 400 "bad_nonce"
  require w (validate_loopback_redirect shop req.redirect_uri) 400 "bad_redirect"
  let account = new_id env "acct" w
  let a : Account = record {
    id = account;
    stripe_customer_id = "";
    secret_hash = "";
    created_at = now;
  }
  (w1, lic) ←
      provision_open_license env now account (draw (with_store w (upsert_account a w.store)))
  w2 ← created w1 (create_checkout_claim (pending_claim shop now req "") w1.store)
  let w3 =
      with_store w2
        (mark_checkout_claim_ready req.nonce account lic.id lic.subscription_id "" w2.store)
  let code = new_id env "clm" w3
  s ← stored (draw w3) (set_checkout_claim_code req.nonce (env.hash code) w3.store)
  going (
    draw (with_store w3 s),
    start_resp shop (append_query shop req.redirect_uri "claim_code" code),
  )

abbrev pub answered {ℓ} : {A : Type ℓ} → World → String → StripeAnswer A → Flow A
answered w unavailable not_configured = done w 503 unavailable
answered w unavailable stripe_error = done w 502 "stripe_error"
answered w unavailable (session a) = going a

-- The braces of the session's placeholder stay literal.
abbrev success_url : Env → Shop → String → String
success_url env shop nonce = cat (shop.trim_slashes env.auth_url) (
    cat "/v1/checkout/return?nonce="
      (cat (shop.query_escape nonce) "&session_id={CHECKOUT_SESSION_ID}"))

unfoldable pub start_checkout_paid :
    Env → Shop → ℕ → Option StartReq → World → Flow (World × StartResp)
start_checkout_paid env shop now body w = do
  require w (not (str_eq shop.price_id "")) 503 "checkout_unavailable"
  req ← need w body 400 "bad_request"
  require w (not (bad_nonce req.nonce)) 400 "bad_nonce"
  require w (validate_loopback_redirect shop req.redirect_uri) 400 "bad_redirect"
  (url, id) ← answered w "checkout_unavailable" (
      shop.create_session (record {
        price_id = shop.price_id;
        success_url = success_url env shop req.nonce;
        cancel_url = append_query shop req.redirect_uri "status" "canceled";
        metadata = ("nonce", req.nonce) ∷ [];
      }))
  w1 ← created w (create_checkout_claim (pending_claim shop now req id) w.store)
  going (w1, start_resp shop url)

unfoldable pub handle_start_checkout :
    Env → Shop → ℕ → Option StartReq → World → Flow (World × StartResp)
handle_start_checkout env shop now body w =
    if env.billing_enabled
    then start_checkout_paid env shop now body w
    else start_checkout_open env shop now body w
