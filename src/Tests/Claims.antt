-- ===== src/Tests/Claims.antt =====
-- A checkout with billing disabled, from its start to the claim of its credential.
use Prim.Native.String.{◌++◌ as cat}
use secure_gateway.Common.{
  ℕ, ◌≡◌, ◌≢◌, refl, String, str_eq, true, false, Option, none, some, [], ◌∷◌, arith, eq_iff, ap,
  if◌then◌else◌, string_key,
}
use secure_gateway.Common.Table.{get}
use secure_gateway.AuthStore.{CheckoutClaim}
use secure_gateway.AuthStore.State.{Store, ok}
use secure_gateway.AuthStore.Checkout.{mark_checkout_claim_ready}
use secure_gateway.AuthService.{Env, World, Flow, done, going, with_store}
use secure_gateway.AuthService.Checkout.{
  Shop, Url, StartReq, StartResp, session, handle_start_checkout,
}
use secure_gateway.AuthService.Claim.{
  ClaimReq, ClaimResp, ClaimAnswer, pending, claimed, claim_of, handle_claim_account,
  handle_checkout_return, redirect_to,
}
use secure_gateway.AuthService.Claim.Once.{now_on, marked, Redeemable, claim_once}
use secure_gateway.Tests.Auth.{test_env, world_1, outcome}

abbrev open_env : Env
open_env = record test_env { billing_enabled = false }

abbrev shop : Shop
shop = record {
  price_id = "price";
  claim_ttl = 1000;
  parse_url =
      λ s. some (record { scheme = "http"; has_user = false; host = s; hostname = "localhost" });
  with_query = λ u key value. cat u.host (cat "?" (cat key (cat "=" value)));
  query_escape = λ s. s;
  trim_slashes = λ s. s;
  is_loopback_ip = λ s. false;
  create_session = λ p. session ("https://stripe", "cs");
  create_portal = λ customer back. session "https://portal";
}

abbrev nonce : String
nonce = "abcdefghijklmnopqrstuv"

abbrev start_req : StartReq
start_req = record { nonce = nonce; redirect_uri = "http://localhost" }

abbrev no_start : World × StartResp
no_start = (world_1, record { checkout_url = ""; expires_in = 0 })

abbrev started : World × StartResp
started = outcome (handle_start_checkout open_env shop 100 (some start_req) world_1) no_start

abbrev by_code : ClaimReq
by_code = record { claim_code = "clm_r3"; nonce = "" }

abbrev no_claim : ClaimResp
no_claim = record { account_id = ""; account_secret = ""; license_id = ""; subscription_id = "" }

abbrev response : ClaimAnswer → ClaimResp
response pending = no_claim
response (claimed r) = r

abbrev redeemed_1 : World × ClaimAnswer
redeemed_1 = outcome (handle_claim_account open_env 150 (some by_code) started.0) (world_1, pending)

-- The start gives a URL with the code; a short nonce is refused; the code is redeemed.
runs :
    (started.1.checkout_url ≡ "http://localhost?claim_code=clm_r3")
    × (handle_start_checkout open_env shop 100 (some (record start_req { nonce = "abc" })) world_1
        ≡ done world_1 400 "bad_nonce")
    × (handle_claim_account open_env 150 (some by_code) started.0
        ≡ going (redeemed_1.0, claimed (response redeemed_1.1)))
    × ((c : CheckoutClaim) → claim_of open_env by_code started.0.store ≡ ok c → c.nonce ≢ "")
unfolding handle_start_checkout handle_claim_account claim_of get mark_checkout_claim_ready
    secure_gateway.AuthService.Checkout.start_checkout_open
    secure_gateway.AuthService.Checkout.start_checkout_paid
    secure_gateway.AuthService.Checkout.bad_nonce
    secure_gateway.AuthService.Checkout.validate_loopback_redirect secure_gateway.AuthService.new_id
    secure_gateway.AuthService.new_secret_for
    secure_gateway.AuthService.Provision.provision_open_license
    secure_gateway.AuthStore.Accounts.upsert_account
    secure_gateway.AuthStore.Licenses.list_licenses_by_account
    secure_gateway.AuthStore.Licenses.upsert_subscription
    secure_gateway.AuthStore.Licenses.create_license secure_gateway.AuthStore.State.sort_by
    secure_gateway.AuthStore.State.insert_by secure_gateway.Common.Lists.select
    secure_gateway.Common.Lists.find_first secure_gateway.Common.Table.put
    secure_gateway.AuthStore.Checkout.create_checkout_claim
    secure_gateway.AuthStore.Checkout.set_checkout_claim_code
    secure_gateway.AuthStore.Checkout.get_checkout_claim_by_code
    secure_gateway.AuthStore.Checkout.consume_checkout_claim secure_gateway.AuthService.Claim.redeem
runs = (refl, refl, refl, λ c h. ground (arith, eq_iff nonce ""))

-- A late webhook tries to make the claim ready again.
abbrev after_webhook : World
after_webhook =
    with_store redeemed_1.0
      (mark_checkout_claim_ready nonce "acct" "lic" "sub" "cs" redeemed_1.0.store)

claim_once_example :
    (t : Redeemable open_env 150 by_code started.0.store) × (handle_claim_account open_env 160
        (some (record { claim_code = ""; nonce = t.claim.nonce }))
        after_webhook
      ≡ done after_webhook 409 "claim_consumed")
claim_once_example =
    claim_once open_env 150 160 by_code started.0 redeemed_1.0 after_webhook (response redeemed_1.1)
      runs.3 runs.2 (marked nonce "acct" "lic" "sub" "cs" redeemed_1.0.store now_on)
