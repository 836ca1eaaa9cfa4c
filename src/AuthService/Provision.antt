-- ===== src/AuthService/Provision.antt =====
-- internal/authservice/handlers.go: accounts and devices.
use secure_gateway.Common.{
  ℕ, String, str_eq, not, Option, none, some, List, if◌then◌else◌, string_key, find_first,
}
use secure_gateway.Token.{valid_role}
use secure_gateway.AuthStore.{
  Account, License, Subscription, active, license_active, is_license_active,
}
use secure_gateway.AuthStore.State.{Store}
use secure_gateway.AuthStore.Accounts.{upsert_account}
use secure_gateway.AuthStore.Licenses.{
  upsert_subscription, list_licenses_by_account, create_license,
}
use secure_gateway.AuthService.{
  Env, World, Flow, going, ◌>>=◌, ◌>>◌, need, require, new_id, new_secret_for, draw, with_store,
  register_or_find_device,
}
use secure_gateway.AuthService.Credentials.{authorize_admin, authenticate_account}
use secure_gateway.AuthService.Pair.{stored}

-- The first active license of the account, lowest id first.
abbrev pub open_license : String → Store → Option License
open_license account s =
    find_first (λ (l : License). is_license_active l.status) (list_licenses_by_account account s)

abbrev open_subscription : Env → ℕ → String → String → Subscription
open_subscription env now account id = record {
  id = id;
  account_id = account;
  status = active;
  max_pairs = 1;
  current_period_end = env.add_years now 100;
  grace_until = 0;
  updated_at = now;
}

abbrev reuse_or_open : Env → ℕ → String → World → Option License → Flow (World × License)
reuse_or_open env now account w (some l) = going (w, l)
reuse_or_open env now account w none = do
  let sub = open_subscription env now account (new_id env "sub" w)
  let w1 = draw (with_store w (upsert_subscription sub w.store))
  let lic : License = record {
    id = env.new_key w1.drawn;
    account_id = account;
    subscription_id = sub.id;
    subscription_item_id = "";
    status = license_active;
    created_at = now;
  }
  s ← stored (draw w1) (create_license lic w1.store)
  going (draw (with_store w1 s), lic)

-- The account's open license: the one that is there, or a new one with its subscription.
unfoldable pub provision_open_license : Env → ℕ → String → World → Flow (World × License)
provision_open_license env now account w =
    reuse_or_open env now account w (open_license account w.store)

pub record AccountResp : Type 0 where
  pub account_id : String
  pub secret : String
  pub license_id : String

-- With billing disabled the account gets an open license; with billing the id is left out.
abbrev with_license : Env → ℕ → String → String → World → Flow (World × AccountResp)
with_license env now account secret w =
    if env.billing_enabled
    then going (w, record { account_id = account; secret = secret; license_id = "" })
    else (provision_open_license env now account w >>= λ r.
        going (r.0, record { account_id = account; secret = secret; license_id = r.1.id }))

unfoldable pub handle_create_account :
    Env → ℕ → String → Option String → World → Flow (World × AccountResp)
handle_create_account env now bearer body w = do
  require w (authorize_admin env bearer) 403 "forbidden"
  account ← need w body 400 "bad_request"
  require w (not (str_eq account "")) 400 "bad_request"
  let secret = new_secret_for env account w
  let acct : Account = record {
    id = account;
    stripe_customer_id = "";
    secret_hash = env.hash secret;
    created_at = now;
  }
  with_license env now account secret (draw (with_store w (upsert_account acct w.store)))

pub record DeviceReq : Type 0 where
  pub role : String
  pub public_key : String

-- An absent key is an empty text; a key that is not base64 ends the handler.
abbrev key_of : Env → String → Option (Option (List ℕ))
key_of env text = if str_eq text "" then some none else decoded_key (env.decode64 text)
  where
    decoded_key : Option (List ℕ) → Option (Option (List ℕ))
    decoded_key none = none
    decoded_key (some bytes) = some (some bytes)

unfoldable pub handle_register_device :
    Env → ℕ → String → Option DeviceReq → World → Flow (World × String)
handle_register_device env now secret body w = do
  account ← need w (authenticate_account env secret w.store) 401 "unauthorized"
  req ← need w body 400 "bad_request"
  require w (valid_role req.role) 400 "bad_role"
  key ← need w (key_of env req.public_key) 400 "bad_public_key"
  (w1, dev) ← need w (register_or_find_device env now account req.role key w) 409 "device_limit"
  going (w1, dev.id)
