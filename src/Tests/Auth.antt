-- ===== src/Tests/Auth.antt =====
-- The auth service on a small account: one license with two slots and one pair.
use Prim.Native.String.{◌++◌ as cat}
use secure_gateway.Common.{
  ℕ, ◌≡◌, ◌≢◌, ◌+◌, refl, String, true, false, some, [], ◌∷◌, arith, nat_eq, if◌then◌else◌,
  string_key, eq_iff,
}
use secure_gateway.Common.Table.{get, put}
use secure_gateway.Token.{Claims}
use secure_gateway.AuthStore.{
  Account, Subscription, active, License, license_active, Device, Pairing, pairing_active,
  RefreshToken, refresh_token_active, PairingToken, PairCredential,
}
use secure_gateway.AuthStore.Tokens.{revoke_refresh_tokens_by_device}
use secure_gateway.AuthStore.Tokens.Later.{now_on, device_revoked}
use secure_gateway.AuthStore.State.{Store, new_store}
use secure_gateway.AuthService.{Env, World, Flow, done, going, draw, new_id}
use secure_gateway.AuthService.Issue.{TokenReq, TokenResp, handle_issue_token, handle_refresh_token}
use secure_gateway.AuthService.Issue.Entitled.{Entitled, Certifies, issue_sound, issue_complete}
use secure_gateway.AuthService.Issue.Rotation.{
  Renewable, refresh_sound, refresh_once, reuse-revokes_device,
}
use secure_gateway.Backplane.{new_backplane}

abbrev text_of : ℕ → String
text_of n =
    if nat_eq n 0 then "r0" else if nat_eq n 1 then "r1" else if nat_eq n 2 then "r2" else "r3"

abbrev pub test_env : Env
test_env = record {
  hash = λ s. cat "h:" s;
  rand = text_of;
  sign = λ c. some (cat "jwt:" c.pair_id);
  encode64 = λ bs. "b64";
  decode64 = λ s. some (1 ∷ []);
  new_key = λ n. "lic_new";
  add_years = λ t n. t + n;
  issuer = "auth";
  audience = "relay";
  token_ttl = 300000000000;
  refresh_ttl = 1000;
  pairing_token_ttl = 1000;
  billing_enabled = true;
  device_cap = 8;
  admin_key = "admin";
  relay_url = "";
  auth_url = "";
}

abbrev mobile_1 : Device
mobile_1 = record {
  id = "dm";
  account_id = "acct";
  role = "mobile";
  public_key = some (7 ∷ []);
  created_at = 1;
}

abbrev desktop_1 : Device
desktop_1 = record {
  id = "dd";
  account_id = "acct";
  role = "desktop";
  public_key = some (8 ∷ []);
  created_at = 1;
}

abbrev pub pair_1 : Pairing
pair_1 = record {
  pair_id = "pair";
  license_id = "lic";
  account_id = "acct";
  mobile_device_id = "dm";
  desktop_device_id = "dd";
  status = pairing_active;
  created_at = 1;
}

abbrev pub license_1 : License
license_1 = record {
  id = "lic";
  account_id = "acct";
  subscription_id = "sub";
  subscription_item_id = "";
  status = license_active;
  created_at = 1;
}

abbrev pub subscription_1 : Subscription
subscription_1 = record {
  id = "sub";
  account_id = "acct";
  status = active;
  max_pairs = 2;
  current_period_end = 0;
  grace_until = 0;
  updated_at = 1;
}

abbrev row_1 : RefreshToken
row_1 = record {
  id = "h:old";
  device_id = "dm";
  account_id = "acct";
  pair_id = "pair";
  expires_at = 500;
  revoked_at = 0;
}

abbrev pub store_1 : Store
store_1 = record new_store {
  accounts =
      (
        "acct",
        record { id = "acct"; stripe_customer_id = ""; secret_hash = "h:acct.s"; created_at = 1 },
      )
      ∷ [];
  subscriptions = ("sub", subscription_1) ∷ [];
  licenses = ("lic", license_1) ∷ [];
  devices = ("dm", mobile_1) ∷ ("dd", desktop_1) ∷ [];
  pairings = ("pair", pair_1) ∷ [];
  refresh_tokens = ("h:old", row_1) ∷ [];
  pairing_tokens =
      (
        "h:qr",
        record {
          id = "h:qr";
          account_id = "acct";
          license_id = "lic";
          desktop_device_id = "dd";
          expires_at = 500;
          consumed_at = 0;
          result_pair_id = "";
        },
      )
      ∷ [];
}

abbrev pub world_1 : World
world_1 = record { store = store_1; bp = some (new_backplane 60 4); drawn = 0 }

abbrev pub request_1 : TokenReq
request_1 = record { device_id = "dm"; pair_id = "pair" }

-- What a flow goes on with, or the second argument.
abbrev pub outcome {ℓ} : {A : Type ℓ} → Flow A → A → A
outcome (going a) b = a
outcome (done w status code) b = b

-- The world that a flow ends in.
abbrev pub left_by {ℓ} : {A : Type ℓ} → Flow A → World
left_by (going a) = world_1
left_by (done w status code) = w

abbrev no_token : World × TokenResp
no_token = (world_1, record { token = ""; refresh_token = ""; expires_in = 0 })

abbrev issued_1 : World × TokenResp
issued_1 = outcome (handle_issue_token test_env 100 "acct.s" (some request_1) world_1) no_token

issued_1-going : handle_issue_token test_env 100 "acct.s" (some request_1) world_1 ≡ going issued_1
unfolding handle_issue_token secure_gateway.AuthService.Credentials.authenticate_account_or_pair
    secure_gateway.AuthService.Credentials.authenticate_account
    secure_gateway.AuthService.Credentials.owner_of get
    secure_gateway.AuthService.pairing_has_device secure_gateway.AuthService.pairing_issuable
    secure_gateway.AuthService.license_issuable secure_gateway.License.issuable
    secure_gateway.License.evaluate secure_gateway.AuthService.Issue.issue_token_pair
    secure_gateway.AuthService.Issue.mint
issued_1-going = refl

issue_sound_example :
    (t : Entitled test_env 100 "acct.s" request_1 store_1) × (c : Claims) × (test_env.sign c
      ≡ some issued_1.1.token)
    × Certifies c test_env 100 t.caller.account_id t.p t.d t.lic
issue_sound_example = issue_sound test_env 100 "acct.s" request_1 world_1 issued_1 issued_1-going

issue_complete_example :
    (r : World × TokenResp) × (handle_issue_token test_env 100 "acct.s" (some request_1) world_1
      ≡ going r)
issue_complete_example =
    issue_complete test_env 100 "acct.s" request_1 world_1 (λ c. (cat "jwt:" c.pair_id, refl))
      (issue_sound test_env 100 "acct.s" request_1 world_1 issued_1 issued_1-going).0

abbrev refreshed_1 : World × TokenResp
refreshed_1 = outcome (handle_refresh_token test_env 100 (some "old") world_1) no_token

refreshed_1-going : handle_refresh_token test_env 100 (some "old") world_1 ≡ going refreshed_1
unfolding handle_refresh_token get secure_gateway.AuthService.pairing_has_device
    secure_gateway.AuthService.pairing_issuable secure_gateway.AuthService.license_issuable
    secure_gateway.License.issuable secure_gateway.License.evaluate
    secure_gateway.AuthStore.Tokens.consume_refresh_token
    secure_gateway.AuthService.Issue.issue_token_pair secure_gateway.AuthService.Issue.mint
refreshed_1-going = refl

refresh_sound_example :
    (t : Renewable test_env 100 "old" store_1) × (c : Claims) × (test_env.sign c
      ≡ some refreshed_1.1.token)
    × Certifies c test_env 100 t.rt.account_id t.p t.d t.lic
refresh_sound_example = refresh_sound test_env 100 "old" world_1 refreshed_1 refreshed_1-going

rows_keyed :
    (rt : RefreshToken)
    → get (test_env.hash "old") store_1.refresh_tokens ≡ some rt
    → rt.id ≡ test_env.hash "old"
unfolding get
rows_keyed rt h = ground arith

new_row_fresh : test_env.hash (new_id test_env "rt" (draw world_1)) ≢ test_env.hash "old"
unfolding new_id
new_row_fresh =
    ground
      (arith, eq_iff (test_env.hash (new_id test_env "rt" (draw world_1))) (test_env.hash "old"))

-- The device's tokens are revoked in between.
abbrev refreshed_later : World
refreshed_later = record refreshed_1.0 {
  store = revoke_refresh_tokens_by_device "dm" 110 refreshed_1.0.store;
}

refresh_once_example :
    (w' : World) × (handle_refresh_token test_env 120 (some "old") refreshed_later
      ≡ done w' 401 "refresh_invalid")
refresh_once_example =
    refresh_once test_env 100 120 "old" world_1 refreshed_later refreshed_1 rows_keyed new_row_fresh
      (omega arith) refreshed_1-going (device_revoked "dm" 110 refreshed_1.0.store now_on)

abbrev replayed_1 : World
replayed_1 = left_by (handle_refresh_token test_env 120 (some "old") refreshed_1.0)

replayed_1-done :
    handle_refresh_token test_env 120 (some "old") refreshed_1.0
    ≡ done replayed_1 401 "refresh_invalid"
unfolding handle_refresh_token get secure_gateway.AuthService.pairing_has_device
    secure_gateway.AuthService.pairing_issuable secure_gateway.AuthService.license_issuable
    secure_gateway.License.issuable secure_gateway.License.evaluate
    secure_gateway.AuthStore.Tokens.consume_refresh_token
    secure_gateway.AuthService.Issue.issue_token_pair secure_gateway.AuthService.Issue.mint
    secure_gateway.AuthStore.Tokens.put_refresh_token put
    secure_gateway.AuthService.Issue.refresh_row new_id
replayed_1-done = refl

abbrev new_row : RefreshToken
new_row = record {
  id = "h:rt_r1";
  device_id = "dm";
  account_id = "acct";
  pair_id = "pair";
  expires_at = 1100;
  revoked_at = 120;
}

new_row-there : get "h:rt_r1" replayed_1.store.refresh_tokens ≡ some new_row
unfolding get handle_refresh_token secure_gateway.AuthService.pairing_has_device
    secure_gateway.AuthService.pairing_issuable secure_gateway.AuthService.license_issuable
    secure_gateway.License.issuable secure_gateway.License.evaluate
    secure_gateway.AuthStore.Tokens.consume_refresh_token
    secure_gateway.AuthService.Issue.issue_token_pair secure_gateway.AuthService.Issue.mint
    secure_gateway.AuthStore.Tokens.put_refresh_token put
    secure_gateway.AuthService.Issue.refresh_row new_id secure_gateway.AuthService.Issue.after_reuse
    secure_gateway.AuthService.publish_event
    secure_gateway.AuthStore.Tokens.revoke_refresh_tokens_by_device
new_row-there = refl

row_1-there : get "h:old" store_1.refresh_tokens ≡ some row_1
unfolding get
row_1-there = refl

reuse-revokes_device_example : refresh_token_active new_row 130 ≡ false
reuse-revokes_device_example =
    reuse-revokes_device test_env 100 120 130 "old" "h:rt_r1" world_1 replayed_1 refreshed_1 row_1
      new_row rows_keyed new_row_fresh (omega arith) (omega arith) refreshed_1-going replayed_1-done
      row_1-there new_row-there refl
