-- ===== src/AuthStore.antt =====
-- internal/authstore/store.go: the records that the auth service keeps. A time is a number of
-- nanoseconds since Go's zero time, so 0 is the zero `time.Time`; a duration is such a number too.
pub mod State
pub mod Accounts
pub mod Licenses
pub mod Devices
pub mod Pairings
pub mod Tokens
pub mod Checkout
pub mod Webhooks
use secure_gateway.Common.{ℕ, ltb, nat_eq, String, Bool, true, false, ◌&&◌, not, Option, List}

abbrev pub is_zero : ℕ → Bool
is_zero t = nat_eq t 0

pub data StoreError : Type 0 where
  not_found conflict capacity_exceeded : StoreError

-- `other` stands for any status text beside Stripe's seven.
pub data SubStatus : Type 0 where
  trialing active past_due canceled unpaid incomplete_expired paused : SubStatus
  other : String → SubStatus

pub data LicenseStatus : Type 0 where
  license_active license_revoked : LicenseStatus

pub data PairingStatus : Type 0 where
  pairing_active pairing_revoked : PairingStatus

pub data WebhookStatus : Type 0 where
  webhook_pending webhook_processed webhook_failed webhook_dead : WebhookStatus

pub data ClaimStatus : Type 0 where
  claim_pending claim_ready claim_consumed : ClaimStatus

abbrev pub is_license_active : LicenseStatus → Bool
is_license_active license_active = true
is_license_active license_revoked = false

abbrev pub is_pairing_active : PairingStatus → Bool
is_pairing_active pairing_active = true
is_pairing_active pairing_revoked = false

abbrev pub same_webhook_status : WebhookStatus → WebhookStatus → Bool
same_webhook_status webhook_pending webhook_pending = true
same_webhook_status webhook_processed webhook_processed = true
same_webhook_status webhook_failed webhook_failed = true
same_webhook_status webhook_dead webhook_dead = true
same_webhook_status _ _ = false

abbrev pub is_claim_pending : ClaimStatus → Bool
is_claim_pending claim_pending = true
is_claim_pending _ = false

abbrev pub is_claim_ready : ClaimStatus → Bool
is_claim_ready claim_ready = true
is_claim_ready _ = false

abbrev pub is_claim_consumed : ClaimStatus → Bool
is_claim_consumed claim_consumed = true
is_claim_consumed _ = false

pub record Account : Type 0 where
  pub id : String
  pub stripe_customer_id : String
  pub secret_hash : String
  pub created_at : ℕ

pub record Subscription : Type 0 where
  pub id : String
  pub account_id : String
  pub status : SubStatus
  pub max_pairs : ℕ
  pub current_period_end : ℕ
  pub grace_until : ℕ
  pub updated_at : ℕ

pub record License : Type 0 where
  pub id : String
  pub account_id : String
  pub subscription_id : String
  pub subscription_item_id : String
  pub status : LicenseStatus
  pub created_at : ℕ

-- `none` is the nil slice.
pub record Device : Type 0 where
  pub id : String
  pub account_id : String
  pub role : String
  pub public_key : Option (List ℕ)
  pub created_at : ℕ

pub record Pairing : Type 0 where
  pub pair_id : String
  pub license_id : String
  pub account_id : String
  pub mobile_device_id : String
  pub desktop_device_id : String
  pub status : PairingStatus
  pub created_at : ℕ

pub record RefreshToken : Type 0 where
  pub id : String
  pub device_id : String
  pub account_id : String
  pub pair_id : String
  pub expires_at : ℕ
  pub revoked_at : ℕ

abbrev pub refresh_token_active : RefreshToken → ℕ → Bool
refresh_token_active r now = is_zero r.revoked_at && ltb now r.expires_at

pub record PairingToken : Type 0 where
  pub id : String
  pub account_id : String
  pub license_id : String
  pub desktop_device_id : String
  pub expires_at : ℕ
  pub consumed_at : ℕ
  pub result_pair_id : String

abbrev pub pairing_token_active : PairingToken → ℕ → Bool
pairing_token_active t now = is_zero t.consumed_at && ltb now t.expires_at

pub record PairCredential : Type 0 where
  pub pair_id : String
  pub account_id : String
  pub license_id : String
  pub mobile_device_id : String
  pub secret_hash : String
  pub created_at : ℕ
  pub revoked_at : ℕ

-- The instant is not looked at, as in the source.
abbrev pub pair_credential_active : PairCredential → ℕ → Bool
pair_credential_active c now = is_zero c.revoked_at

pub record CheckoutClaim : Type 0 where
  pub nonce : String
  pub stripe_session_id : String
  pub redirect_uri : String
  pub claim_code_hash : String
  pub account_id : String
  pub license_id : String
  pub subscription_id : String
  pub status : ClaimStatus
  pub created_at : ℕ
  pub expires_at : ℕ
  pub consumed_at : ℕ

abbrev pub checkout_claim_active : CheckoutClaim → ℕ → Bool
checkout_claim_active c now = not (is_claim_consumed c.status) && ltb now c.expires_at

pub record WebhookEvent : Type 0 where
  pub id : String
  pub type : String
  pub status : WebhookStatus
  pub attempts : ℕ
  pub payload : List ℕ
  pub received_at : ℕ
  pub processed_at : ℕ
