-- ===== src/AuthService.antt =====
-- internal/authservice: the HTTP handlers of the auth service over the in-memory store. A request
-- arrives with the bearer secret of its header and the decoded body (`none` is a body that does not
-- decode); a handler reads the clock once, as `now`. Logging and metrics are left out.
pub mod Ends
pub mod Credentials
pub mod Issue
pub mod Pair
pub mod Provision
pub mod Checkout
pub mod Claim
pub mod Limits
use Prim.Native.String.{◌++◌ as cat}
use secure_gateway.Common.{
  ℕ, suc, ◌+◌, ◌≡◌, String, str_eq, Bool, true, false, ◌&&◌, Option, none, some, List, [], ◌∷◌,
  if◌then◌else◌, leb, string_key,
}
use secure_gateway.Common.Table.{get}
use secure_gateway.Token.{Claims, role_mobile, role_desktop}
use secure_gateway.AuthStore.{is_license_active, License, Device, Pairing, Subscription}
use secure_gateway.AuthStore.State.{Store, Outcome, ok, fail, found}
use secure_gateway.AuthStore.Devices.{
  upsert_device, get_device, count_devices_by_account, find_device_by_account_role_key, bytes,
}
use secure_gateway.License.{evaluate, issuable}
use secure_gateway.Backplane.{Backplane, RevocationEvent, publish_revocation}

-- What the service is configured with, and what it calls that is not its own: the hash of a secret
-- (hex SHA-256), the random texts in the order in which they are drawn, the signature of a token,
-- base64, license.NewKey by the number of its draw, and time.AddDate for years.
pub record Env : Type 0 where
  pub hash : String → String
  pub rand : ℕ → String
  pub sign : Claims → Option String
  pub encode64 : List ℕ → String
  pub decode64 : String → Option (List ℕ)
  pub new_key : ℕ → String
  pub add_years : ℕ → ℕ → ℕ
  pub issuer : String
  pub audience : String
  pub token_ttl : ℕ
  pub refresh_ttl : ℕ
  pub pairing_token_ttl : ℕ
  pub billing_enabled : Bool
  pub device_cap : ℕ
  pub admin_key : String
  pub relay_url : String
  pub auth_url : String

-- `drawn` counts the random texts in use; `bp` is `none` where no backplane is configured.
pub record World : Type 0 where
  pub store : Store
  pub bp : Option Backplane
  pub drawn : ℕ

-- A handler ends early with a status and an error code, in the world that it leaves behind, or goes on.
pub data Flow {ℓ} (A : Type ℓ) : Type ℓ where
  done : World → ℕ → String → Flow A
  going : A → Flow A

infixl 5 ◌>>=◌ ◌>>◌
abbrev pub ◌>>=◌ {ℓ κ} : {A : Type ℓ} {B : Type κ} → Flow A → (A → Flow B) → Flow B
done w status code >>= f = done w status code
going a >>= f = f a

abbrev pub ◌>>◌ {ℓ} : {B : Type ℓ} → Flow (Unit {0}) → Flow B → Flow B
m >> k = m >>= λ _. k

abbrev pub need {ℓ} : {A : Type ℓ} → World → Option A → ℕ → String → Flow A
need w none status code = done w status code
need w (some a) status code = going a

abbrev pub require : World → Bool → ℕ → String → Flow (Unit {0})
require w true status code = going tt
require w false status code = done w status code

-- authstore.NewID: the random text behind a prefix.
unfoldable pub new_id : Env → String → World → String
new_id env prefix w = cat prefix (cat "_" (env.rand w.drawn))

-- newAccountSecret and newPairCredential: NewID without its prefix, behind the owner and a dot.
unfoldable pub new_secret_for : Env → String → World → String
new_secret_for env owner w = cat owner (cat "." (env.rand w.drawn))

abbrev pub draw : World → World
draw w = record w { drawn = suc w.drawn }

abbrev pub with_store : World → Store → World
with_store w s = record w { store = s }

abbrev pub publish_on : RevocationEvent → Option Backplane → Option Backplane
publish_on ev none = none
publish_on ev (some b) = some (publish_revocation ev b)

unfoldable pub publish_event : RevocationEvent → World → World
publish_event ev w = record w { bp = publish_on ev w.bp }

abbrev subscription_issuable : ℕ → Option Subscription → Bool
subscription_issuable now none = false
subscription_issuable now (some sub) = issuable (evaluate sub now)

unfoldable pub license_issuable : Env → ℕ → License → Store → Bool
license_issuable env now lic s =
    if is_license_active lic.status
    then (if env.billing_enabled
        then subscription_issuable now (get lic.subscription_id s.subscriptions)
        else true)
    else false

abbrev issuable_license : Env → ℕ → Store → Option License → Option License
issuable_license env now s none = none
issuable_license env now s (some lic) = if license_issuable env now lic s then some lic else none

-- The license behind a pairing, if it lets a token be issued.
unfoldable pub pairing_issuable : Env → ℕ → Pairing → Store → Option License
pairing_issuable env now p s = issuable_license env now s (get p.license_id s.licenses)

abbrev device_if : String → String → Option Device → Option Device
device_if account role none = none
device_if account role (some d) =
    if str_eq d.account_id account && str_eq d.role role then some d else none

unfoldable pub device_for_role : String → String → String → Store → Option Device
device_for_role id account role s = device_if account role (get id s.devices)

unfoldable pub pairing_has_device : Pairing → Device → Bool
pairing_has_device p d =
    if str_eq d.role role_mobile
    then str_eq p.mobile_device_id d.id
    else if str_eq d.role role_desktop
    then str_eq p.desktop_device_id d.id
    else false

abbrev pub insert_device :
    Env → ℕ → String → String → Option (List ℕ) → World → Option (World × Device)
insert_device env now account role key w =
    let d : Device = record {
      id = new_id env "dev" w;
      account_id = account;
      role = role;
      public_key = key;
      created_at = now;
    } in
    if leb env.device_cap (count_devices_by_account account w.store)
    then none
    else some (draw (with_store w (upsert_device d w.store)), d)

abbrev pub existing_or_insert :
    Env → ℕ → String → String → Option (List ℕ) → World → Outcome Device → Option (World × Device)
existing_or_insert env now account role key w (ok d) = some (w, d)
existing_or_insert env now account role key w (fail e) = insert_device env now account role key w

-- `none` is errDeviceLimit, the only error over the in-memory store. For an empty key the store's
-- lookup is not made; it would find nothing.
unfoldable pub register_or_find_device :
    Env → ℕ → String → String → Option (List ℕ) → World → Option (World × Device)
register_or_find_device env now account role key w =
    existing_or_insert env now account role key w
      (find_device_by_account_role_key account role (bytes key) w.store)
