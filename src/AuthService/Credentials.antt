-- ===== src/AuthService/Credentials.antt =====
-- internal/authservice/auth.go: who is calling. The secret is what `bearer` finds in the header, and
-- the empty text where it finds none.
use text.Mathlib.Text.{find?}
use Prim.Native.String.{slice}
use secure_gateway.Common.{
  ℕ, String, str_eq, Bool, false, ◌&&◌, not, Option, none, some, if◌then◌else◌, string_key,
}
use secure_gateway.Common.Table.{get}
use secure_gateway.AuthStore.{PairCredential, pair_credential_active}
use secure_gateway.AuthStore.State.{Store}
use secure_gateway.AuthService.{Env}

-- strings.Cut at the first dot: the part before it.
abbrev cut_at : String → Option ℕ → Option String
cut_at secret none = none
cut_at secret (some i) = some (slice secret 0 i)

-- The owner that a secret names: what stands before its first dot, if that is not empty.
abbrev named : Option String → Option String
named none = none
named (some id) = if str_eq id "" then none else some id

unfoldable pub owner_of : String → Option String
owner_of secret = if str_eq secret "" then none else named (cut_at secret (find? secret "."))

abbrev account_named : Env → String → Store → Option String → Option String
account_named env secret s none = none
account_named env secret s (some id) = elim (get id s.accounts) [
  | none ↦ none
  | some acct ↦
      if not (str_eq acct.secret_hash "") && str_eq (env.hash secret) acct.secret_hash
      then some id
      else none
]

unfoldable pub authenticate_account : Env → String → Store → Option String
authenticate_account env secret s = account_named env secret s (owner_of secret)

abbrev pair_named : Env → ℕ → String → Store → Option String → Option PairCredential
pair_named env now secret s none = none
pair_named env now secret s (some id) = elim (get id s.pair_credentials) [
  | none ↦ none
  | some cred ↦
      if not (str_eq cred.secret_hash "")
        && pair_credential_active cred now
        && str_eq (env.hash secret) cred.secret_hash
      then some cred
      else none
]

unfoldable pub authenticate_pair : Env → ℕ → String → Store → Option PairCredential
authenticate_pair env now secret s = pair_named env now secret s (owner_of secret)

-- The caller: an account, and the pair credential where the caller used one.
pub record Caller : Type 0 where
  pub account_id : String
  pub credential : Option PairCredential

abbrev by_credential : Option PairCredential → Option Caller
by_credential none = none
by_credential (some cred) = some (record { account_id = cred.account_id; credential = some cred })

abbrev account_first : Option String → Option PairCredential → Option Caller
account_first (some id) cred = some (record { account_id = id; credential = none })
account_first none cred = by_credential cred

unfoldable pub authenticate_account_or_pair : Env → ℕ → String → Store → Option Caller
authenticate_account_or_pair env now secret s =
    account_first (authenticate_account env secret s) (authenticate_pair env now secret s)

-- The admin key must be set; the bearer must be that key.
unfoldable pub authorize_admin : Env → String → Bool
authorize_admin env secret = if str_eq env.admin_key "" then false else str_eq secret env.admin_key
