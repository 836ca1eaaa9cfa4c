-- ===== src/AuthStore/Accounts.antt =====
-- internal/authstore/memory/memory.go: accounts and the Stripe customer index.
use secure_gateway.Common.{String, str_eq, Option, none, some, if◌then◌else◌, string_key}
use secure_gateway.Common.Table.{get, put}
use secure_gateway.AuthStore.{is_zero, not_found, Account}
use secure_gateway.AuthStore.State.{Store, Outcome, ok, fail, found}

keep_text : String → String → String
keep_text new old = if str_eq new "" then old else new

merge_account : Account → Option Account → Account
unfolding keep_text
merge_account a none = a
merge_account a (some old) = record a {
  stripe_customer_id = keep_text a.stripe_customer_id old.stripe_customer_id;
  secret_hash = keep_text a.secret_hash old.secret_hash;
  created_at = if is_zero a.created_at then old.created_at else a.created_at;
}

unfoldable pub upsert_account : Account → Store → Store
unfolding merge_account
upsert_account new s =
    let a = merge_account new (get new.id s.accounts) in
    record s {
      accounts = put new.id a s.accounts;
      customer_to_acct =
          if str_eq a.stripe_customer_id ""
          then s.customer_to_acct
          else put a.stripe_customer_id new.id s.customer_to_acct;
    }

abbrev pub get_account : String → Store → Outcome Account
get_account id s = found (get id s.accounts)

zero_account : Account
zero_account = record { id = ""; stripe_customer_id = ""; secret_hash = ""; created_at = 0 }

-- `s.accounts[id]` is the zero account if the id is not there.
unfoldable pub get_account_by_customer : String → Store → Outcome Account
unfolding zero_account
get_account_by_customer customer s = elim (get customer s.customer_to_acct) [
  | none ↦ fail not_found
  | some id ↦ elim (get id s.accounts) [ none ↦ ok zero_account | some a ↦ ok a ]
]
