-- ===== src/AuthStore/Licenses.antt =====
-- internal/authstore/memory/memory.go: subscriptions and licenses.
use secure_gateway.Common.{
  String, str_eq, Bool, none, some, List, if◌then◌else◌, select, string_key,
}
use secure_gateway.Common.Table.{values, get, put}
use secure_gateway.AuthStore.{not_found, conflict, LicenseStatus, Subscription, License}
use secure_gateway.AuthStore.State.{Store, Outcome, ok, fail, found, has_key, sort_by}

unfoldable pub upsert_subscription : Subscription → Store → Store
upsert_subscription sub s = record s { subscriptions = put sub.id sub s.subscriptions }

abbrev pub get_subscription : String → Store → Outcome Subscription
get_subscription id s = found (get id s.subscriptions)

unfoldable pub list_subscriptions : Store → List Subscription
list_subscriptions s = sort_by (λ sub. sub.id) (values s.subscriptions)

unfoldable pub create_license : License → Store → Outcome Store
create_license l s =
    if has_key (get l.id s.licenses)
    then fail conflict
    else ok (record s { licenses = put l.id l s.licenses })

abbrev pub get_license : String → Store → Outcome License
get_license id s = found (get id s.licenses)

list_licenses : (License → Bool) → Store → List License
list_licenses pred s = sort_by (λ l. l.id) (select pred (values s.licenses))

unfoldable pub list_licenses_by_account : String → Store → List License
unfolding list_licenses
list_licenses_by_account account s = list_licenses (λ l. str_eq l.account_id account) s

unfoldable pub list_licenses_by_subscription : String → Store → List License
unfolding list_licenses
list_licenses_by_subscription sub s = list_licenses (λ l. str_eq l.subscription_id sub) s

unfoldable pub set_license_status : String → LicenseStatus → Store → Outcome Store
set_license_status id status s = elim (get id s.licenses) [
  | none ↦ fail not_found
  | some l ↦ ok (record s { licenses = put id (record l { status = status }) s.licenses })
]
