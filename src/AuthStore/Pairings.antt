-- ===== src/AuthStore/Pairings.antt =====
-- internal/authstore/memory/memory.go: pairings.
pub mod Count
pub mod Limits
use secure_gateway.Common.{
  ℕ, leb, String, str_eq, Bool, ◌&&◌, none, some, List, if◌then◌else◌, count, select, string_key,
}
use secure_gateway.Common.Table.{values, get, put}
use secure_gateway.AuthStore.{
  not_found, conflict, capacity_exceeded, PairingStatus, is_pairing_active, Pairing,
}
use secure_gateway.AuthStore.State.{Store, Outcome, ok, fail, found, has_key, sort_by}

unfoldable pub create_pairing : Pairing → Store → Outcome Store
create_pairing p s =
    if has_key (get p.pair_id s.pairings)
    then fail conflict
    else ok (record s { pairings = put p.pair_id p s.pairings })

abbrev pub active_for_license : String → Pairing → Bool
active_for_license license p = str_eq p.license_id license && is_pairing_active p.status

unfoldable pub active_pair_count : String → Store → ℕ
active_pair_count license s = count (active_for_license license) (values s.pairings)

unfoldable pub create_pairing_within_capacity : Pairing → ℕ → Store → Outcome Store
unfolding active_pair_count
create_pairing_within_capacity p max_pairs s =
    if has_key (get p.pair_id s.pairings)
    then fail conflict
    else if leb max_pairs (active_pair_count p.license_id s)
    then fail capacity_exceeded
    else ok (record s { pairings = put p.pair_id p s.pairings })

abbrev pub get_pairing : String → Store → Outcome Pairing
get_pairing id s = found (get id s.pairings)

list_pairings : (Pairing → Bool) → Store → List Pairing
list_pairings pred s = sort_by (λ p. p.pair_id) (select pred (values s.pairings))

unfoldable pub list_active_pairings_by_license : String → Store → List Pairing
unfolding list_pairings
list_active_pairings_by_license license s = list_pairings (active_for_license license) s

unfoldable pub list_active_pairings_by_account : String → Store → List Pairing
unfolding list_pairings
list_active_pairings_by_account account s =
    list_pairings (λ p. str_eq p.account_id account && is_pairing_active p.status) s

unfoldable pub set_pairing_status : String → PairingStatus → Store → Outcome Store
set_pairing_status id status s = elim (get id s.pairings) [
  | none ↦ fail not_found
  | some p ↦ ok (record s { pairings = put id (record p { status = status }) s.pairings })
]

unfoldable pub update_pairing_devices : String → String → String → Store → Outcome Store
update_pairing_devices id mobile desktop s = elim (get id s.pairings) [
  | none ↦ fail not_found
  | some p ↦ ok (record s {
    pairings =
        put id (record p { mobile_device_id = mobile; desktop_device_id = desktop }) s.pairings;
  })
]
