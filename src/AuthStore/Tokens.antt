-- ===== src/AuthStore/Tokens.antt =====
-- internal/authstore/memory/memory.go: refresh tokens, pairing tokens and pair credentials.
pub mod Rows
pub mod Later
use secure_gateway.Common.{
  ℕ, String, str_eq, ◌&&◌, not, none, some, [], ◌∷◌, if◌then◌else◌, string_key,
}
use secure_gateway.Common.Table.{Table, get, put}
use secure_gateway.AuthStore.{
  is_zero, not_found, conflict, RefreshToken, PairingToken, PairCredential,
}
use secure_gateway.AuthStore.State.{Store, Outcome, ok, fail, found, has_key}

unfoldable pub put_refresh_token : RefreshToken → Store → Store
put_refresh_token r s = record s { refresh_tokens = put r.id r s.refresh_tokens }

abbrev pub get_refresh_token : String → Store → Outcome RefreshToken
get_refresh_token id s = found (get id s.refresh_tokens)

-- `now` is what time.Now gives.
unfoldable pub revoke_refresh_token : String → ℕ → Store → Outcome Store
revoke_refresh_token id now s = elim (get id s.refresh_tokens) [
  | none ↦ fail not_found
  | some r ↦ ok (
      if is_zero r.revoked_at
      then record s { refresh_tokens = put id (record r { revoked_at = now }) s.refresh_tokens }
      else s)
]

unfoldable pub consume_refresh_token : String → ℕ → Store → Outcome Store
consume_refresh_token id consumed_at s = elim (get id s.refresh_tokens) [
  | none ↦ fail not_found
  | some r ↦
      if not (is_zero r.revoked_at)
      then fail conflict
      else ok (record s {
        refresh_tokens = put id (record r { revoked_at = consumed_at }) s.refresh_tokens;
      })
]

revoke_if_device : String → ℕ → RefreshToken → RefreshToken
revoke_if_device device revoked_at r =
    if str_eq r.device_id device && is_zero r.revoked_at
    then record r { revoked_at = revoked_at }
    else r

revoke_rows : String → ℕ → Table String RefreshToken → Table String RefreshToken
unfolding revoke_if_device
revoke_rows device revoked_at [] = []
revoke_rows device revoked_at ((id, r) ∷ m) =
    (id, revoke_if_device device revoked_at r) ∷ revoke_rows device revoked_at m

unfoldable pub revoke_refresh_tokens_by_device : String → ℕ → Store → Store
unfolding revoke_rows
revoke_refresh_tokens_by_device device revoked_at s = record s {
  refresh_tokens = revoke_rows device revoked_at s.refresh_tokens;
}

unfoldable pub create_pairing_token : PairingToken → Store → Outcome Store
create_pairing_token t s =
    if has_key (get t.id s.pairing_tokens)
    then fail conflict
    else ok (record s { pairing_tokens = put t.id t s.pairing_tokens })

abbrev pub get_pairing_token : String → Store → Outcome PairingToken
get_pairing_token id s = found (get id s.pairing_tokens)

unfoldable pub consume_pairing_token : String → String → ℕ → Store → Outcome Store
consume_pairing_token id result consumed_at s = elim (get id s.pairing_tokens) [
  | none ↦ fail not_found
  | some t ↦
      if not (is_zero t.consumed_at)
      then fail conflict
      else ok (record s {
        pairing_tokens =
            put id (record t { consumed_at = consumed_at; result_pair_id = result })
              s.pairing_tokens;
      })
]

unfoldable pub put_pair_credential : PairCredential → Store → Store
put_pair_credential c s = record s { pair_credentials = put c.pair_id c s.pair_credentials }

abbrev pub get_pair_credential : String → Store → Outcome PairCredential
get_pair_credential id s = found (get id s.pair_credentials)

unfoldable pub revoke_pair_credential : String → ℕ → Store → Store
revoke_pair_credential id revoked_at s = elim (get id s.pair_credentials) [
  | none ↦ s
  | some c ↦
      if is_zero c.revoked_at
      then record s {
        pair_credentials = put id (record c { revoked_at = revoked_at }) s.pair_credentials;
      }
      else s
]
