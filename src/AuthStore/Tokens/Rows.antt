-- ===== src/AuthStore/Tokens/Rows.antt =====
-- What the token operations do to the rows of the store.
use secure_gateway.Common.{
  ℕ, ◌<◌, ◌≡◌, ◌≢◌, ◌∙◌, ap, refl, String, eq_iff, false, Option, none, some, [], ◌∷◌, arith,
  string_key, same, Bool-cases, Option-cases, inl, inr,
}
use secure_gateway.Common.Table.{Table, get, put}
use secure_gateway.AuthStore.{PairingToken, RefreshToken, refresh_token_active}
use secure_gateway.AuthStore.State.{Store, ok}
use secure_gateway.AuthStore.Tokens.{
  consume_refresh_token, consume_pairing_token, revoke_refresh_tokens_by_device, revoke_rows,
  revoke_if_device,
}

abbrev revoked_row : String → ℕ → Option RefreshToken → Option RefreshToken
revoked_row device t none = none
revoked_row device t (some r) = some (revoke_if_device device t r)

get-revoke_rows :
    (device id : String) (t : ℕ) (m : Table String RefreshToken)
    → get id (revoke_rows device t m) ≡ revoked_row device t (get id m)
unfolding get revoke_rows
get-revoke_rows device id t [] = refl
get-revoke_rows device id t ((j, r) ∷ m) = elim (Bool-cases (same j id)) [
  | inl hit ↦ rw hit
  | inr miss ↦ rw miss (get-revoke_rows device id t m)
]

-- A row that is revoked is left as it is.
pub revoke_by_device-kept :
    (device id : String) (t : ℕ) (s : Store) (r : RefreshToken)
    → get id s.refresh_tokens ≡ some r
    → r.revoked_at ≢ 0
    → get id (revoke_refresh_tokens_by_device device t s).refresh_tokens ≡ some r
unfolding revoke_refresh_tokens_by_device revoke_if_device
revoke_by_device-kept device id t s r there spent =
    get-revoke_rows device id t s.refresh_tokens
    ∙ ap (revoked_row device t) there
    ∙ ground (arith, spent)

-- After a device's tokens are revoked, none of its rows is active at any instant.
pub revoke_by_device-inactive :
    (device : String) (t now : ℕ) (s : Store) (id : String) (r : RefreshToken)
    → 0 < t
    → get id (revoke_refresh_tokens_by_device device t s).refresh_tokens ≡ some r
    → r.device_id ≡ device
    → refresh_token_active r now ≡ false
unfolding revoke_refresh_tokens_by_device revoke_if_device
revoke_by_device-inactive device t now s id r p h e =
    elim (Option-cases (get id s.refresh_tokens)) [
      | inl q ↦ absurd (ground (arith, get-revoke_rows device id t s.refresh_tokens))
      | inr (old, q) ↦
          ground (arith, get-revoke_rows device id t s.refresh_tokens, eq_iff old.device_id device)
    ]

-- Consuming succeeds on a row that is not revoked, and stamps it.
pub consume-ok :
    (id : String) (t : ℕ) (s s' : Store)
    → consume_refresh_token id t s ≡ ok s'
    → (r : RefreshToken) × (get id s.refresh_tokens ≡ some r)
      × (r.revoked_at ≡ 0)
      × (s' ≡ record s { refresh_tokens = put id (record r { revoked_at = t }) s.refresh_tokens })
unfolding consume_refresh_token
consume-ok id t s s' h = elim (Option-cases (get id s.refresh_tokens)) [
  | inl q ↦ absurd (ground arith)
  | inr (r, q) ↦ (r, q, ground arith, ground arith)
]

-- A pairing token is consumed at most once.
pub consume_pairing-ok :
    (id result : String) (t : ℕ) (s s' : Store)
    → consume_pairing_token id result t s ≡ ok s'
    → (pt : PairingToken) × (get id s.pairing_tokens ≡ some pt)
      × (pt.consumed_at ≡ 0)
      × (s' ≡ record s {
        pairing_tokens =
            put id (record pt { consumed_at = t; result_pair_id = result }) s.pairing_tokens;
      })
unfolding consume_pairing_token
consume_pairing-ok id result t s s' h = elim (Option-cases (get id s.pairing_tokens)) [
  | inl q ↦ absurd (ground arith)
  | inr (pt, q) ↦ (pt, q, ground arith, ground arith)
]
