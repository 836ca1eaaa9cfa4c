-- ===== src/AuthStore/Tokens/Later.antt =====
-- What later calls of the store leave of a token that has been used.
use secure_gateway.Common.{
  ℕ, ◌≡◌, ◌≢◌, String, eq_iff, none, some, arith, string_key, Option-cases, inl, inr,
}
use secure_gateway.Common.Table.{get, get-put}
use secure_gateway.AuthStore.{PairingToken, RefreshToken}
use secure_gateway.AuthStore.State.{Store, ok}
use secure_gateway.AuthStore.Tokens.{
  put_refresh_token, revoke_refresh_token, consume_refresh_token, revoke_refresh_tokens_by_device,
  create_pairing_token, consume_pairing_token,
}
use secure_gateway.AuthStore.Tokens.Rows.{revoke_by_device-kept}

-- The stores that later calls lead to: every write to the refresh tokens and to the pairing tokens, at
-- any instants and in any order, where a new refresh token has an id that is not in use; and any write
-- beside these two.
pub data Later (s : Store) : Store → Type 0 where
  now_on : Later s s
  refresh_put :
      (r : RefreshToken) (t : Store)
      → Later s t
      → get r.id t.refresh_tokens ≡ none
      → Later s (put_refresh_token r t)
  refresh_revoked :
      (id : String) (at : ℕ) (t u : Store)
      → Later s t
      → revoke_refresh_token id at t ≡ ok u
      → Later s u
  refresh_consumed :
      (id : String) (at : ℕ) (t u : Store)
      → Later s t
      → consume_refresh_token id at t ≡ ok u
      → Later s u
  device_revoked :
      (device : String) (at : ℕ) (t : Store)
      → Later s t
      → Later s (revoke_refresh_tokens_by_device device at t)
  pairing_created :
      (p : PairingToken) (t u : Store) → Later s t → create_pairing_token p t ≡ ok u → Later s u
  pairing_consumed :
      (id pair : String) (at : ℕ) (t u : Store)
      → Later s t
      → consume_pairing_token id pair at t ≡ ok u
      → Later s u
  beside :
      (t u : Store)
      → Later s t
      → u.refresh_tokens ≡ t.refresh_tokens
      → u.pairing_tokens ≡ t.pairing_tokens
      → Later s u

-- The refresh token of the id is revoked.
abbrev pub IsRevoked : String → Store → Type 0
IsRevoked id s = (r : RefreshToken) × (get id s.refresh_tokens ≡ some r) × (r.revoked_at ≢ 0)

-- The pairing token of the id is consumed.
abbrev pub IsConsumed : String → Store → Type 0
IsConsumed id s = (p : PairingToken) × (get id s.pairing_tokens ≡ some p) × (p.consumed_at ≢ 0)

put-IsRevoked :
    (id : String) (n : RefreshToken) (t : Store)
    → get n.id t.refresh_tokens ≡ none
    → IsRevoked id t
    → IsRevoked id (put_refresh_token n t)
unfolding put_refresh_token
put-IsRevoked id n t fresh (r, there, spent) =
    (r, ground (arith, fresh, there, eq_iff n.id id, get-put n.id id n t.refresh_tokens), spent)

revoke-IsRevoked :
    (id at_id : String) (at : ℕ) (t u : Store)
    → revoke_refresh_token at_id at t ≡ ok u
    → IsRevoked id t
    → IsRevoked id u
unfolding revoke_refresh_token
revoke-IsRevoked id at_id at t u h (r, there, spent) =
    elim (Option-cases (get at_id t.refresh_tokens)) [
      | inl e ↦ absurd (ground arith)
      | inr (old, e) ↦
          let d = record old { revoked_at = at } in
          (r, ground (arith, eq_iff at_id id, get-put at_id id d t.refresh_tokens), spent)
    ]

consume-IsRevoked :
    (id at_id : String) (at : ℕ) (t u : Store)
    → consume_refresh_token at_id at t ≡ ok u
    → IsRevoked id t
    → IsRevoked id u
unfolding consume_refresh_token
consume-IsRevoked id at_id at t u h (r, there, spent) =
    elim (Option-cases (get at_id t.refresh_tokens)) [
      | inl e ↦ absurd (ground arith)
      | inr (old, e) ↦
          let d = record old { revoked_at = at } in
          (r, ground (arith, eq_iff at_id id, get-put at_id id d t.refresh_tokens), spent)
    ]

revoke_device-IsRevoked :
    (id device : String) (at : ℕ) (t : Store)
    → IsRevoked id t
    → IsRevoked id (revoke_refresh_tokens_by_device device at t)
revoke_device-IsRevoked id device at t (r, there, spent) =
    (r, revoke_by_device-kept device id at t r there spent, spent)

create-refresh :
    (p : PairingToken) (t u : Store)
    → create_pairing_token p t ≡ ok u
    → u.refresh_tokens ≡ t.refresh_tokens
unfolding create_pairing_token
create-refresh p t u h = ground arith

consume_pairing-refresh :
    (id pair : String) (at : ℕ) (t u : Store)
    → consume_pairing_token id pair at t ≡ ok u
    → u.refresh_tokens ≡ t.refresh_tokens
unfolding consume_pairing_token
consume_pairing-refresh id pair at t u h = ground arith

kept-IsRevoked :
    (id : String) (t u : Store)
    → u.refresh_tokens ≡ t.refresh_tokens
    → IsRevoked id t
    → IsRevoked id u
kept-IsRevoked id t u e (r, there, spent) = (r, rw e there, spent)

-- A revoked refresh token stays revoked.
pub Later-IsRevoked :
    (id : String) (s : Store) {t : Store} → Later s t → IsRevoked id s → IsRevoked id t
Later-IsRevoked id s now_on h = h
Later-IsRevoked id s (refresh_put r t l e) h = put-IsRevoked id r t e (Later-IsRevoked id s l h)
Later-IsRevoked id s (refresh_revoked i a t u l e) h =
    revoke-IsRevoked id i a t u e (Later-IsRevoked id s l h)
Later-IsRevoked id s (refresh_consumed i a t u l e) h =
    consume-IsRevoked id i a t u e (Later-IsRevoked id s l h)
Later-IsRevoked id s (device_revoked d a t l) h =
    revoke_device-IsRevoked id d a t (Later-IsRevoked id s l h)
Later-IsRevoked id s (pairing_created p t u l e) h =
    kept-IsRevoked id t u (create-refresh p t u e) (Later-IsRevoked id s l h)
Later-IsRevoked id s (pairing_consumed i p a t u l e) h =
    kept-IsRevoked id t u (consume_pairing-refresh i p a t u e) (Later-IsRevoked id s l h)
Later-IsRevoked id s (beside t u l e f) h = kept-IsRevoked id t u e (Later-IsRevoked id s l h)

create-IsConsumed :
    (id : String) (n : PairingToken) (t u : Store)
    → create_pairing_token n t ≡ ok u
    → IsConsumed id t
    → IsConsumed id u
unfolding create_pairing_token
create-IsConsumed id n t u h (p, there, spent) =
    (p, ground (arith, eq_iff n.id id, get-put n.id id n t.pairing_tokens), spent)

consume-IsConsumed :
    (id at_id pair : String) (at : ℕ) (t u : Store)
    → consume_pairing_token at_id pair at t ≡ ok u
    → IsConsumed id t
    → IsConsumed id u
unfolding consume_pairing_token
consume-IsConsumed id at_id pair at t u h (p, there, spent) =
    elim (Option-cases (get at_id t.pairing_tokens)) [
      | inl e ↦ absurd (ground arith)
      | inr (old, e) ↦
          let d = record old { consumed_at = at; result_pair_id = pair } in
          (p, ground (arith, eq_iff at_id id, get-put at_id id d t.pairing_tokens), spent)
    ]

revoke-pairing :
    (id : String) (at : ℕ) (t u : Store)
    → revoke_refresh_token id at t ≡ ok u
    → u.pairing_tokens ≡ t.pairing_tokens
unfolding revoke_refresh_token
revoke-pairing id at t u h = ground arith

consume-pairing :
    (id : String) (at : ℕ) (t u : Store)
    → consume_refresh_token id at t ≡ ok u
    → u.pairing_tokens ≡ t.pairing_tokens
unfolding consume_refresh_token
consume-pairing id at t u h = ground arith

kept-IsConsumed :
    (id : String) (t u : Store)
    → u.pairing_tokens ≡ t.pairing_tokens
    → IsConsumed id t
    → IsConsumed id u
kept-IsConsumed id t u e (p, there, spent) = (p, rw e there, spent)

-- A consumed pairing token stays consumed.
pub Later-IsConsumed :
    (id : String) (s : Store) {t : Store} → Later s t → IsConsumed id s → IsConsumed id t
unfolding put_refresh_token revoke_refresh_tokens_by_device
Later-IsConsumed id s now_on h = h
Later-IsConsumed id s (refresh_put r t l e) h = Later-IsConsumed id s l h
Later-IsConsumed id s (refresh_revoked i a t u l e) h =
    kept-IsConsumed id t u (revoke-pairing i a t u e) (Later-IsConsumed id s l h)
Later-IsConsumed id s (refresh_consumed i a t u l e) h =
    kept-IsConsumed id t u (consume-pairing i a t u e) (Later-IsConsumed id s l h)
Later-IsConsumed id s (device_revoked d a t l) h = Later-IsConsumed id s l h
Later-IsConsumed id s (pairing_created p t u l e) h =
    create-IsConsumed id p t u e (Later-IsConsumed id s l h)
Later-IsConsumed id s (pairing_consumed i p a t u l e) h =
    consume-IsConsumed id i p a t u e (Later-IsConsumed id s l h)
Later-IsConsumed id s (beside t u l e f) h = kept-IsConsumed id t u f (Later-IsConsumed id s l h)
