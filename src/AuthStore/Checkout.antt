-- ===== src/AuthStore/Checkout.antt =====
-- internal/authstore/memory/memory.go: checkout claims.
use secure_gateway.Common.{
  ℕ, ltb, String, str_eq, none, some, if◌then◌else◌, find_first, count, string_key,
}
use secure_gateway.Common.Table.{values, get, put, discard}
use secure_gateway.AuthStore.{
  not_found, conflict, claim_ready, claim_consumed, is_claim_pending, is_claim_ready,
  is_claim_consumed, CheckoutClaim,
}
use secure_gateway.AuthStore.State.{Store, Outcome, ok, fail, found, has_key}

unfoldable pub create_checkout_claim : CheckoutClaim → Store → Outcome Store
create_checkout_claim c s =
    if has_key (get c.nonce s.checkout_claims)
    then fail conflict
    else ok (record s { checkout_claims = put c.nonce c s.checkout_claims })

abbrev pub get_checkout_claim : String → Store → Outcome CheckoutClaim
get_checkout_claim nonce s = found (get nonce s.checkout_claims)

unfoldable pub get_checkout_claim_by_code : String → Store → Outcome CheckoutClaim
get_checkout_claim_by_code code s =
    if str_eq code ""
    then fail not_found
    else found (find_first (λ c. str_eq c.claim_code_hash code) (values s.checkout_claims))

unfoldable pub mark_checkout_claim_ready :
    String → String → String → String → String → Store → Store
mark_checkout_claim_ready nonce account license sub session s = elim (get nonce s.checkout_claims) [
  | none ↦ s
  | some c ↦
      if is_claim_pending c.status
      then record s {
        checkout_claims =
            put nonce
              (record c {
                account_id = account;
                license_id = license;
                subscription_id = sub;
                stripe_session_id = if str_eq session "" then c.stripe_session_id else session;
                status = claim_ready;
              })
              s.checkout_claims;
      }
      else s
]

unfoldable pub set_checkout_claim_code : String → String → Store → Outcome Store
set_checkout_claim_code nonce code s = elim (get nonce s.checkout_claims) [
  | none ↦ fail not_found
  | some c ↦
      if is_claim_ready c.status
      then ok (record s {
        checkout_claims = put nonce (record c { claim_code_hash = code }) s.checkout_claims;
      })
      else fail not_found
]

unfoldable pub consume_checkout_claim : String → ℕ → Store → Outcome (Store × CheckoutClaim)
consume_checkout_claim nonce consumed_at s = elim (get nonce s.checkout_claims) [
  | none ↦ fail not_found
  | some c ↦
      let used = record c { status = claim_consumed; consumed_at = consumed_at } in
      if is_claim_consumed c.status
      then fail conflict
      else if is_claim_ready c.status
      then ok (record s { checkout_claims = put nonce used s.checkout_claims }, used)
      else fail not_found
]

unfoldable pub delete_expired_checkout_claims : ℕ → Store → Store × ℕ
delete_expired_checkout_claims before s =
    let expired = λ (c : CheckoutClaim). ltb c.expires_at before in
    (
      record s { checkout_claims = discard expired s.checkout_claims },
      count expired (values s.checkout_claims),
    )
