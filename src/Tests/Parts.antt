-- ===== src/Tests/Parts.antt =====
-- Tokens, licenses, abuse bans and the backplane at concrete inputs.
use secure_gateway.Common.{
  ℕ, ◌≡◌, ◌≢◌, ◌+◌, ◌-◌, ◌↔◌, refl, String, true, none, some, [], ◌∷◌, arith, string_key, eq_iff,
  ltb, if◌then◌else◌,
}
use secure_gateway.Common.Table.{get, Distinct}
use secure_gateway.Token.{
  Claims, Parsed, parsed, failed, verify, accepted, rejected, forbidden, missing_claim, AuthError,
}
use secure_gateway.Token.Accept.{IsComplete, verify_iff, verify-status}
use secure_gateway.RateLimit.{BanTracker, new_ban_tracker, strike, banned, sweep}
use secure_gateway.RateLimit.Sweep.{strikes, asks, answers, answers-sweep}
use secure_gateway.RateLimit.Window.{strike_all, ban_at_threshold}
use secure_gateway.Backplane.{
  Backplane, SlotKey, slot_key, new_backplane, renew_slot, not_slot_owner,
}
use secure_gateway.Backplane.Slots.{
  claims, renews, run, holder, held, holder-run, winner_keeps_slot,
}

abbrev claims_1 : Claims
claims_1 = record {
  issuer = "auth";
  audience = "relay" ∷ [];
  subject = "device:d";
  id = "jti";
  issued_at = some 1;
  expires_at = some 900;
  account_id = "acct";
  pair_id = "pair";
  device_id = "d";
  role = "mobile";
  license_id = "lic";
}

abbrev nameless : Claims
nameless = record claims_1 { account_id = "" }

abbrev jwt_1 : String
jwt_1 = "jwt"

verify_iff_example :
    (verify (λ raw. parsed true claims_1) jwt_1 ≡ accepted claims_1)
    ↔ ((jwt_1 ≢ "") × (parsed true claims_1 ≡ parsed true claims_1) × IsComplete claims_1)
verify_iff_example = verify_iff (λ raw. parsed true claims_1) jwt_1 claims_1

nameless-rejected : verify (λ raw. parsed true nameless) "jwt" ≡ rejected (forbidden missing_claim)
unfolding verify secure_gateway.Token.validate_custom_claims
nameless-rejected = refl

verify-status_example : (forbidden missing_claim).http_status ≡ 403
verify-status_example =
    verify-status (λ raw. parsed true nameless) "jwt" (forbidden missing_claim) nameless-rejected

abbrev tracker_1 : BanTracker
tracker_1 = new_ban_tracker 3 100 1000

abbrev tracker_2 : BanTracker
tracker_2 = record tracker_1 {
  entries = ("ip", record { strikes = 1; window_start = 5; banned_until = 0 }) ∷ [];
}

tracker_2-Distinct : Distinct tracker_2.entries
unfolding get
tracker_2-Distinct = (refl, tt)

answers-sweep_example :
    answers ((201, strikes "ip") ∷ (202, asks "ip") ∷ []) (sweep 200 tracker_2)
    ≡ answers ((201, strikes "ip") ∷ (202, asks "ip") ∷ []) tracker_2
answers-sweep_example =
    answers-sweep ((201, strikes "ip") ∷ (202, asks "ip") ∷ []) 200 tracker_2 tracker_2-Distinct
      (omega arith, (omega arith, tt))

fresh_ip : get "ip" tracker_1.entries ≡ none
unfolding get
fresh_ip = refl

ban_at_threshold_example :
    let c = strike_all (("ip", 10) ∷ ("ip", 20) ∷ []) tracker_1 in
    ((now : ℕ) → banned "ip" now c ≡ none)
    × ((strike "ip" 30 c).1 ≡ true)
    × ((now : ℕ)
        → banned "ip" now (strike "ip" 30 c).0 ≡ (
            if ltb now (30 + tracker_1.ban_window)
            then some (30 + tracker_1.ban_window - now)
            else none))
ban_at_threshold_example =
    ban_at_threshold "ip" 10 30 (("ip", 20) ∷ []) tracker_1 fresh_ip ((λ e. omega arith), tt)
      (omega arith) refl

abbrev key_1 : SlotKey
key_1 = record { pair_id = "pair"; role = "mobile" }

abbrev plane_1 : Backplane
plane_1 = record (new_backplane 60 4) {
  slots = (key_1, record { conn_id = "c1"; instance_id = "one"; expires_at = 50 }) ∷ [];
  evictions = ("one", []) ∷ [];
}

holder-run_example :
    holder (run (claims 10 key_1 "c2" "two" ∷ []) plane_1)
    ≡ held (claims 10 key_1 "c2" "two" ∷ []) (holder plane_1)
holder-run_example = holder-run (claims 10 key_1 "c2" "two" ∷ []) plane_1

winner_keeps_slot_example :
    let c = run (claims 10 key_1 "c2" "two" ∷ renews 20 key_1 "c1" ∷ []) plane_1 in
    (holder c key_1 ≡ some "c2") × (renew_slot 30 key_1 "c1" c ≡ (c, some not_slot_owner))
winner_keeps_slot_example =
    winner_keeps_slot 10 30 key_1 "c2" "two" "c1" (renews 20 key_1 "c1" ∷ []) plane_1
      (ground (arith, eq_iff "c1" "c2"), tt) (ground (arith, eq_iff "c1" "c2"))
