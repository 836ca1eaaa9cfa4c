-- ===== src/Token/Accept.antt =====
-- What a verified token is, and which status a rejection carries.
use secure_gateway.Common.{ℕ, ◌≡◌, ◌≢◌, ◌↔◌, ◌⊎◌, inl, inr, refl, String, eq_iff, true, none, arith}
use secure_gateway.Token.{
  Claims, Reason, wrong_audience, wrong_issuer, missing_claim, bad_role, AuthError, Parsed, parsed,
  accepted, rejected, classify, validate_custom_claims, verify, role_mobile, role_desktop, opposite,
  valid_role,
}

-- Every claim that routing needs is there, and the role is one of the two.
pub record IsComplete (c : Claims) : Type 0 where
  pub account_there : c.account_id ≢ ""
  pub pair_there : c.pair_id ≢ ""
  pub device_there : c.device_id ≢ ""
  pub license_there : c.license_id ≢ ""
  pub role_known : (c.role ≡ role_mobile) ⊎ (c.role ≡ role_desktop)

pub IsComplete-of_validate : (c : Claims) → validate_custom_claims c ≡ none → IsComplete c
unfolding validate_custom_claims
IsComplete-of_validate c h = record {
  account_there = ground (arith, eq_iff c.account_id "");
  pair_there = ground (arith, eq_iff c.pair_id "");
  device_there = ground (arith, eq_iff c.device_id "");
  license_there = ground (arith, eq_iff c.license_id "");
  role_known = ground (arith, eq_iff c.role role_mobile, eq_iff c.role role_desktop);
}

pub validate_of_IsComplete : (c : Claims) → IsComplete c → validate_custom_claims c ≡ none
unfolding validate_custom_claims
validate_of_IsComplete c h = ground (
  arith,
  h.account_there,
  h.pair_there,
  h.device_there,
  h.license_there,
  h.role_known,
  eq_iff c.account_id "",
  eq_iff c.pair_id "",
  eq_iff c.device_id "",
  eq_iff c.license_id "",
  eq_iff c.role role_mobile,
  eq_iff c.role role_desktop,
)

verify_sound :
    (parse : String → Parsed) (raw : String) (c : Claims)
    → verify parse raw ≡ accepted c
    → (raw ≢ "") × (parse raw ≡ parsed true c) × (validate_custom_claims c ≡ none)
unfolding verify
verify_sound parse raw c h = ground (arith, eq_iff raw "")

-- Verify accepts exactly the texts that are not empty, that the parser takes for a valid token,
-- and whose claims are complete.
pub verify_iff :
    (parse : String → Parsed) (raw : String) (c : Claims)
    → (verify parse raw ≡ accepted c) ↔ ((raw ≢ "") × (parse raw ≡ parsed true c) × IsComplete c)
unfolding verify
verify_iff parse raw c = (
  λ h. (
    let s = verify_sound parse raw c h in s.0,
    let s = verify_sound parse raw c h in s.1,
    let s = verify_sound parse raw c h in IsComplete-of_validate c s.2,
  ),
  λ h. ground (arith, eq_iff raw "", validate_of_IsComplete c h.2),
)

-- The policy reasons, which the relay answers with 403; every other reason is a 401.
abbrev pub status_of : Reason → ℕ
status_of wrong_audience = 403
status_of wrong_issuer = 403
status_of missing_claim = 403
status_of bad_role = 403
status_of _ = 401

-- A rejection of Verify carries the status that belongs to its reason: 403 for a wrong audience or
-- issuer, a missing claim or a bad role, and 401 for every other reason.
pub verify-status :
    (parse : String → Parsed) (raw : String) (e : AuthError)
    → verify parse raw ≡ rejected e
    → e.http_status ≡ status_of e.reason
unfolding verify classify validate_custom_claims
verify-status parse raw e h = ground arith

pub valid_role-cases : (r : String) → valid_role r ≡ true → (r ≡ role_mobile) ⊎ (r ≡ role_desktop)
valid_role-cases r h = ground (arith, eq_iff r role_mobile, eq_iff r role_desktop)

-- The peer of a device role is the other device role.
pub opposite-valid_role :
    (r : String)
    → valid_role r ≡ true
    → (valid_role (opposite r) ≡ true) × (opposite (opposite r) ≡ r) × (opposite r ≢ r)
opposite-valid_role r h = elim (valid_role-cases r h) [
  | inl e ↦ rw e (refl, refl, ground (arith, eq_iff role_mobile role_desktop))
  | inr e ↦ rw e (refl, refl, ground (arith, eq_iff role_mobile role_desktop))
]
