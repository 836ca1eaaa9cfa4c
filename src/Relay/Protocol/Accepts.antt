-- ===== src/Relay/Protocol/Accepts.antt =====
-- Which frames the relay reads.
use secure_gateway.Common.{
  ℕ, ◌≡◌, ◌≢◌, ◌↔◌, ◌≤◌, ◌⊎◌, inl, inr, String, eq_iff, true, Option, none, some, List, arith,
  length, Option-cases, ap, subst, sym,
}
use secure_gateway.Relay.Protocol.{
  is_version, decode_parsed, Envelope, Json, ℤ, pos, negsuc, decoded, decode, validate, type_msg,
  type_ack, type_auth_refresh, type_error, type_sys, known_type,
}

abbrev IsKnown : String → Type 0
IsKnown t =
    (t ≡ type_msg) ⊎ (t ≡ type_ack) ⊎ (t ≡ type_auth_refresh) ⊎ (t ≡ type_error) ⊎ (t ≡ type_sys)

-- The envelope is of this version, of a known type, and has an id.
pub record IsSound (e : Envelope) : Type 0 where
  pub version : e.v ≡ pos 1
  pub kind : IsKnown e.type
  pub named : e.id ≢ ""

known_type_iff : (t : String) → (known_type t ≡ true) ↔ IsKnown t
known_type_iff t = ground (
  arith,
  eq_iff t type_msg,
  eq_iff t type_ack,
  eq_iff t type_auth_refresh,
  eq_iff t type_error,
  eq_iff t type_sys,
)

is_version_iff : (v : ℤ) → (is_version v ≡ true) ↔ (v ≡ pos 1)
is_version_iff (pos n) = ground arith
is_version_iff (negsuc n) = ground arith

validate_iff : (e : Envelope) → (validate e ≡ none) ↔ IsSound e
unfolding validate
validate_iff e = (
  λ h. record {
    version = (is_version_iff e.v).0 (ground arith);
    kind = (known_type_iff e.type).0 (ground arith);
    named = ground (arith, eq_iff e.id "");
  },
  λ h. ground (
    arith,
    (is_version_iff e.v).1 h.version,
    (known_type_iff e.type).1 h.kind,
    h.named,
    eq_iff e.id "",
  ),
)

decode_parsed_iff :
    (o : Option Envelope) (e : Envelope)
    → (decode_parsed o ≡ decoded e) ↔ ((o ≡ some e) × IsSound e)
decode_parsed_iff none e = ground arith
decode_parsed_iff (some d) e = elim (Option-cases (validate d)) [
  | inl fine ↦ (
    λ h.
        let same : d ≡ e = ground arith in
        (ap some same, subst IsSound same ((validate_iff d).0 fine)),
    λ h. ground arith,
  )
  | inr (err, bad) ↦ (
    λ h. absurd (ground arith),
    λ h.
        let same : d ≡ e = ground arith in
        absurd (ground (arith, (validate_iff d).1 (subst IsSound (sym same) h.1))),
  )
]

-- A frame is decoded exactly when it is within the limit (0 is none), its JSON parses, and the
-- envelope is sound; it is then that envelope.
pub decode_iff :
    (json : Json) (raw : List ℕ) (max_bytes : ℕ) (e : Envelope)
    → (decode json raw max_bytes ≡ decoded e)
      ↔ (((max_bytes ≡ 0) ⊎ (length raw ≤ max_bytes)) × (json.unmarshal raw ≡ some e) × IsSound e)
unfolding decode
decode_iff json raw max_bytes e = ground (arith, decode_parsed_iff (json.unmarshal raw) e)
