-- ===== src/Relay/Frames.antt =====
-- internal/relay/server/refresh.go, and OnFrame of hub.go: what a frame that is read does.
pub mod Identity
pub mod Keeps
use secure_gateway.Common.{
  ℕ, suc, ◌+◌, String, str_eq, Bool, true, false, ◌&&◌, ◌||◌, not, Option, none, some, List, [],
  ◌∷◌, if◌then◌else◌, nat_key,
}
use secure_gateway.Common.Table.{get}
use secure_gateway.Token.{
  Claims, Verdict, accepted, rejected, verify, Reason, missing_token, malformed, bad_signature,
  expired, not_yet_valid, wrong_audience, wrong_issuer, missing_claim, bad_role, unknown_key,
}
use secure_gateway.Relay.Protocol.{
  Envelope, Json, Decoded, decoded, undecodable, decode, type_msg, type_ack, type_auth_refresh,
  close_protocol, err_unauthorized,
}
use secure_gateway.Relay.Session.{Session, set_expiry}
use secure_gateway.Relay.Hub.{Env, Hub, set_session, close_at, send_error, route}

abbrev pub reason_text : Reason → String
reason_text missing_token = "missing_token"
reason_text malformed = "malformed_token"
reason_text bad_signature = "bad_signature"
reason_text expired = "expired"
reason_text not_yet_valid = "not_yet_valid"
reason_text wrong_audience = "wrong_audience"
reason_text wrong_issuer = "wrong_issuer"
reason_text missing_claim = "missing_claim"
reason_text bad_role = "bad_role"
reason_text unknown_key = "unknown_key"

abbrev pub same_identity : Claims → Claims → Bool
same_identity a b =
    str_eq a.pair_id b.pair_id
    && str_eq a.role b.role
    && str_eq a.account_id b.account_id
    && str_eq a.device_id b.device_id

abbrev pub extend : ℕ → Session → Option ℕ → Hub → Hub
extend p s none h = h
extend p s (some unix) h = set_session p (set_expiry unix s) h

abbrev pub rebind : Env → ℕ → Session → Verdict → Hub → Hub
rebind env p s (rejected e) h = send_error env err_unauthorized (reason_text e.reason) p h
rebind env p s (accepted c) h =
    if not (same_identity c s.claims)
    then close_at close_protocol "refresh identity mismatch" p h
    else extend p s c.expires_at h

abbrev refresh_session : Env → String → ℕ → Option Session → Hub → Hub
refresh_session env raw p none h = h
refresh_session env raw p (some s) h =
    if str_eq raw ""
    then send_error env err_unauthorized "empty refresh token" p h
    else rebind env p s (verify env.parse raw) h

unfoldable pub refresh : Env → String → ℕ → Hub → Hub
refresh env raw p h = refresh_session env raw p (get p h.sessions) h

abbrev or_empty : Option String → String
or_empty none = ""
or_empty (some t) = t

abbrev token_in : (List ℕ → Option String) → List ℕ → String
token_in unmarshal [] = ""
token_in unmarshal (b ∷ bs) = or_empty (unmarshal (b ∷ bs))

unfoldable pub refresh_token : Env → Envelope → String
refresh_token env e = token_in env.json.unmarshal_token e.payload

-- The server installs the refresher.
unfoldable pub on_frame : Env → ℕ → ℕ → Envelope → List ℕ → Hub → Hub
on_frame env now p e raw h =
    if str_eq e.type type_msg || str_eq e.type type_ack
    then route env now raw p h
    else if str_eq e.type type_auth_refresh
    then refresh env (refresh_token env e) p h
    else h

abbrev pub dispatch : Env → ℕ → ℕ → List ℕ → Decoded → Hub → Hub × Bool
dispatch env now p raw (decoded e) h = (on_frame env now p e raw h, false)
dispatch env now p raw (undecodable err) h = (close_at close_protocol "protocol error" p h, true)

-- One turn of the read pump. The Boolean is a protocol violation: the hook is called, the pump ends.
unfoldable pub receive : Env → ℕ → ℕ → List ℕ → Hub → Hub × Bool
receive env now p raw h = dispatch env now p raw (decode env.json raw env.max_message_bytes) h
