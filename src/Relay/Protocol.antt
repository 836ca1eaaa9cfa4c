-- ===== src/Relay/Protocol.antt =====
-- internal/relay/protocol/protocol.go: the envelope of the wire. The bytes of JSON are a parameter.
pub mod Accepts
use secure_gateway.Common.{
  ℕ, String, str_eq, Bool, true, false, ◌&&◌, ◌||◌, not, Option, none, some, List, nat_eq, ltb,
  length, if◌then◌else◌,
}

-- A Go integer (v, and the int64 ts): `negsuc n` is -(n + 1).
pub data ℤ : Type 0 where
  pos : ℕ → ℤ
  negsuc : ℕ → ℤ

abbrev pub type_msg : String
type_msg = "msg"

abbrev pub type_ack : String
type_ack = "ack"

abbrev pub type_auth_refresh : String
type_auth_refresh = "auth_refresh"

abbrev pub type_error : String
type_error = "error"

abbrev pub type_sys : String
type_sys = "sys"

abbrev pub sys_peer_online : String
sys_peer_online = "peer_online"

abbrev pub sys_peer_offline : String
sys_peer_offline = "peer_offline"

abbrev pub sys_shutdown : String
sys_shutdown = "shutdown"

abbrev pub err_peer_offline : String
err_peer_offline = "peer_offline"

abbrev pub err_unauthorized : String
err_unauthorized = "unauthorized"

abbrev pub close_superseded : ℕ
close_superseded = 4001

abbrev pub close_token_expired : ℕ
close_token_expired = 4003

abbrev pub close_revoked : ℕ
close_revoked = 4004

abbrev pub close_protocol : ℕ
close_protocol = 4005

pub record Envelope : Type 0 where
  pub v : ℤ
  pub type : String
  pub id : String
  pub ts : ℤ
  pub payload : List ℕ

-- A sys message has a kind, an error message a code; the payload is one of these two texts and a detail.
pub data Body : Type 0 where
  system : String → String → Body
  error_body : String → String → Body

-- json.Marshal and json.Unmarshal; `none` is their error.
pub record Json : Type 0 where
  pub unmarshal : List ℕ → Option Envelope
  pub marshal : Envelope → Option (List ℕ)
  pub marshal_body : Body → Option (List ℕ)
  pub unmarshal_token : List ℕ → Option String

pub data DecodeError : Type 0 where
  oversize malformed_envelope unsupported_version unknown_type missing_id : DecodeError

pub data Decoded : Type 0 where
  decoded : Envelope → Decoded
  undecodable : DecodeError → Decoded

abbrev pub is_version : ℤ → Bool
is_version (pos n) = nat_eq n 1
is_version (negsuc n) = false

abbrev pub known_type : String → Bool
known_type t =
    str_eq t type_msg
    || str_eq t type_ack
    || str_eq t type_auth_refresh
    || str_eq t type_error
    || str_eq t type_sys

unfoldable pub validate : Envelope → Option DecodeError
validate e =
    if not (is_version e.v)
    then some unsupported_version
    else if not (known_type e.type)
    then some unknown_type
    else if str_eq e.id ""
    then some missing_id
    else none

abbrev checked : Envelope → Option DecodeError → Decoded
checked e none = decoded e
checked e (some err) = undecodable err

abbrev pub decode_parsed : Option Envelope → Decoded
decode_parsed none = undecodable malformed_envelope
decode_parsed (some e) = checked e (validate e)

-- A limit of 0 stands for every limit that is not positive: no check.
unfoldable pub decode : Json → List ℕ → ℕ → Decoded
decode json raw max_bytes =
    if ltb 0 max_bytes && ltb max_bytes (length raw)
    then undecodable oversize
    else decode_parsed (json.unmarshal raw)

abbrev envelope_of : String → String → ℤ → Option (List ℕ) → Option Envelope
envelope_of type id ts none = none
envelope_of type id ts (some body) =
    some (record { v = pos 1; type = type; id = id; ts = ts; payload = body })

unfoldable pub new_sys : Json → String → ℤ → String → String → Option Envelope
new_sys json id ts kind detail = envelope_of type_sys id ts (json.marshal_body (system kind detail))

unfoldable pub new_error : Json → String → ℤ → String → String → Option Envelope
new_error json id ts code detail =
    envelope_of type_error id ts (json.marshal_body (error_body code detail))

-- The JSON of an envelope that could be made.
abbrev pub encode : Json → Option Envelope → Option (List ℕ)
encode json none = none
encode json (some e) = json.marshal e
