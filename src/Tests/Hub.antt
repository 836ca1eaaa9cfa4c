-- ===== src/Tests/Hub.antt =====
-- A relay instance with the two ends of one pair, and a session of another pair.
use secure_gateway.Common.{
  ℕ, ◌≡◌, ◌⊎◌, ◌↔◌, ◌≤◌, refl, String, true, false, none, some, List, [], ◌∷◌, arith, string_key,
  nat_key, eq_iff, length, same, eq_of_same, ap, ◌∙◌, Bool-cases, inl, inr,
}
use secure_gateway.Common.Table.{get}
use secure_gateway.Token.{Claims, parsed}
use secure_gateway.Backplane.{slot_key, Entry, new_backplane, RevocationEvent}
use secure_gateway.Backplane.Slots.{holder}
use secure_gateway.Relay.Protocol.{Json, Envelope, pos, decode, decoded, type_msg}
use secure_gateway.Relay.Protocol.Accepts.{IsSound, decode_iff}
use secure_gateway.Relay.Session.{Session}
use secure_gateway.Relay.Hub.{Env, Hub, slot_of, route, revoke, register, deregister}
use secure_gateway.Relay.Hub.Evolution.{Evolves}
use secure_gateway.Relay.Hub.Index.{WellIndexed}
use secure_gateway.Relay.Hub.Route.{route-isolated}
use secure_gateway.Relay.Hub.Scope.{IsMeant, revoke-closes, revoke-spares}
use secure_gateway.Relay.Frames.{refresh}
use secure_gateway.Relay.Frames.Identity.{Rebinds, refresh-identity}
use secure_gateway.Relay.Life.{
  registers, revokes, Steps, here, then_step, reachable-WellIndexed, Steps-Evolves,
}
use secure_gateway.Relay.Life.Takeover.{superseded-deregister, register-holds, register-supersedes}

abbrev claims_of : String → String → Claims
claims_of pair role = record {
  issuer = "auth";
  audience = "relay" ∷ [];
  subject = "device:d";
  id = "jti";
  issued_at = some 1;
  expires_at = some 900;
  account_id = "acct";
  pair_id = pair;
  device_id = "d";
  role = role;
  license_id = "lic";
}

abbrev message_1 : Envelope
message_1 = record { v = pos 1; type = type_msg; id = "m1"; ts = pos 5; payload = 9 ∷ [] }

abbrev test_json : Json
test_json = record {
  unmarshal = λ raw. some message_1;
  marshal = λ e. some (0 ∷ []);
  marshal_body = λ b. some [];
  unmarshal_token = λ raw. some "token";
}

abbrev pub relay_env : Env
relay_env = record {
  json = test_json;
  parse = λ raw. parsed true (claims_of "pair" "mobile");
  uuid = λ n. "id";
  millis = λ n. pos n;
  pick = λ n. false;
  max_message_bytes = 64;
}

abbrev pub session_of : String → String → String → Session
session_of conn pair role = record {
  id = conn;
  claims = claims_of pair role;
  out_queue_size = 4;
  out = [];
  cancelled = false;
  closed = none;
  expiry = 500;
  refreshed = false;
  renewer = true;
}

abbrev pub phone : Session
phone = session_of "c1" "pair" "mobile"

abbrev pub desk : Session
desk = session_of "c2" "pair" "desktop"

abbrev stranger : Session
stranger = session_of "c3" "other" "desktop"

abbrev entry_1 : Entry
entry_1 = record { conn_id = "c1"; instance_id = "one"; expires_at = 50 }

abbrev pub hub_1 : Hub
hub_1 = record {
  instance_id = "one";
  local = (slot_of phone, 1) ∷ (slot_of desk, 2) ∷ (slot_of stranger, 3) ∷ [];
  sessions = (1, phone) ∷ (2, desk) ∷ (3, stranger) ∷ [];
  bp = record (new_backplane 60 4) { slots = (slot_of phone, entry_1) ∷ [] };
  drawn = 0;
}

pub hub_1-at :
    (get 1 hub_1.sessions ≡ some phone)
    × (get 2 hub_1.sessions ≡ some desk)
    × (get 3 hub_1.sessions ≡ some stranger)
unfolding get
hub_1-at = (refl, refl, refl)

pub hub_1-index :
    (get (slot_of phone) hub_1.local ≡ some 1) × (get (slot_of desk) hub_1.local ≡ some 2)
unfolding get
hub_1-index = (refl, refl)

hub_1-WellIndexed : WellIndexed hub_1
unfolding get
hub_1-WellIndexed k p h = elim (Bool-cases (same (slot_of phone) k)) [
  | inl a ↦
      let at : p ≡ 1 = ground arith in
      (phone, ap (λ i. get i hub_1.sessions) at ∙ hub_1-at.0, eq_of_same (slot_of phone) k a)
  | inr a' ↦ elim (Bool-cases (same (slot_of desk) k)) [
    | inl b ↦
        let at : p ≡ 2 = ground arith in
        (desk, ap (λ i. get i hub_1.sessions) at ∙ hub_1-at.1, eq_of_same (slot_of desk) k b)
    | inr b' ↦ elim (Bool-cases (same (slot_of stranger) k)) [
      | inl c ↦
          let at : p ≡ 3 = ground arith in
          (
            stranger,
            ap (λ i. get i hub_1.sessions) at ∙ hub_1-at.2,
            eq_of_same (slot_of stranger) k c,
          )
      | inr c' ↦ absurd (ground arith)
    ]
  ]
]

route-isolated_example : get 3 (route relay_env 10 (4 ∷ []) 1 hub_1).sessions ≡ some stranger
route-isolated_example =
    route-isolated relay_env 10 (4 ∷ []) 1 phone hub_1 hub_1-WellIndexed hub_1-at.0 3 stranger
      hub_1-at.2 (ground arith) (λ e. ground (arith, eq_iff "other" "pair", e))

abbrev event_1 : RevocationEvent
event_1 = record { pair_id = "pair"; account_id = "" }

-- An event of an account.
abbrev account_event : RevocationEvent
account_event = record { pair_id = ""; account_id = "acct" }

revoke-closes_example :
    ((phone.closed ≡ none)
      × (get 1 (revoke account_event hub_1).sessions
          ≡ some (record phone { cancelled = true; closed = some (4004, "revoked") })))
    ⊎ ((first : ℕ × String) × (phone.closed ≡ some first)
        × (get 1 (revoke account_event hub_1).sessions ≡ some phone))
revoke-closes_example =
    revoke-closes account_event hub_1 (slot_of phone) 1 phone hub_1-index.0 hub_1-at.0
      (inr (ground (arith, eq_iff "acct" ""), refl))

spared : ¬ IsMeant event_1 stranger
spared = ground (arith, eq_iff "other" "pair", eq_iff "" "")

revoke-spares_example : get 3 (revoke event_1 hub_1).sessions ≡ some stranger
revoke-spares_example = revoke-spares event_1 hub_1 3 stranger hub_1-at.2 spared

abbrev newer : Session
newer = session_of "c9" "pair" "mobile"

free_4 : get 4 hub_1.sessions ≡ none
unfolding get
free_4 = refl

register-holds_example :
    (get (slot_of newer) (register relay_env 10 4 newer hub_1).local ≡ some 4)
    × (holder (register relay_env 10 4 newer hub_1).bp (slot_of newer) ≡ some "c9")
register-holds_example = register-holds relay_env 10 4 newer hub_1

held_1 : get (slot_of newer) hub_1.bp.slots ≡ some entry_1
unfolding get
held_1 = refl

register-supersedes_example :
    (t' : Session) × (get 1 (register relay_env 10 4 newer hub_1).sessions ≡ some t')
    × (t'.closed ≡ some (4001, "connected elsewhere"))
register-supersedes_example =
    register-supersedes relay_env 10 4 1 newer phone entry_1 hub_1 free_4 hub_1-index.0 hub_1-at.0
      refl held_1 (omega arith) refl refl (ground (arith, eq_iff "c1" "c9"))
      (ground (arith, eq_iff "c1" ""))

superseded-deregister_example :
    let h = register relay_env 10 4 newer hub_1 in
    (deregister relay_env 1 h ≡ h)
    × (get (slot_of newer) (deregister relay_env 1 h).local ≡ some 4)
    × (holder (deregister relay_env 1 h).bp (slot_of newer) ≡ some "c9")
superseded-deregister_example =
    superseded-deregister relay_env 10 4 1 newer phone hub_1 free_4 hub_1-at.0 refl
      (ground (arith, eq_iff "c1" "c9"))

abbrev pub empty_hub : Hub
empty_hub = record {
  instance_id = "one";
  local = [];
  sessions = [];
  bp = new_backplane 60 4;
  drawn = 0;
}

abbrev after_1 : Hub
after_1 = revoke event_1 (register relay_env 10 1 phone empty_hub)

free_1 : get 1 empty_hub.sessions ≡ none
unfolding get
free_1 = refl

run_1 : Steps relay_env empty_hub after_1
run_1 =
    then_step (registers 10 1 phone empty_hub free_1)
      (then_step (revokes event_1 (register relay_env 10 1 phone empty_hub)) (here after_1))

reachable-WellIndexed_example : WellIndexed after_1
reachable-WellIndexed_example = reachable-WellIndexed relay_env empty_hub after_1 refl run_1

Steps-Evolves_example :
    (s' : Session) × (get 1 (revoke event_1 hub_1).sessions ≡ some s') × Evolves phone s'
Steps-Evolves_example =
    Steps-Evolves relay_env hub_1 (revoke event_1 hub_1) 1 phone
      (then_step (revokes event_1 hub_1) (here (revoke event_1 hub_1))) hub_1-at.0

refresh-identity_example :
    (s' : Session) × (get 1 (refresh relay_env "token" 1 hub_1).sessions ≡ some s')
    × (s'.claims ≡ phone.claims)
    × ((s'.expiry ≡ phone.expiry) ⊎ Rebinds relay_env "token" phone s'.expiry)
refresh-identity_example = refresh-identity relay_env "token" 1 hub_1 phone hub_1-at.0

abbrev raw_1 : List ℕ
raw_1 = 1 ∷ []

decode_iff_example : (decode test_json raw_1 relay_env.max_message_bytes ≡ decoded message_1) ↔ (
    ((relay_env.max_message_bytes ≡ 0) ⊎ (length raw_1 ≤ relay_env.max_message_bytes))
    × (test_json.unmarshal raw_1 ≡ some message_1)
    × IsSound message_1)
decode_iff_example = decode_iff test_json raw_1 relay_env.max_message_bytes message_1
