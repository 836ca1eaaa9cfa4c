-- ===== src/Relay/Hub.antt =====
-- internal/relay/hub/hub.go: the registry of the connections of one instance. A session is a
-- pointer, a number, and `sessions` is the heap; the sync.Map `local` holds pointers, and its Range
-- visits each entry once. The backplane is the in-memory one, whose claims never fail. Metrics and
-- logs are left out.
pub mod Evolution
pub mod Index
pub mod Route
pub mod Crossing
pub mod Scope
use secure_gateway.Common.{
  ℕ, suc, ◌+◌, String, str_eq, Bool, true, false, ◌&&◌, ◌||◌, not, Option, none, some, List, [],
  ◌∷◌, nat_eq, length, if◌then◌else◌, nat_key,
}
use secure_gateway.Common.Table.{Table, get, put, remove, values}
use secure_gateway.Token.{Claims, Parsed, opposite}
use secure_gateway.Backplane.{
  Backplane, SlotKey, slot_key, ClaimResult, RoutedFrame, RevocationEvent, claim_slot, renew_slot,
  release_slot, lookup_instance, publish, BackplaneError,
}
use secure_gateway.Relay.Protocol.{
  ℤ, Json, Envelope, encode, new_sys, new_error, type_msg, type_ack, type_auth_refresh,
  close_superseded, close_revoked, close_protocol, sys_peer_online, sys_peer_offline, sys_shutdown,
  err_peer_offline, Decoded, decoded, undecodable, decode,
}
use secure_gateway.Relay.Session.{Session, enqueue, close_with, renew}

-- What the hub calls: JSON, the JWT parser, and by the number of a draw the uuids, the clock (for
-- envelopes), and the scheduler's pick in a `select`.
pub record Env : Type 0 where
  pub json : Json
  pub parse : String → Parsed
  pub uuid : ℕ → String
  pub millis : ℕ → ℤ
  pub pick : ℕ → Bool
  pub max_message_bytes : ℕ

pub record Hub : Type 0 where
  pub instance_id : String
  pub local : Table SlotKey ℕ
  pub sessions : Table ℕ Session
  pub bp : Backplane
  pub drawn : ℕ

abbrev pub slot_of : Session → SlotKey
slot_of s = record { pair_id = s.claims.pair_id; role = s.claims.role }

abbrev pub peer_of : Session → SlotKey
peer_of s = record { pair_id = s.claims.pair_id; role = opposite s.claims.role }

abbrev pub set_session : ℕ → Session → Hub → Hub
set_session p s h = record h { sessions = put p s h.sessions }

abbrev close_found : ℕ → String → ℕ → Option Session → Hub → Hub
close_found code reason p none h = h
close_found code reason p (some s) h = set_session p (close_with code reason s) h

-- CloseWith on the session behind a pointer.
unfoldable pub close_at : ℕ → String → ℕ → Hub → Hub
close_at code reason p h = close_found code reason p (get p h.sessions) h

abbrev enqueue_found : Bool → List ℕ → ℕ → Option Session → Hub → Hub × Bool
enqueue_found pick frame p none h = (h, false)
enqueue_found pick frame p (some s) h =
    let (s', sent) = enqueue pick frame s in
    (set_session p s' (record h { drawn = suc h.drawn }), sent)

-- Enqueue on the session behind a pointer.
unfoldable pub enqueue_at : Env → List ℕ → ℕ → Hub → Hub × Bool
enqueue_at env frame p h = enqueue_found (env.pick h.drawn) frame p (get p h.sessions) h

abbrev pub send_encoded : Env → Option (List ℕ) → ℕ → Hub → Hub
send_encoded env none p h = record h { drawn = suc h.drawn }
send_encoded env (some frame) p h = (enqueue_at env frame p (record h { drawn = suc h.drawn })).0

unfoldable pub send_sys : Env → String → String → ℕ → Hub → Hub
send_sys env kind detail p h =
    send_encoded env
      (encode env.json (new_sys env.json (env.uuid h.drawn) (env.millis h.drawn) kind detail)) p h

unfoldable pub send_error : Env → String → String → ℕ → Hub → Hub
send_error env code detail p h =
    send_encoded env
      (encode env.json (new_error env.json (env.uuid h.drawn) (env.millis h.drawn) code detail)) p h

abbrev pub remote : String → Hub → Bool
remote name h = not (str_eq name "") && not (str_eq name h.instance_id)

abbrev pub announce_to : Env → ℕ → SlotKey → ℕ → Option ℕ → Hub → Hub
announce_to env now peer p (some q) h =
    send_sys env sys_peer_online "" q (send_sys env sys_peer_online "" p h)
announce_to env now peer p none h =
    if remote (lookup_instance now peer h.bp) h then send_sys env sys_peer_online "" p h else h

unfoldable pub announce_presence : Env → ℕ → ℕ → Session → Hub → Hub
announce_presence env now p s h = announce_to env now (peer_of s) p (get (peer_of s) h.local) h

abbrev pub conn_is : String → Option Session → Bool
conn_is conn none = false
conn_is conn (some s) = str_eq s.id conn

abbrev pub supersede : String → Option ℕ → Hub → Hub
supersede conn none h = h
supersede conn (some p) h =
    if conn_is conn (get p h.sessions)
    then close_at close_superseded "connected elsewhere" p h
    else h

abbrev pub supersede_local : SlotKey → ClaimResult → Hub → Hub
supersede_local key res h =
    if not (str_eq res.evicted_conn_id "") && res.evicted_on_this_instance
    then supersede res.evicted_conn_id (get key h.local) h
    else h

-- The session is indexed, and gets its slot renewer.
abbrev pub indexed : SlotKey → ℕ → Session → Hub → Hub
indexed key p s h =
    set_session p (record s { renewer = true }) (record h { local = put key p h.local })

-- A session that has just been made, behind a pointer that is not in use.
unfoldable pub register : Env → ℕ → ℕ → Session → Hub → Hub
register env now p s h =
    let (bp, res) = claim_slot now (slot_of s) s.id h.instance_id h.bp in
    let h1 = record h { bp = bp } in
    if not res.won
    then set_session p (close_with close_superseded "slot in use" s) h1
    else announce_presence env now p s
        (indexed (slot_of s) p s (supersede_local (slot_of s) res h1))

abbrev pub points_to : ℕ → Option ℕ → Bool
points_to p none = false
points_to p (some q) = nat_eq q p

abbrev pub tell_offline : Env → Option ℕ → Hub → Hub
tell_offline env none h = h
tell_offline env (some q) h = send_sys env sys_peer_offline "" q h

-- `CompareAndDelete`, the release of the slot, and the word to the peer.
abbrev deregister_session : Env → ℕ → Option Session → Hub → Hub
deregister_session env p none h = h
deregister_session env p (some s) h =
    let bp = release_slot (slot_of s) s.id h.bp in
    if points_to p (get (slot_of s) h.local)
    then tell_offline env (get (peer_of s) (remove (slot_of s) h.local))
        (record h { local = remove (slot_of s) h.local; bp = bp })
    else record h { bp = bp }

unfoldable pub deregister : Env → ℕ → Hub → Hub
deregister env p h = deregister_session env p (get p h.sessions) h

-- The peer's queue is full: it is dropped, and the sender told.
abbrev relayed : Env → ℕ → ℕ → Hub × Bool → Hub
relayed env q p (h, true) = h
relayed env q p (h, false) =
    send_error env err_peer_offline "" p (close_at close_protocol "write queue overflow" q h)

abbrev pub frame_for : SlotKey → String → List ℕ → RoutedFrame
frame_for peer from raw = record {
  pair_id = peer.pair_id;
  to_role = peer.role;
  from_conn = from;
  payload = raw;
}

abbrev route_to : Env → ℕ → SlotKey → String → List ℕ → ℕ → Option ℕ → Hub → Hub
route_to env now peer from raw p (some q) h = relayed env q p (enqueue_at env raw q h)
route_to env now peer from raw p none h =
    let name = lookup_instance now peer h.bp in
    if remote name h
    then record h { bp = publish name (frame_for peer from raw) h.bp }
    else send_error env err_peer_offline "" p h

abbrev route_from : Env → ℕ → List ℕ → ℕ → Option Session → Hub → Hub
route_from env now raw p none h = h
route_from env now raw p (some s) h =
    route_to env now (peer_of s) s.id raw p (get (peer_of s) h.local) h

unfoldable pub route : Env → ℕ → List ℕ → ℕ → Hub → Hub
route env now raw p h = route_from env now raw p (get p h.sessions) h

abbrev pub enqueue_opt : Env → List ℕ → Option ℕ → Hub → Hub
enqueue_opt env frame none h = h
enqueue_opt env frame (some q) h = (enqueue_at env frame q h).0

unfoldable pub deliver_local : Env → RoutedFrame → Hub → Hub
deliver_local env f h =
    enqueue_opt env f.payload (get (record { pair_id = f.pair_id; role = f.to_role }) h.local) h

-- Is the session in the scope of the event?
abbrev pub in_scope : RevocationEvent → Session → Bool
in_scope ev s =
    (not (str_eq ev.pair_id "") && str_eq s.claims.pair_id ev.pair_id)
    || (not (str_eq ev.account_id "") && str_eq s.claims.account_id ev.account_id)

abbrev pub scoped : RevocationEvent → Option Session → Bool
scoped ev none = false
scoped ev (some s) = in_scope ev s

unfoldable pub revoke_each : RevocationEvent → List ℕ → Hub → Hub
revoke_each ev [] h = h
revoke_each ev (p ∷ ps) h =
    revoke_each ev ps
      (if scoped ev (get p h.sessions) then close_at close_revoked "revoked" p h else h)

unfoldable pub revoke : RevocationEvent → Hub → Hub
revoke ev h = revoke_each ev (values h.local) h

unfoldable pub notify_each : Env → String → List ℕ → Hub → Hub
notify_each env detail [] h = h
notify_each env detail (p ∷ ps) h = notify_each env detail ps (send_sys env sys_shutdown detail p h)

-- The number is how many were told.
unfoldable pub drain_notify : Env → String → Hub → Hub × ℕ
drain_notify env detail h = let ps = values h.local in (notify_each env detail ps h, length ps)

unfoldable pub close_each : ℕ → String → List ℕ → Hub → Hub
close_each code reason [] h = h
close_each code reason (p ∷ ps) h = close_each code reason ps (close_at code reason p h)

unfoldable pub close_all : ℕ → String → Hub → Hub
close_all code reason h = close_each code reason (values h.local) h

abbrev pub evict_found : Option ℕ → Hub → Hub
evict_found none h = h
evict_found (some p) h = close_at close_superseded "connected elsewhere" p h

unfoldable pub evict_local : SlotKey → Hub → Hub
evict_local key h = evict_found (get key h.local) h

abbrev renew_found : ℕ → ℕ → Option Session → Hub → Hub
renew_found now p none h = h
renew_found now p (some s) h =
    let (bp, answer) = renew_slot now (slot_of s) s.id h.bp in
    if s.renewer then set_session p (renew answer s) (record h { bp = bp }) else h

-- The renewal of a heartbeat; the renewer is the hub's closure.
unfoldable pub heartbeat : ℕ → ℕ → Hub → Hub
heartbeat now p h = renew_found now p (get p h.sessions) h
