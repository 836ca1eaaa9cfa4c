-- ===== src/Relay/Life/Handover.antt =====
-- A connection on another instance takes a slot: the old instance is told and closes its session.
use secure_gateway.Common.{
  ℕ, ◌+◌, ◌<◌, ◌≡◌, ◌≢◌, ◌∙◌, refl, ap, true, none, some, List, [], ◌∷◌, ◌++◌, length, string_key,
  nat_key, nat_eq_iff,
}
use secure_gateway.Common.Table.{get}
use secure_gateway.Backplane.{Entry, SlotKey, slot_key, not_slot_owner, renew_slot, lookup_instance}
use secure_gateway.Backplane.Slots.{claim_displaces, renew_refused}
use secure_gateway.Relay.Protocol.{close_superseded}
use secure_gateway.Relay.Session.{Session}
use secure_gateway.Relay.Hub.{Env, Hub, slot_of, register, evict_local}
use secure_gateway.Relay.Hub.Scope.{close_at-get, close_with-closed}
use secure_gateway.Relay.Life.Takeover.{register-bp, register-holds}

evict_local-closes :
    (key : SlotKey) (q : ℕ) (t : Session) (g : Hub)
    → get key g.local ≡ some q
    → get q g.sessions ≡ some t
    → t.closed ≡ none
    → get q (evict_local key g).sessions
      ≡ some (record t { cancelled = true; closed = some (4001, "connected elsewhere") })
unfolding evict_local
evict_local-closes key q t g at there live = rw at (
    close_at-get close_superseded "connected elsewhere" q q g t there
    ∙ rw ((nat_eq_iff q q).1 refl)
        (ap some (close_with-closed close_superseded "connected elsewhere" t live)))

-- A connection moves between instances. When a session registers on one instance while its slot is
-- live for another connection of another instance, which listens with room in its channel, then: one
-- key is put at the end of that channel, and the other instance's hub, when it takes the key, closes
-- the open session it has indexed for the slot with 4001 "connected elsewhere"; and until the lifetime
-- of the new claim ends, a renewal by the old connection is refused and changes nothing, and the slot
-- leads to the new instance.
pub register-evicts :
    (env : Env) (now later p q : ℕ) (s t : Session) (h g : Hub) (cur : Entry) (keys : List SlotKey)
    → get (slot_of s) h.bp.slots ≡ some cur
    → now < cur.expires_at
    → cur.conn_id ≢ s.id
    → cur.instance_id ≢ h.instance_id
    → get cur.instance_id h.bp.evictions ≡ some keys
    → length keys < h.bp.qsize
    → later < now + h.bp.ttl
    → get (slot_of s) g.local ≡ some q
    → get q g.sessions ≡ some t
    → t.closed ≡ none
    → let b = (register env now p s h).bp in
      (key : SlotKey) × (get cur.instance_id b.evictions ≡ some (keys ++ key ∷ []))
      × (get q (evict_local key g).sessions
          ≡ some (record t { cancelled = true; closed = some (4001, "connected elsewhere") }))
      × (renew_slot later (slot_of s) cur.conn_id b ≡ (b, some not_slot_owner))
      × (lookup_instance later (slot_of s) b ≡ h.instance_id)
register-evicts env now later p q s t h g cur keys held live other away listens room soon at there
      open_now =
    let bp = register-bp env now p s h in
    let (c, r, told, leads) =
      claim_displaces now later (slot_of s) s.id h.instance_id h.bp cur keys held live other away
        listens room soon in
    (
      slot_of s,
      ap (λ b. get cur.instance_id b.evictions) bp ∙ told,
      evict_local-closes (slot_of s) q t g at there open_now,
      renew_refused later (slot_of s) cur.conn_id s.id _ (register-holds env now p s h).1 other,
      ap (lookup_instance later (slot_of s)) bp ∙ leads,
    )
