-- ===== src/Tests/Far.antt =====
-- Two relay instances, each with one end of a pair.
use secure_gateway.Common.{
  ◌≡◌, ◌⊎◌, refl, true, some, [], ◌∷◌, arith, string_key, nat_key, eq_iff, inl,
}
use secure_gateway.Common.Table.{get}
use secure_gateway.Backplane.{
  slot_key, SlotKey, Entry, RoutedFrame, new_backplane, publish, renew_slot, not_slot_owner,
  lookup_instance,
}
use secure_gateway.Relay.Session.{Session}
use secure_gateway.Relay.Hub.{Hub, slot_of, route, register, deliver_local, evict_local}
use secure_gateway.Relay.Hub.Route.{route-addressed, IsElsewhere, slot}
use secure_gateway.Relay.Hub.Crossing.{route-crosses}
use secure_gateway.Relay.Life.Handover.{register-evicts}
use secure_gateway.Tests.Hub.{relay_env, session_of, phone, desk, hub_1}

-- The desktop is on another instance, which listens.
abbrev far_entry : Entry
far_entry = record { conn_id = "c2"; instance_id = "two"; expires_at = 50 }

abbrev near_hub : Hub
near_hub = record hub_1 {
  local = (slot_of phone, 1) ∷ [];
  bp = record (new_backplane 60 4) {
    slots = (slot_of desk, far_entry) ∷ [];
    frames = ("two", []) ∷ [];
  };
}

abbrev far_hub : Hub
far_hub = record hub_1 { instance_id = "two"; local = (slot_of desk, 2) ∷ [] }

near_hub-at :
    (get 1 near_hub.sessions ≡ some phone)
    × (get "two" near_hub.bp.frames ≡ some [])
    × (get (slot "pair" "desktop") far_hub.local ≡ some 2)
    × (get 2 far_hub.sessions ≡ some desk)
unfolding get
near_hub-at = (refl, refl, refl, refl)

desk-IsElsewhere : IsElsewhere 10 (slot "pair" "desktop") near_hub far_entry
unfolding get
desk-IsElsewhere = record {
  not_here = refl;
  held = refl;
  live = omega arith;
  named = ground (arith, eq_iff "two" "");
  away = ground (arith, eq_iff "two" "one");
}

route-addressed_example :
    ((route relay_env 10 (4 ∷ []) 1 near_hub).local ≡ near_hub.local)
    × (((route relay_env 10 (4 ∷ []) 1 near_hub).bp ≡ near_hub.bp)
        ⊎ ((e : Entry) × IsElsewhere 10 (slot "pair" "desktop") near_hub e
            × ((route relay_env 10 (4 ∷ []) 1 near_hub).bp
                ≡ publish e.instance_id
                    (record {
                      pair_id = "pair";
                      to_role = "desktop";
                      from_conn = "c1";
                      payload = 4 ∷ [];
                    })
                    near_hub.bp)))
route-addressed_example =
    route-addressed relay_env 10 (4 ∷ []) 1 phone near_hub "desktop" near_hub-at.0
      (inl (refl, refl))

route-crosses_example :
    (f : RoutedFrame) × (get "two" (route relay_env 10 (4 ∷ []) 1 near_hub).bp.frames
      ≡ some (f ∷ []))
    × (get 2 (deliver_local relay_env f far_hub).sessions
        ≡ some (record desk { out = (4 ∷ []) ∷ [] }))
unfolding new_backplane
route-crosses_example =
    route-crosses relay_env relay_env 10 (4 ∷ []) 1 2 phone desk near_hub far_hub "desktop"
      far_entry [] near_hub-at.0 (inl (refl, refl)) desk-IsElsewhere near_hub-at.1 (omega arith)
      near_hub-at.2 near_hub-at.3 refl (omega arith)

-- The desktop comes back on the first instance.
abbrev back : Session
back = session_of "c8" "pair" "desktop"

abbrev home : Hub
home = record near_hub {
  bp = record (new_backplane 60 4) {
    slots = (slot_of desk, far_entry) ∷ [];
    evictions = ("two", []) ∷ [];
  };
}

home-at :
    (get (slot_of back) home.bp.slots ≡ some far_entry)
    × (get "two" home.bp.evictions ≡ some [])
    × (get (slot_of back) far_hub.local ≡ some 2)
unfolding get
home-at = (refl, refl, refl)

register-evicts_example :
    let b = (register relay_env 10 5 back home).bp in
    (key : SlotKey) × (get "two" b.evictions ≡ some (key ∷ []))
    × (get 2 (evict_local key far_hub).sessions
        ≡ some (record desk { cancelled = true; closed = some (4001, "connected elsewhere") }))
    × (renew_slot 20 (slot_of back) "c2" b ≡ (b, some not_slot_owner))
    × (lookup_instance 20 (slot_of back) b ≡ "one")
unfolding new_backplane
register-evicts_example =
    register-evicts relay_env 10 20 5 2 back desk home far_hub far_entry [] home-at.0 (omega arith)
      (ground (arith, eq_iff "c2" "c8")) (ground (arith, eq_iff "two" "one")) home-at.1
      (omega arith) (omega arith) home-at.2 near_hub-at.3 refl
