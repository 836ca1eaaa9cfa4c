-- ===== src/Relay/Hub/Crossing.antt =====
-- A frame goes from one instance to another and reaches the peer there.
use secure_gateway.Common.{
  ℕ, ◌≡◌, ◌<◌, ◌∙◌, sym, ap, String, Bool, true, false, some, List, [], ◌∷◌, ◌++◌, arith, nat_key,
  length, subst, eq_iff, string_key,
}
use secure_gateway.Common.Table.{get, get-put_self}
use secure_gateway.Backplane.{Backplane, slot_key, Entry, RoutedFrame, publish, lookup_instance}
use secure_gateway.Relay.Session.{Session, enqueue}
use secure_gateway.Relay.Hub.{Env, Hub, peer_of, route, frame_for, enqueue_at, deliver_local}
use secure_gateway.Relay.Hub.Route.{IsElsewhere, AreOpposed, slot, opposed-peer}

-- A peer on this instance whose context is not cancelled and whose queue has room gets the frame.
enqueue-room :
    (pick : Bool) (frame : List ℕ) (t : Session)
    → t.cancelled ≡ false
    → length t.out < t.out_queue_size
    → enqueue pick frame t ≡ (record t { out = t.out ++ frame ∷ [] }, true)
unfolding enqueue
enqueue-room pick frame t live room = ground arith

routed-bp :
    (env : Env) (now : ℕ) (raw : List ℕ) (p : ℕ) (s : Session) (h : Hub) (e : Entry)
    → get p h.sessions ≡ some s
    → IsElsewhere now (peer_of s) h e
    → (route env now raw p h).bp ≡ publish e.instance_id (frame_for (peer_of s) s.id raw) h.bp
unfolding route lookup_instance
routed-bp env now raw p s h e there far = ground (
  arith,
  there,
  far.not_here,
  far.held,
  far.live,
  eq_iff e.instance_id "",
  far.named,
  eq_iff e.instance_id h.instance_id,
  far.away,
)

published :
    (name : String) (f : RoutedFrame) (q : List RoutedFrame) (b : Backplane)
    → get name b.frames ≡ some q
    → length q < b.qsize
    → get name (publish name f b).frames ≡ some (q ++ f ∷ [])
unfolding publish
published name f q b at room = ground (arith, at, room, get-put_self name (q ++ f ∷ []) b.frames)

enqueued :
    (env : Env) (frame : List ℕ) (g : Hub) (j : ℕ) (t : Session)
    → get j g.sessions ≡ some t
    → t.cancelled ≡ false
    → length t.out < t.out_queue_size
    → get j (enqueue_at env frame j g).0.sessions ≡ some (record t { out = t.out ++ frame ∷ [] })
unfolding enqueue_at
enqueued env frame g j t there live room =
    rw (there, enqueue-room (env.pick g.drawn) frame t live room)
      (get-put_self j (record t { out = t.out ++ frame ∷ [] }) g.sessions)

delivered :
    (env : Env) (f : RoutedFrame) (g : Hub) (j : ℕ) (t : Session)
    → get (slot f.pair_id f.to_role) g.local ≡ some j
    → get j g.sessions ≡ some t
    → t.cancelled ≡ false
    → length t.out < t.out_queue_size
    → get j (deliver_local env f g).sessions ≡ some (record t { out = t.out ++ f.payload ∷ [] })
unfolding deliver_local
delivered env f g j t at there live room = rw at (enqueued env f.payload g j t there live room)

-- A frame crosses instances. When the sender's peer (its pair, the opposite role) is live on another
-- instance that listens with room in its channel, routing puts one frame at the end of that channel,
-- and the hub that takes this frame and has the peer indexed, not cancelled and with room, puts the
-- sender's bytes at the end of the peer's queue.
pub route-crosses :
    (env far_env : Env) (now : ℕ) (raw : List ℕ) (p j : ℕ) (s t : Session) (h g : Hub)
    (role : String) (e : Entry) (q : List RoutedFrame)
    → get p h.sessions ≡ some s
    → AreOpposed s.claims.role role
    → IsElsewhere now (slot s.claims.pair_id role) h e
    → get e.instance_id h.bp.frames ≡ some q
    → length q < h.bp.qsize
    → get (slot s.claims.pair_id role) g.local ≡ some j
    → get j g.sessions ≡ some t
    → t.cancelled ≡ false
    → length t.out < t.out_queue_size
    → (f : RoutedFrame) × (get e.instance_id (route env now raw p h).bp.frames ≡ some (q ++ f ∷ []))
      × (get j (deliver_local far_env f g).sessions ≡ some (record t { out = t.out ++ raw ∷ [] }))
route-crosses env far_env now raw p j s t h g role e q there ends far listens room at to live fits =
    let f : RoutedFrame = frame_for (peer_of s) s.id raw in
    let peer = opposed-peer s role ends in
    (
      f,
      ap (λ b. get e.instance_id b.frames)
            (routed-bp env now raw p s h e there
              (subst (λ k. IsElsewhere now k h e) (sym peer) far))
          ∙ published e.instance_id f q h.bp listens room,
      delivered far_env f g j t (ap (λ k. get k g.local) peer ∙ at) to live fits,
    )
