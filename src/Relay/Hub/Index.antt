-- ===== src/Relay/Hub/Index.antt =====
-- Everything that can happen to an instance, and what holds throughout.
use secure_gateway.Common.{
  ℕ, ◌≡◌, ◌∙◌, sym, ap, inl, inr, String, Option, none, some, List, [], ◌∷◌, arith, nat_key,
  Option-cases, Bool-cases,
}
use secure_gateway.Common.Table.{get, remove, get-remove}
use secure_gateway.Backplane.{SlotKey, slot_key, RoutedFrame, RevocationEvent}
use secure_gateway.Relay.Session.{Session}
use secure_gateway.Relay.Hub.{
  Env, Hub, slot_of, peer_of, deregister, deliver_local, revoke_each, evict_local, notify_each,
  close_each, close_at, send_sys, points_to, tell_offline, scoped, enqueue_opt, evict_found,
}
use secure_gateway.Token.{Claims}
use secure_gateway.Backplane.{release_slot}
use secure_gateway.Relay.Protocol.{sys_peer_offline, sys_shutdown, close_revoked, close_superseded}
use secure_gateway.Relay.Hub.Evolution.{
  Touches, Evolves, Evolves-refl, Evolves-trans, close_at-Touches, enqueue_at-Touches,
  send_sys-Touches,
}

-- Every indexed pointer is a session of that pair and role.
abbrev pub WellIndexed : Hub → Type 0
WellIndexed h =
    (k : SlotKey) (p : ℕ)
    → get k h.local ≡ some p
    → (s : Session) × (get p h.sessions ≡ some s) × (slot_of s ≡ k)

pub Evolves-slot : (s s' : Session) → Evolves s s' → slot_of s' ≡ slot_of s
Evolves-slot s s' v =
    ap (λ (c : Claims). record { pair_id = c.pair_id; role = c.role }) v.same_claims

-- Every session of the first hub has evolved in the second.
abbrev pub Evolved : Hub → Hub → Type 0
Evolved h h' =
    (q : ℕ) (s : Session)
    → get q h.sessions ≡ some s
    → (s' : Session) × (get q h'.sessions ≡ some s') × Evolves s s'

pub Evolved-refl : (h : Hub) → Evolved h h
Evolved-refl h q s e = (s, e, Evolves-refl s)

pub Evolved-trans : (a b c : Hub) → Evolved a b → Evolved b c → Evolved a c
Evolved-trans a b c f g q s e =
    let (s1, e1, v1) = f q s e in let (s2, e2, v2) = g q s1 e1 in (s2, e2, Evolves-trans v1 v2)

-- Sessions evolve, and the index at most forgets.
pub record Keeps (h h' : Hub) : Type 0 where
  pub evolved : Evolved h h'
  pub fewer : (k : SlotKey) (p : ℕ) → get k h'.local ≡ some p → get k h.local ≡ some p

pub Keeps-refl : (h : Hub) → Keeps h h
Keeps-refl h = record { evolved = Evolved-refl h; fewer = λ k p e. e }

pub Keeps-trans : (a b c : Hub) → Keeps a b → Keeps b c → Keeps a c
Keeps-trans a b c f g = record {
  evolved = Evolved-trans a b c f.evolved g.evolved;
  fewer = λ k p e. f.fewer k p (g.fewer k p e);
}

pub of_Touches : (P : ℕ → Type 0) (h h' : Hub) → Touches P h h' → Keeps h h'
of_Touches P h h' f = record {
  evolved = f.evolves;
  fewer = λ k p e. sym (ap (get k) f.same_local) ∙ e;
}

pub WellIndexed-kept : (h h' : Hub) → Keeps h h' → WellIndexed h → WellIndexed h'
WellIndexed-kept h h' f well k p e =
    let (s, there, slot) = well k p (f.fewer k p e) in
    let (s', there', v) = f.evolved p s there in (s', there', Evolves-slot s s' v ∙ slot)

abbrev Any : ℕ → Type 0
Any q = Unit {0}

pub close_at-Keeps :
    (code : ℕ) (reason : String) (p : ℕ) (h : Hub) → Keeps h (close_at code reason p h)
close_at-Keeps code reason p h = of_Touches Any h _ (close_at-Touches Any code reason p h tt)

pub send_sys-Keeps :
    (env : Env) (kind detail : String) (p : ℕ) (h : Hub) → Keeps h (send_sys env kind detail p h)
send_sys-Keeps env kind detail p h =
    of_Touches Any h _ (send_sys-Touches Any env kind detail p h tt)

pub deregister-Keeps : (env : Env) (p : ℕ) (h : Hub) → Keeps h (deregister env p h)
unfolding deregister
deregister-Keeps env p h = elim (Option-cases (get p h.sessions)) [
  | inl e ↦ rw e (Keeps-refl h)
  | inr (s, e) ↦ rw e (elim (Bool-cases (points_to p (get (slot_of s) h.local))) [
    | inl held ↦ rw held (released s)
    | inr lost ↦ rw lost (record { evolved = λ q t e. (t, e, Evolves-refl t); fewer = λ k q e. e })
  ])
]
  where
    released :
        (s : Session)
        → Keeps h (
            tell_offline env (get (peer_of s) (remove (slot_of s) h.local)) (record h {
              local = remove (slot_of s) h.local;
              bp = release_slot (slot_of s) s.id h.bp;
            }))
    released s =
        let h1 : Hub = record h {
          local = remove (slot_of s) h.local;
          bp = release_slot (slot_of s) s.id h.bp;
        } in
        Keeps-trans h h1 _
          (record {
            evolved = λ q t e. (t, e, Evolves-refl t);
            fewer = λ k q e. ground (arith, get-remove (slot_of s) k h.local);
          })
          (told (get (peer_of s) h1.local) h1)
      where
        told : (o : Option ℕ) (h1 : Hub) → Keeps h1 (tell_offline env o h1)
        told none h1 = Keeps-refl h1
        told (some q) h1 = send_sys-Keeps env sys_peer_offline "" q h1

pub revoke_each-Keeps :
    (ev : RevocationEvent) (ps : List ℕ) (h : Hub) → Keeps h (revoke_each ev ps h)
unfolding revoke_each
revoke_each-Keeps ev [] h = Keeps-refl h
revoke_each-Keeps ev (p ∷ ps) h = elim (Bool-cases (scoped ev (get p h.sessions))) [
  | inl hit ↦ rw hit (
      Keeps-trans h (close_at close_revoked "revoked" p h) _
        (close_at-Keeps close_revoked "revoked" p h)
        (revoke_each-Keeps ev ps (close_at close_revoked "revoked" p h)))
  | inr miss ↦ rw miss (revoke_each-Keeps ev ps h)
]

pub close_each-Keeps :
    (code : ℕ) (reason : String) (ps : List ℕ) (h : Hub) → Keeps h (close_each code reason ps h)
unfolding close_each
close_each-Keeps code reason [] h = Keeps-refl h
close_each-Keeps code reason (p ∷ ps) h =
    Keeps-trans h (close_at code reason p h) _ (close_at-Keeps code reason p h)
      (close_each-Keeps code reason ps (close_at code reason p h))

pub notify_each-Keeps :
    (env : Env) (detail : String) (ps : List ℕ) (h : Hub) → Keeps h (notify_each env detail ps h)
unfolding notify_each
notify_each-Keeps env detail [] h = Keeps-refl h
notify_each-Keeps env detail (p ∷ ps) h =
    Keeps-trans h (send_sys env sys_shutdown detail p h) _
      (send_sys-Keeps env sys_shutdown detail p h)
      (notify_each-Keeps env detail ps (send_sys env sys_shutdown detail p h))

pub deliver_local-Keeps : (env : Env) (f : RoutedFrame) (h : Hub) → Keeps h (deliver_local env f h)
unfolding deliver_local
deliver_local-Keeps env f h =
    delivered (get (record { pair_id = f.pair_id; role = f.to_role }) h.local)
  where
    delivered : (o : Option ℕ) → Keeps h (enqueue_opt env f.payload o h)
    delivered none = Keeps-refl h
    delivered (some q) = of_Touches Any h _ (enqueue_at-Touches Any env f.payload q h tt)

pub evict_local-Keeps : (key : SlotKey) (h : Hub) → Keeps h (evict_local key h)
unfolding evict_local
evict_local-Keeps key h = evicted (get key h.local)
  where
    evicted : (o : Option ℕ) → Keeps h (evict_found o h)
    evicted none = Keeps-refl h
    evicted (some p) = close_at-Keeps close_superseded "connected elsewhere" p h
