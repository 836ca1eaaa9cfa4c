-- ===== src/Relay/Life/Register.antt =====
-- A session that registers.
use secure_gateway.Common.{
  ℕ, ◌≡◌, ◌∙◌, refl, sym, ap, inl, inr, String, str_eq, true, false, not, Option, none, some, arith,
  nat_key, nat_eq, nat_eq_iff, same, eq_of_same, Bool-cases, ◌&&◌,
}
use secure_gateway.Common.Table.{get, get-put, get-put_self}
use secure_gateway.Backplane.{
  Backplane, SlotKey, slot_key, ClaimResult, claim_slot, lookup_instance,
}
use secure_gateway.Relay.Session.{Session}
use secure_gateway.Relay.Protocol.{close_superseded, sys_peer_online}
use secure_gateway.Relay.Hub.{
  Env, Hub, slot_of, peer_of, register, supersede, supersede_local, indexed, announce_presence,
  announce_to, conn_is, remote, send_sys,
}
use secure_gateway.Relay.Hub.Index.{
  WellIndexed, Evolved, Evolved-refl, Evolved-trans, Keeps, Keeps-refl, Keeps-trans,
  WellIndexed-kept, Evolves-slot, close_at-Keeps, send_sys-Keeps,
}

supersede-Keeps : (conn : String) (o : Option ℕ) (h : Hub) → Keeps h (supersede conn o h)
supersede-Keeps conn none h = Keeps-refl h
supersede-Keeps conn (some p) h = elim (Bool-cases (conn_is conn (get p h.sessions))) [
  | inl old ↦ rw old (close_at-Keeps close_superseded "connected elsewhere" p h)
  | inr other ↦ rw other (Keeps-refl h)
]

supersede_local-Keeps :
    (key : SlotKey) (res : ClaimResult) (h : Hub) → Keeps h (supersede_local key res h)
supersede_local-Keeps key res h =
    elim (Bool-cases (not (str_eq res.evicted_conn_id "") && res.evicted_on_this_instance)) [
      | inl old ↦ rw old (supersede-Keeps res.evicted_conn_id (get key h.local) h)
      | inr fresh ↦ rw fresh (Keeps-refl h)
    ]

pub announce_presence-Keeps :
    (env : Env) (now p : ℕ) (s : Session) (h : Hub) → Keeps h (announce_presence env now p s h)
unfolding announce_presence
announce_presence-Keeps env now p s h = announced (get (peer_of s) h.local)
  where
    announced : (o : Option ℕ) → Keeps h (announce_to env now (peer_of s) p o h)
    announced (some q) =
        Keeps-trans h (send_sys env sys_peer_online "" p h) _
          (send_sys-Keeps env sys_peer_online "" p h)
          (send_sys-Keeps env sys_peer_online "" q (send_sys env sys_peer_online "" p h))
    announced none = elim (Bool-cases (remote (lookup_instance now (peer_of s) h.bp) h)) [
      | inl far ↦ rw far (send_sys-Keeps env sys_peer_online "" p h)
      | inr near ↦ rw near (Keeps-refl h)
    ]

-- A pointer that is not in use has another number than one that is.
pub elsewhere_than :
    (p q : ℕ) (s : Session) (h : Hub)
    → get p h.sessions ≡ none
    → get q h.sessions ≡ some s
    → nat_eq p q ≡ false
elsewhere_than p q s h free e = elim (Bool-cases (nat_eq p q)) [
  | inl hit ↦ absurd (ground (arith, ap (λ i. get i h.sessions) ((nat_eq_iff p q).0 hit)))
  | inr miss ↦ miss
]

module _ (p : ℕ) (s : Session) (h h2 : Hub) (free : get p h.sessions ≡ none) (f : Keeps h h2) where
  pub indexed-Evolved : Evolved h (indexed (slot_of s) p s h2)
  indexed-Evolved q t e =
      let (t2, e2, v) = f.evolved q t e in
      let away = elsewhere_than p q t h free e in (t2, rw (get-put, away) e2, v)

  indexed-WellIndexed : WellIndexed h → WellIndexed (indexed (slot_of s) p s h2)
  indexed-WellIndexed well k q e = elim (Bool-cases (same (slot_of s) k)) [
    | inl mine ↦
        let at : p ≡ q = ground (arith, get-put (slot_of s) k p h2.local) in
        (
          record s { renewer = true },
          ap (λ i. get i (indexed (slot_of s) p s h2).sessions) (sym at)
              ∙ get-put_self p (record s { renewer = true }) h2.sessions,
          eq_of_same (slot_of s) k mine,
        )
    | inr other ↦
        let there : get k h2.local ≡ some q = ground (arith, get-put (slot_of s) k p h2.local) in
        let (t, e1, slot) = well k q (f.fewer k q there) in
        let (t2, e2, v) = f.evolved q t e1 in
        let away = elsewhere_than p q t h free e1 in
        (t2, rw (get-put, away) e2, Evolves-slot t t2 v ∙ slot)
  ]

-- What the session finds when it is indexed.
abbrev pub claimed : ℕ → Session → Hub → Hub
claimed now s h =
    let (bp, res) = claim_slot now (slot_of s) s.id h.instance_id h.bp in
    supersede_local (slot_of s) res (record h { bp = bp })

pub claimed-Keeps : (now : ℕ) (s : Session) (h : Hub) → Keeps h (claimed now s h)
claimed-Keeps now s h =
    let (bp, res) = claim_slot now (slot_of s) s.id h.instance_id h.bp in
    Keeps-trans h (record h { bp = bp }) _ (record { evolved = Evolved-refl h; fewer = λ k p e. e })
      (supersede_local-Keeps (slot_of s) res (record h { bp = bp }))

-- A claim is always won.
claim_slot-won :
    (now : ℕ) (key : SlotKey) (conn name : String) (b : Backplane)
    → (claim_slot now key conn name b).1.won ≡ true
unfolding claim_slot
claim_slot-won now key conn name b = ground arith

pub register-steps :
    (env : Env) (now p : ℕ) (s : Session) (h : Hub)
    → register env now p s h
      ≡ announce_presence env now p s (indexed (slot_of s) p s (claimed now s h))
unfolding register
register-steps env now p s h = rw (claim_slot-won now (slot_of s) s.id h.instance_id h.bp) refl

module _ (env : Env) (now p : ℕ) (s : Session) (h : Hub) (free : get p h.sessions ≡ none) where
  pub register-Evolved : Evolved h (register env now p s h)
  register-Evolved =
      let h3 = indexed (slot_of s) p s (claimed now s h) in
      rw (register-steps env now p s h) (
        Evolved-trans h h3 (announce_presence env now p s h3)
          (indexed-Evolved p s h (claimed now s h) free (claimed-Keeps now s h))
          (announce_presence-Keeps env now p s h3).evolved)

  pub register-WellIndexed : WellIndexed h → WellIndexed (register env now p s h)
  register-WellIndexed well =
      let h3 = indexed (slot_of s) p s (claimed now s h) in
      rw (register-steps env now p s h) (
        WellIndexed-kept h3 (announce_presence env now p s h3)
          (announce_presence-Keeps env now p s h3)
          (indexed-WellIndexed p s h (claimed now s h) free (claimed-Keeps now s h) well))
