-- ===== src/Relay/Life/Takeover.antt =====
-- A slot changes hands: the newest connection wins, and the old one does not harm it.
use secure_gateway.Common.{
  ℕ, ◌≡◌, ◌≢◌, ◌<◌, ◌∙◌, refl, sym, ap, inl, inr, String, str_eq, eq_iff, false, not, Option, none,
  some, arith, nat_key, nat_eq, nat_eq_iff, same_refl, Bool-cases, ◌&&◌, string_key,
}
use secure_gateway.Common.Table.{get, get-put, get-put_self}
use secure_gateway.Token.{Claims}
use secure_gateway.Backplane.{
  Entry, SlotKey, slot_key, ClaimResult, claim_slot, release_slot, owned_by, lookup_instance,
}
use secure_gateway.Backplane.Slots.{holder, holder-claim, conn_of}
use secure_gateway.Relay.Session.{Session, close_with}
use secure_gateway.Relay.Protocol.{close_superseded, sys_peer_online}
use secure_gateway.Relay.Hub.{
  Env, Hub, slot_of, peer_of, register, deregister, close_at, supersede, supersede_local, indexed,
  announce_presence, announce_to, conn_is, remote, points_to, send_sys,
}
use secure_gateway.Relay.Hub.Evolution.{
  Touches, Touches-trans, Touches-refl, send_sys-Touches, close_at-Touches,
}
use secure_gateway.Relay.Hub.Scope.{close_at-get, close_with-closed}
use secure_gateway.Relay.Life.Register.{register-steps, register-Evolved, claimed, elsewhere_than}

points_elsewhere : (p : ℕ) (o : Option ℕ) → o ≢ some p → points_to p o ≡ false
points_elsewhere p none away = refl
points_elsewhere p (some q) away = elim (Bool-cases (nat_eq q p)) [
  | inl hit ↦ absurd (away (ap some ((nat_eq_iff q p).0 hit)))
  | inr miss ↦ miss
]

not_owned : (conn : String) (o : Option Entry) → conn_of o ≢ some conn → owned_by conn o ≡ false
not_owned conn none lost = refl
not_owned conn (some cur) lost = elim (Bool-cases (str_eq cur.conn_id conn)) [
  | inl hit ↦ absurd (lost (ap some ((eq_iff cur.conn_id conn).0 hit)))
  | inr miss ↦ miss
]

-- The end of a session that is no longer indexed and no longer holds its slot changes nothing.
ended-deregister :
    (env : Env) (p : ℕ) (s : Session) (h : Hub)
    → get p h.sessions ≡ some s
    → get (slot_of s) h.local ≢ some p
    → holder h.bp (slot_of s) ≢ some s.id
    → deregister env p h ≡ h
unfolding deregister release_slot
ended-deregister env p s h e gone lost =
    rw
      (
        e,
        points_elsewhere p (get (slot_of s) h.local) gone,
        not_owned s.id (get (slot_of s) h.bp.slots) lost,
      )
      refl

abbrev slot_of_claims : Claims → SlotKey
slot_of_claims c = record { pair_id = c.pair_id; role = c.role }

some-injective : {a b : String} → some a ≡ some b → a ≡ b
some-injective h = ground arith

abbrev Any : ℕ → Type 0
Any q = Unit {0}

announced :
    (env : Env) (now p : ℕ) (s : Session) (h : Hub)
    → Touches Any h (announce_presence env now p s h)
unfolding announce_presence
announced env now p s h = told (get (peer_of s) h.local)
  where
    told : (o : Option ℕ) → Touches Any h (announce_to env now (peer_of s) p o h)
    told (some q) =
        Touches-trans Any (send_sys-Touches Any env sys_peer_online "" p h tt)
          (send_sys-Touches Any env sys_peer_online "" q (send_sys env sys_peer_online "" p h) tt)
    told none = elim (Bool-cases (remote (lookup_instance now (peer_of s) h.bp) h)) [
      | inl far ↦ rw far (send_sys-Touches Any env sys_peer_online "" p h tt)
      | inr near ↦ rw near (Touches-refl Any h)
    ]

superseded :
    (key : SlotKey) (res : ClaimResult) (h : Hub) → Touches Any h (supersede_local key res h)
superseded key res h =
    elim (Bool-cases (not (str_eq res.evicted_conn_id "") && res.evicted_on_this_instance)) [
      | inr fresh ↦ rw fresh (Touches-refl Any h)
      | inl old ↦ rw old (closed (get key h.local))
    ]
  where
    closed : (o : Option ℕ) → Touches Any h (supersede res.evicted_conn_id o h)
    closed none = Touches-refl Any h
    closed (some q) = elim (Bool-cases (conn_is res.evicted_conn_id (get q h.sessions))) [
      | inl it ↦ rw it (close_at-Touches Any close_superseded "connected elsewhere" q h tt)
      | inr other ↦ rw other (Touches-refl Any h)
    ]

pub register-bp :
    (env : Env) (now p : ℕ) (s : Session) (h : Hub)
    → (register env now p s h).bp ≡ (claim_slot now (slot_of s) s.id h.instance_id h.bp).0
register-bp env now p s h =
    let (bp, res) = claim_slot now (slot_of s) s.id h.instance_id h.bp in
    let h2 = claimed now s h in
    ap (λ x. x.bp) (register-steps env now p s h)
    ∙ (announced env now p s (indexed (slot_of s) p s h2)).same_bp
    ∙ (superseded (slot_of s) res (record h { bp = bp })).same_bp

-- A session that registers is the one that its instance has indexed for its slot, and it holds the
-- slot on the backplane.
pub register-holds :
    (env : Env) (now p : ℕ) (s : Session) (h : Hub)
    → (get (slot_of s) (register env now p s h).local ≡ some p)
      × (holder (register env now p s h).bp (slot_of s) ≡ some s.id)
register-holds env now p s h =
    let h2 = claimed now s h in
    (
      ap (λ x. get (slot_of s) x.local) (register-steps env now p s h)
          ∙ ap (get (slot_of s)) (announced env now p s (indexed (slot_of s) p s h2)).same_local
          ∙ get-put_self (slot_of s) p h2.local,
      ap (λ b. holder b (slot_of s)) (register-bp env now p s h)
          ∙ holder-claim now (slot_of s) s.id h.instance_id h.bp (slot_of s)
          ∙ rw (same_refl (slot_of s)) refl,
    )

-- A displaced connection ends without harm. When a session registers behind a pointer that is not in
-- use, the end of any other session of the same slot with another connection id then changes nothing
-- at all: the index and the slot stay with the session that registered, and no peer is told that it
-- is offline.
pub superseded-deregister :
    (env : Env) (now p q : ℕ) (s t : Session) (h : Hub)
    → get p h.sessions ≡ none
    → get q h.sessions ≡ some t
    → slot_of t ≡ slot_of s
    → t.id ≢ s.id
    → (deregister env q (register env now p s h) ≡ register env now p s h)
      × (get (slot_of s) (deregister env q (register env now p s h)).local ≡ some p)
      × (holder (deregister env q (register env now p s h)).bp (slot_of s) ≡ some s.id)
superseded-deregister env now p q s t h free there same other =
    let h2 = register env now p s h in
    let (at, holds) = register-holds env now p s h in
    let (t2, there2, v) = register-Evolved env now p s h free q t there in
    let slot : slot_of t2 ≡ slot_of s = ap slot_of_claims v.same_claims ∙ same in
    let kept : deregister env q h2 ≡ h2 =
      ended-deregister env q t2 h2 there2
        (λ e. ground (
          arith,
          sym at ∙ ap (λ k. get k h2.local) (sym slot) ∙ e,
          (nat_eq_iff p q).1,
          elsewhere_than p q t h free there,
        ))
        (λ e.
          other (
            sym v.same_id ∙ sym (some-injective (sym holds ∙ ap (holder h2.bp) (sym slot) ∙ e)))) in
    (
      kept,
      ap (λ x. get (slot_of s) x.local) kept ∙ at,
      ap (λ x. holder x.bp (slot_of s)) kept ∙ holds,
    )

-- When a session registers behind a pointer that is not in use, the connection that its slot had on
-- this same instance, indexed, live on the backplane, with another id that is not empty, and not
-- closed before, is closed with 4001 "connected elsewhere".
pub register-supersedes :
    (env : Env) (now p q : ℕ) (s t : Session) (cur : Entry) (h : Hub)
    → get p h.sessions ≡ none
    → get (slot_of s) h.local ≡ some q
    → get q h.sessions ≡ some t
    → t.closed ≡ none
    → get (slot_of s) h.bp.slots ≡ some cur
    → now < cur.expires_at
    → cur.instance_id ≡ h.instance_id
    → cur.conn_id ≡ t.id
    → t.id ≢ s.id
    → t.id ≢ ""
    → (t' : Session) × (get q (register env now p s h).sessions ≡ some t')
      × (t'.closed ≡ some (4001, "connected elsewhere"))
unfolding claim_slot
register-supersedes env now p q s t cur h free indexed_at there live held alive mine it other
      named =
    let (bp, res) = claim_slot now (slot_of s) s.id h.instance_id h.bp in
    let h1 : Hub = record h { bp = bp } in
    let h2 = claimed now s h in
    let shut : h2 ≡ close_at close_superseded "connected elsewhere" q h1 = ground (
      arith,
      eq_iff cur.conn_id s.id,
      eq_iff cur.conn_id "",
      eq_iff cur.instance_id h.instance_id,
      eq_iff t.id cur.conn_id,
      eq_iff t.id t.id,
    ) in
    let at2 : get q h2.sessions ≡ some (close_with close_superseded "connected elsewhere" t) =
      ap (λ x. get q x.sessions) shut
      ∙ close_at-get close_superseded "connected elsewhere" q q h1 t there
      ∙ rw ((nat_eq_iff q q).1 refl) refl in
    let (t', e, v) =
      (announced env now p s (indexed (slot_of s) p s h2)).evolves q
        (close_with close_superseded "connected elsewhere" t)
        (rw (get-put, elsewhere_than p q t h free there) at2) in
    (
      t',
      ap (λ x. get q x.sessions) (register-steps env now p s h) ∙ e,
      v.closed_kept (4001, "connected elsewhere")
          (ap (λ x. x.closed) (close_with-closed close_superseded "connected elsewhere" t live)),
    )
