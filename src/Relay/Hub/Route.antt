-- ===== src/Relay/Hub/Route.antt =====
-- Where a frame goes that a client sends.
use secure_gateway.Common.{
  ℕ, ◌≡◌, ◌≢◌, ◌<◌, ◌∙◌, refl, sym, ap, ◌⊎◌, inl, inr, String, Bool, true, false, some, List, arith,
  nat_key, Option-cases, Bool-cases, none, subst, eq_iff, string_key, ltb, Option,
}
use secure_gateway.Common.Table.{get}
use secure_gateway.Backplane.{SlotKey, slot_key, Entry, publish, lookup_instance, live_instance}
use secure_gateway.Relay.Protocol.{close_protocol, err_peer_offline}
use secure_gateway.Relay.Session.{Session}
use secure_gateway.Relay.Hub.{
  Env, Hub, slot_of, peer_of, route, relayed, frame_for, enqueue_at, remote,
}
use secure_gateway.Relay.Hub.Evolution.{
  Touches, Touches-trans, enqueue_at-Touches, close_at-Touches, send_error-Touches,
}
use secure_gateway.Relay.Hub.Index.{WellIndexed}

-- The sender, and whoever is indexed as its peer.
abbrev pub Parties : ℕ → Session → Hub → ℕ → Type 0
Parties p s h q = (q ≡ p) ⊎ (get (peer_of s) h.local ≡ some q)

relayed-Touches :
    (P : ℕ → Type 0) (env : Env) (q p : ℕ) (h : Hub) (r : Hub × Bool)
    → P q
    → P p
    → Touches P h r.0
    → Touches P h (relayed env q p r)
relayed-Touches P env q p h (h1, true) hq hp f = f
relayed-Touches P env q p h (h1, false) hq hp f = Touches-trans P f (
    Touches-trans P (close_at-Touches P close_protocol "write queue overflow" q h1 hq)
      (send_error-Touches P env err_peer_offline "" p _ hp))

-- The slot of the peer is live on another instance, and is not indexed here.
pub record IsElsewhere (now : ℕ) (peer : SlotKey) (h : Hub) (e : Entry) : Type 0 where
  pub not_here : get peer h.local ≡ none
  pub held : get peer h.bp.slots ≡ some e
  pub live : now < e.expires_at
  pub named : e.instance_id ≢ ""
  pub away : e.instance_id ≢ h.instance_id

-- Either the two parties alone are touched, or the frame has been published for the peer.
abbrev Routed : ℕ → List ℕ → ℕ → Session → Hub → Hub → Type 0
Routed now raw p s h h' =
    Touches (Parties p s h) h h'
    ⊎ ((e : Entry) × IsElsewhere now (peer_of s) h e
        × (h' ≡ record h { bp = publish e.instance_id (frame_for (peer_of s) s.id raw) h.bp }))

remote-live :
    (now : ℕ) (o : Option Entry) (h : Hub)
    → remote (live_instance now o) h ≡ true
    → (e : Entry) × (o ≡ some e)
      × (now < e.expires_at)
      × (live_instance now o ≡ e.instance_id)
      × (e.instance_id ≢ "")
      × (e.instance_id ≢ h.instance_id)
remote-live now none h far = absurd (ground arith)
remote-live now (some e) h far = elim (Bool-cases (ltb now e.expires_at)) [
  | inl live ↦ (
    e,
    refl,
    ground arith,
    rw live refl,
    ground (arith, eq_iff e.instance_id ""),
    ground (arith, eq_iff e.instance_id h.instance_id),
  )
  | inr gone ↦
      let dead : live_instance now (some e) ≡ "" = rw gone refl in
      let far1 : remote "" h ≡ true = subst (λ n. remote n h ≡ true) dead far in
      absurd (ground arith)
]

remote-IsElsewhere :
    (now : ℕ) (peer : SlotKey) (h : Hub)
    → get peer h.local ≡ none
    → remote (lookup_instance now peer h.bp) h ≡ true
    → (e : Entry) × IsElsewhere now peer h e × (lookup_instance now peer h.bp ≡ e.instance_id)
unfolding lookup_instance
remote-IsElsewhere now peer h none_here far =
    let (e, held, live, at, named, away) = remote-live now (get peer h.bp.slots) h far in
    (e, record { not_here = none_here; held = held; live = live; named = named; away = away }, at)

pub route-Routed :
    (env : Env) (now : ℕ) (raw : List ℕ) (p : ℕ) (s : Session) (h : Hub)
    → get p h.sessions ≡ some s
    → Routed now raw p s h (route env now raw p h)
unfolding route
route-Routed env now raw p s h there = rw there (elim (Option-cases (get (peer_of s) h.local)) [
  | inr (q, e) ↦ rw e (
      inl (
        relayed-Touches (Parties p s h) env q p h (enqueue_at env raw q h) (inr e) (inl refl)
          (enqueue_at-Touches (Parties p s h) env raw q h (inr e))))
  | inl e ↦ elim (Bool-cases (remote (lookup_instance now (peer_of s) h.bp) h)) [
    | inl far ↦
        let (held, elsewhere, at) = remote-IsElsewhere now (peer_of s) h e far in
        rw (e, far)
          (inr (
            held,
            elsewhere,
            ap (λ n. record h { bp = publish n (frame_for (peer_of s) s.id raw) h.bp }) at,
          ))
    | inr near ↦
        rw (e, near)
          (inl (send_error-Touches (Parties p s h) env err_peer_offline "" p h (inl refl)))
  ]
])

-- Where every indexed pointer is a session of that pair and role: a frame that is routed leaves
-- every session exactly as it was, but for the sender and the sessions of the sender's pair in the
-- opposite role.
pub route-isolated :
    (env : Env) (now : ℕ) (raw : List ℕ) (p : ℕ) (s : Session) (h : Hub)
    → WellIndexed h
    → get p h.sessions ≡ some s
    → (q : ℕ) (t : Session) → get q h.sessions ≡ some t
    → q ≢ p
    → slot_of t ≢ peer_of s
    → get q (route env now raw p h).sessions ≡ some t
route-isolated env now raw p s h well there q t e away other =
    elim (route-Routed env now raw p s h there) [
      | inl f ↦
          f.untouched q (λ party. elim party [
            | inl same ↦ away same
            | inr k ↦
                let (u, e1, slot) = well (peer_of s) q k in
                let same : u ≡ t = ground (arith, sym e1 ∙ e) in
                other (ap slot_of (sym same) ∙ slot)
          ])
          ∙ e
      | inr (held, elsewhere, g) ↦ ap (λ x. get q x.sessions) g ∙ e
    ]

-- A phone and a desktop are the ends of a pair.
abbrev pub AreOpposed : String → String → Type 0
AreOpposed a b = ((a ≡ "mobile") × (b ≡ "desktop")) ⊎ ((a ≡ "desktop") × (b ≡ "mobile"))

abbrev pub slot : String → String → SlotKey
slot pair role = record { pair_id = pair; role = role }

pub opposed-peer :
    (s : Session) (role : String)
    → AreOpposed s.claims.role role
    → peer_of s ≡ slot s.claims.pair_id role
opposed-peer s role (inl (a, b)) = rw (a, b) refl
opposed-peer s role (inr (a, b)) = rw (a, b) refl

-- Routing leaves the index as it is, and the backplane too, unless the slot of the sender's pair in
-- the opposite role is not indexed here and is live on another instance: then that very instance may
-- get the frame, addressed to that slot, with the sender's connection id and the bytes as they came.
pub route-addressed :
    (env : Env) (now : ℕ) (raw : List ℕ) (p : ℕ) (s : Session) (h : Hub) (role : String)
    → get p h.sessions ≡ some s
    → AreOpposed s.claims.role role
    → ((route env now raw p h).local ≡ h.local)
      × (((route env now raw p h).bp ≡ h.bp)
          ⊎ ((e : Entry) × IsElsewhere now (slot s.claims.pair_id role) h e
              × ((route env now raw p h).bp
                  ≡ publish e.instance_id
                      (record {
                        pair_id = s.claims.pair_id;
                        to_role = role;
                        from_conn = s.id;
                        payload = raw;
                      })
                      h.bp)))
route-addressed env now raw p s h role there ends =
    let at = opposed-peer s role ends in
    elim (route-Routed env now raw p s h there) [
      | inl f ↦ (f.same_local, inl f.same_bp)
      | inr (e, far, g) ↦ (
        ap (λ x. x.local) g,
        inr (
          e,
          subst (λ k. IsElsewhere now k h e) at far,
          ap (λ x. x.bp) g ∙ ap (λ k. publish e.instance_id (frame_for k s.id raw) h.bp) at,
        ),
      )
    ]
