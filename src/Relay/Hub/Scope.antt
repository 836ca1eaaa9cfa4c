-- ===== src/Relay/Hub/Scope.antt =====
-- What a revocation closes.
use secure_gateway.Common.{
  ℕ, ◌≡◌, ◌≢◌, ◌⊎◌, ◌↔◌, eq_iff, ◌∙◌, refl, sym, ap, inl, inr, String, Bool, true, false, ◌&&◌,
  ◌||◌, none, some, List, [], ◌∷◌, arith, nat_key, nat_eq, nat_eq_iff, Option-cases, Bool-cases,
  if◌then◌else◌,
}
use secure_gateway.Common.Table.{Table, get, get-put, values}
use secure_gateway.Backplane.{SlotKey, slot_key, RevocationEvent}
use secure_gateway.Relay.Protocol.{close_revoked}
use secure_gateway.Relay.Session.{Session, close_with}
use secure_gateway.Relay.Hub.{Hub, close_at, revoke, revoke_each, in_scope, scoped}

abbrev pub member : ℕ → List ℕ → Bool
member p [] = false
member p (q ∷ qs) = nat_eq q p || member p qs

abbrev revoked_if : Bool → Session → Session
revoked_if b s = if b then close_with close_revoked "revoked" s else s

close_with-in_scope :
    (ev : RevocationEvent) (code : ℕ) (reason : String) (s : Session)
    → in_scope ev (close_with code reason s) ≡ in_scope ev s
unfolding close_with
close_with-in_scope ev code reason s = ground arith

close_with-twice :
    (code : ℕ) (reason : String) (s : Session)
    → close_with code reason (close_with code reason s) ≡ close_with code reason s
unfolding close_with
close_with-twice code reason s = ground arith

pub close_at-get :
    (code : ℕ) (reason : String) (q p : ℕ) (h : Hub) (s : Session)
    → get p h.sessions ≡ some s
    → get p (close_at code reason q h).sessions
      ≡ some (if nat_eq q p then close_with code reason s else s)
unfolding close_at
close_at-get code reason q p h s e = elim (Option-cases (get q h.sessions)) [
  | inl none_at ↦ elim (Bool-cases (nat_eq q p)) [
    | inl hit ↦ absurd (ground (arith, ap (λ i. get i h.sessions) ((nat_eq_iff q p).0 hit)))
    | inr miss ↦ rw (none_at, miss) e
  ]
  | inr (t, there) ↦ elim (Bool-cases (nat_eq q p)) [
    | inl hit ↦
        let at : get q h.sessions ≡ get p h.sessions =
          ap (λ i. get i h.sessions) ((nat_eq_iff q p).0 hit) in
        let is_it : t ≡ s = ground (arith, sym there ∙ at ∙ e) in
        rw there (rw (get-put, hit) (ap (λ x. some (close_with code reason x)) is_it))
    | inr miss ↦ rw there (rw (get-put, miss) e)
  ]
]

abbrev revoke_one : RevocationEvent → ℕ → Hub → Hub
revoke_one ev q h = if scoped ev (get q h.sessions) then close_at close_revoked "revoked" q h else h

revoke_one-get :
    (ev : RevocationEvent) (q p : ℕ) (h : Hub) (s : Session)
    → get p h.sessions ≡ some s
    → get p (revoke_one ev q h).sessions ≡ some (revoked_if (nat_eq q p && in_scope ev s) s)
revoke_one-get ev q p h s e = elim (Bool-cases (nat_eq q p)) [
  | inl hit ↦
      let at : get q h.sessions ≡ some s =
        ap (λ i. get i h.sessions) ((nat_eq_iff q p).0 hit) ∙ e in
      let scope : scoped ev (get q h.sessions) ≡ in_scope ev s = ap (scoped ev) at in
      elim (Bool-cases (in_scope ev s)) [
        | inl within ↦
            rw (scope, within) (close_at-get close_revoked "revoked" q p h s e ∙ rw hit refl)
        | inr outside ↦ rw (scope, outside) (e ∙ rw hit refl)
      ]
  | inr miss ↦ elim (Bool-cases (scoped ev (get q h.sessions))) [
    | inl here ↦ rw here (close_at-get close_revoked "revoked" q p h s e ∙ rw miss refl)
    | inr gone ↦ rw gone (e ∙ rw miss refl)
  ]
]

revoked-twice :
    (ev : RevocationEvent) (a b : Bool) (s : Session)
    → revoked_if
        (b && in_scope ev (revoked_if (a && in_scope ev s) s))
        (revoked_if (a && in_scope ev s) s)
      ≡ revoked_if ((a || b) && in_scope ev s) s
revoked-twice ev true true s = ground (
  arith,
  close_with-in_scope ev close_revoked "revoked" s,
  close_with-twice close_revoked "revoked" s,
)
revoked-twice ev true false s = ground arith
revoked-twice ev false b s = ground arith

revoke_each-get :
    (ev : RevocationEvent) (ps : List ℕ) (h : Hub) (p : ℕ) (s : Session)
    → get p h.sessions ≡ some s
    → get p (revoke_each ev ps h).sessions ≡ some (revoked_if (member p ps && in_scope ev s) s)
unfolding revoke_each
revoke_each-get ev [] h p s e = e
revoke_each-get ev (q ∷ qs) h p s e =
    let step = revoke_one-get ev q p h s e in
    revoke_each-get ev qs (revoke_one ev q h) p _ step
    ∙ ap some (revoked-twice ev (nat_eq q p) (member p qs) s)

-- A session after a revocation, by the code's own test of the scope.
revoke-get :
    (ev : RevocationEvent) (h : Hub) (p : ℕ) (s : Session)
    → get p h.sessions ≡ some s
    → get p (revoke ev h).sessions
      ≡ some (
          if member p (values h.local) && in_scope ev s
          then close_with close_revoked "revoked" s
          else s)
unfolding revoke
revoke-get ev h p s e = revoke_each-get ev (values h.local) h p s e

member-values :
    (k : SlotKey) (m : Table SlotKey ℕ) (p : ℕ) → get k m ≡ some p → member p (values m) ≡ true
unfolding get
member-values k [] p e = ground arith
member-values k ((j, q) ∷ m) p e = ground (arith, member-values k m p)

pub close_with-closed :
    (code : ℕ) (reason : String) (s : Session)
    → s.closed ≡ none
    → close_with code reason s ≡ record s { cancelled = true; closed = some (code, reason) }
unfolding close_with
close_with-closed code reason s h = ground arith

-- Whom an event means: the sessions of its pair, and those of its account, where it names them.
abbrev pub IsMeant : RevocationEvent → Session → Type 0
IsMeant ev s =
    ((ev.pair_id ≢ "") × (s.claims.pair_id ≡ ev.pair_id))
    ⊎ ((ev.account_id ≢ "") × (s.claims.account_id ≡ ev.account_id))

in_scope_iff : (ev : RevocationEvent) (s : Session) → (in_scope ev s ≡ true) ↔ IsMeant ev s
in_scope_iff ev s = ground (
  arith,
  eq_iff ev.pair_id "",
  eq_iff ev.account_id "",
  eq_iff s.claims.pair_id ev.pair_id,
  eq_iff s.claims.account_id ev.account_id,
)

pub close_with-kept :
    (code : ℕ) (reason : String) (s : Session) (first : ℕ × String)
    → s.closed ≡ some first
    → close_with code reason s ≡ s
unfolding close_with
close_with-kept code reason s first h = rw h refl

-- A revocation reaches every indexed session of the pair or of the account that the event names: an
-- open one is closed with 4004 "revoked" and is otherwise as it was, and one that has been closed
-- before keeps that close and is as it was.
pub revoke-closes :
    (ev : RevocationEvent) (h : Hub) (k : SlotKey) (p : ℕ) (s : Session)
    → get k h.local ≡ some p
    → get p h.sessions ≡ some s
    → IsMeant ev s
    → ((s.closed ≡ none)
        × (get p (revoke ev h).sessions
            ≡ some (record s { cancelled = true; closed = some (4004, "revoked") })))
      ⊎ ((first : ℕ × String) × (s.closed ≡ some first) × (get p (revoke ev h).sessions ≡ some s))
revoke-closes ev h k p s i e meant =
    let reached : get p (revoke ev h).sessions ≡ some (close_with close_revoked "revoked" s) =
      revoke-get ev h p s e ∙ rw (member-values k h.local p i, (in_scope_iff ev s).1 meant) refl in
    elim (Option-cases s.closed) [
      | inl live ↦ inl (live, reached ∙ ap some (close_with-closed 4004 "revoked" s live))
      | inr (first, shut) ↦
          inr (first, shut, reached ∙ ap some (close_with-kept 4004 "revoked" s first shut))
    ]

-- A revocation leaves a session that the event means neither by its pair nor by its account as it was.
pub revoke-spares :
    (ev : RevocationEvent) (h : Hub) (p : ℕ) (s : Session)
    → get p h.sessions ≡ some s
    → ¬ IsMeant ev s
    → get p (revoke ev h).sessions ≡ some s
revoke-spares ev h p s e other = elim (Bool-cases (in_scope ev s)) [
  | inl within ↦ absurd (other ((in_scope_iff ev s).0 within))
  | inr outside ↦ revoke-get ev h p s e ∙ rw outside (ground arith)
]
