-- ===== src/Relay/Life.antt =====
-- The life of an instance: every step that it can take, in any order.
pub mod Register
pub mod Takeover
pub mod Handover
use secure_gateway.Common.{
  ℕ, suc, ◌+◌, ◌≡◌, ◌≢◌, ◌∙◌, refl, sym, ap, ◌⊎◌, inl, inr, String, str_eq, Bool, true, false,
  Option, none, some, List, [], ◌∷◌, arith, nat_key, nat_eq, nat_eq_iff, Option-cases, Bool-cases,
  subst, if◌then◌else◌, ◌&&◌, ◌||◌,
}
use secure_gateway.Common.Table.{Table, get, put, values}
use secure_gateway.Backplane.{
  Backplane, SlotKey, slot_key, RoutedFrame, RevocationEvent, renew_slot,
}
use secure_gateway.Relay.Session.{
  Session, Monitor, Tick, monitor_step, close_with, enqueue, renew, unwind, write_next, take_next,
}
use secure_gateway.Relay.Hub.{
  Env, Hub, slot_of, peer_of, set_session, register, deregister, deliver_local, revoke, evict_local,
  drain_notify, close_all, heartbeat, close_at, send_error, route,
}
use secure_gateway.Relay.Protocol.{
  Envelope, Decoded, decoded, undecodable, decode, type_msg, type_ack, type_auth_refresh,
  close_protocol,
}
use secure_gateway.Relay.Frames.{receive, refresh, refresh_token, on_frame, dispatch}
use secure_gateway.Relay.Hub.Evolution.{
  Touches, Evolves, Evolves-refl, Evolves-trans, close_with-Evolves, renew-Evolves,
  close_at-Touches, send_error-Touches, set_session-Touches,
}
use secure_gateway.Relay.Hub.Index.{
  WellIndexed, Evolved, Evolved-refl, Evolved-trans, Keeps, Keeps-refl, Keeps-trans, of_Touches,
  WellIndexed-kept, close_at-Keeps, deregister-Keeps, revoke_each-Keeps, close_each-Keeps,
  notify_each-Keeps, deliver_local-Keeps, evict_local-Keeps,
}
use secure_gateway.Relay.Frames.Keeps.{receive-Keeps}
use secure_gateway.Relay.Life.Register.{register-WellIndexed, register-Evolved}

-- A step of the hub or of one session. A new session is behind a pointer that is not in use;
-- `elsewhere` is what the other instances and the auth service do to the backplane.
pub data Step (env : Env) : Hub → Hub → Type 0 where
  registers :
      (now p : ℕ) (s : Session) (h : Hub)
      → get p h.sessions ≡ none
      → Step env h (register env now p s h)
  deregisters : (p : ℕ) (h : Hub) → Step env h (deregister env p h)
  reads : (now p : ℕ) (raw : List ℕ) (h : Hub) → Step env h (receive env now p raw h).0
  writes :
      (p : ℕ) (pick written : Bool) (s : Session) (h : Hub)
      → get p h.sessions ≡ some s
      → Step env h (set_session p (write_next pick written s) h)
  ticks :
      (p : ℕ) (pick : Bool) (t : Tick) (m : Monitor) (h : Hub)
      → get p h.sessions ≡ some m.session
      → Step env h (set_session p (monitor_step pick t m).session h)
  beats : (now p : ℕ) (h : Hub) → Step env h (heartbeat now p h)
  unwinds :
      (p : ℕ) (s : Session) (h : Hub)
      → get p h.sessions ≡ some s
      → Step env h (set_session p (unwind s) h)
  delivers : (f : RoutedFrame) (h : Hub) → Step env h (deliver_local env f h)
  revokes : (ev : RevocationEvent) (h : Hub) → Step env h (revoke ev h)
  evicts : (key : SlotKey) (h : Hub) → Step env h (evict_local key h)
  drains : (detail : String) (h : Hub) → Step env h (drain_notify env detail h).0
  closes : (code : ℕ) (reason : String) (h : Hub) → Step env h (close_all code reason h)
  elsewhere : (b : Backplane) (h : Hub) → Step env h (record h { bp = b })

-- Any number of steps.
pub data Steps (env : Env) : Hub → Hub → Type 0 where
  here : (h : Hub) → Steps env h h
  then_step : {a b c : Hub} → Step env a b → Steps env b c → Steps env a c

abbrev Any : ℕ → Type 0
Any q = Unit {0}

set-Keeps :
    (p : ℕ) (s s' : Session) (h : Hub)
    → get p h.sessions ≡ some s
    → Evolves s s'
    → Keeps h (set_session p s' h)
set-Keeps p s s' h e v = of_Touches Any h _ (set_session-Touches Any p s s' h.drawn h tt e v)

take_next-Evolves :
    (pick written : Bool) (out : List (List ℕ)) (s : Session)
    → Evolves s (take_next pick written out s)
unfolding close_with
take_next-Evolves pick written [] s = Evolves-refl s
take_next-Evolves pick written (frame ∷ rest) s = record {
  same_id = ground arith;
  same_claims = ground arith;
  closed_kept = λ c e. ground arith;
}

write_next-Evolves : (pick written : Bool) (s : Session) → Evolves s (write_next pick written s)
unfolding write_next
write_next-Evolves pick written s = take_next-Evolves pick written s.out s

unwind-Evolves : (s : Session) → Evolves s (unwind s)
unfolding unwind
unwind-Evolves s = record { same_id = refl; same_claims = refl; closed_kept = λ c e. e }

tick-Evolves :
    (pick : Bool) (t : Tick) (m : Monitor) → Evolves m.session (monitor_step pick t m).session
unfolding monitor_step renew close_with
tick-Evolves pick t m = record {
  same_id = ground arith;
  same_claims = ground arith;
  closed_kept = λ c e. ground arith;
}

heartbeat-Keeps : (now p : ℕ) (h : Hub) → Keeps h (heartbeat now p h)
unfolding heartbeat
heartbeat-Keeps now p h = elim (Option-cases (get p h.sessions)) [
  | inl e ↦ rw e (Keeps-refl h)
  | inr (s, e) ↦ rw e (elim (Bool-cases s.renewer) [
    | inl on ↦
        let (bp, answer) = renew_slot now (slot_of s) s.id h.bp in
        let h1 : Hub = record h { bp = bp } in
        simp on (
          Keeps-trans h h1 (set_session p (renew answer s) h1)
            (record { evolved = Evolved-refl h; fewer = λ k q e. e })
            (set-Keeps p s (renew answer s) h1 e (renew-Evolves answer s)))
    | inr off ↦ rw off (Keeps-refl h)
  ])
]

-- Sessions evolve, and the index stays right.
record Preserves (h h' : Hub) : Type 0 where
  evolved : Evolved h h'
  well : WellIndexed h → WellIndexed h'

of_Keeps : {h h' : Hub} → Keeps h h' → Preserves h h'
of_Keeps {h} {h'} f = record { evolved = f.evolved; well = WellIndexed-kept h h' f }

Step-Preserves : {env : Env} {h h' : Hub} → Step env h h' → Preserves h h'
unfolding revoke drain_notify close_all
Step-Preserves {env} (registers now p s h free) = record {
  evolved = register-Evolved env now p s h free;
  well = register-WellIndexed env now p s h free;
}
Step-Preserves {env} (deregisters p h) = of_Keeps (deregister-Keeps env p h)
Step-Preserves {env} (reads now p raw h) = of_Keeps (receive-Keeps env now p raw h)
Step-Preserves {env} (writes p pick written s h e) =
    of_Keeps (set-Keeps p s (write_next pick written s) h e (write_next-Evolves pick written s))
Step-Preserves {env} (ticks p pick t m h e) =
    of_Keeps (set-Keeps p m.session (monitor_step pick t m).session h e (tick-Evolves pick t m))
Step-Preserves {env} (beats now p h) = of_Keeps (heartbeat-Keeps now p h)
Step-Preserves {env} (unwinds p s h e) = of_Keeps (set-Keeps p s (unwind s) h e (unwind-Evolves s))
Step-Preserves {env} (delivers f h) = of_Keeps (deliver_local-Keeps env f h)
Step-Preserves {env} (revokes ev h) = of_Keeps (revoke_each-Keeps ev (values h.local) h)
Step-Preserves {env} (evicts key h) = of_Keeps (evict_local-Keeps key h)
Step-Preserves {env} (drains detail h) = of_Keeps (notify_each-Keeps env detail (values h.local) h)
Step-Preserves {env} (closes code reason h) =
    of_Keeps (close_each-Keeps code reason (values h.local) h)
Step-Preserves {env} (elsewhere b h) =
    of_Keeps (record { evolved = Evolved-refl h; fewer = λ k q e. e })

Steps-Preserves : {env : Env} {h h' : Hub} → Steps env h h' → Preserves h h'
Steps-Preserves (here h) = of_Keeps (Keeps-refl h)
Steps-Preserves (then_step {a} {b} {c} first rest) =
    let f = Step-Preserves first in
    let g = Steps-Preserves rest in
    record { evolved = Evolved-trans a b c f.evolved g.evolved; well = λ w. g.well (f.well w) }

-- Whatever an instance that starts with an empty index goes through, each indexed pointer is a
-- session of that very pair and role.
pub reachable-WellIndexed :
    (env : Env) (h h' : Hub) → h.local ≡ [] → Steps env h h' → WellIndexed h'
unfolding get
reachable-WellIndexed env h h' fresh steps =
    (Steps-Preserves steps).well (λ k p e. absurd (ground (arith, sym e ∙ ap (get k) fresh)))

-- Whatever an instance goes through, a session stays, with its id and its claims, and with the
-- first close code and reason that it has recorded.
pub Steps-Evolves :
    (env : Env) (h h' : Hub) (p : ℕ) (s : Session)
    → Steps env h h'
    → get p h.sessions ≡ some s
    → (s' : Session) × (get p h'.sessions ≡ some s') × Evolves s s'
Steps-Evolves env h h' p s steps e = (Steps-Preserves steps).evolved p s e
