-- ===== src/Relay/Frames/Keeps.antt =====
-- A frame that is read keeps the index and the sessions' identities.
use secure_gateway.Common.{
  ℕ, ◌≡◌, refl, sym, subst, inl, inr, String, str_eq, ◌||◌, Option, none, some, List, nat_key,
  Option-cases, Bool-cases,
}
use secure_gateway.Common.Table.{get}
use secure_gateway.Token.{Verdict, accepted, rejected, verify}
use secure_gateway.Relay.Session.{Session, set_expiry}
use secure_gateway.Relay.Protocol.{
  Envelope, Decoded, decoded, undecodable, decode, type_msg, type_ack, type_auth_refresh,
  close_protocol, err_unauthorized,
}
use secure_gateway.Relay.Hub.{Env, Hub, set_session, send_error, route}
use secure_gateway.Relay.Frames.{
  receive, refresh, refresh_token, on_frame, dispatch, rebind, extend, reason_text, same_identity,
}
use secure_gateway.Relay.Hub.Evolution.{Evolves, send_error-Touches, set_session-Touches}
use secure_gateway.Relay.Hub.Index.{Evolved-refl, Keeps, Keeps-refl, of_Touches, close_at-Keeps}
use secure_gateway.Relay.Hub.Route.{route-Routed, Parties}

abbrev Any : ℕ → Type 0
Any q = Unit {0}

pub route-Keeps :
    (env : Env) (now : ℕ) (raw : List ℕ) (p : ℕ) (h : Hub) → Keeps h (route env now raw p h)
unfolding route
route-Keeps env now raw p h = elim (Option-cases (get p h.sessions)) [
  | inl e ↦ rw e (Keeps-refl h)
  | inr (s, e) ↦ elim (route-Routed env now raw p s h e) [
    | inl f ↦ of_Touches (Parties p s h) h _ f
    | inr (held, far, g) ↦
        subst (Keeps h) (sym g) (record { evolved = Evolved-refl h; fewer = λ k q e. e })
  ]
]

set-Keeps :
    (p : ℕ) (s s' : Session) (h : Hub)
    → get p h.sessions ≡ some s
    → Evolves s s'
    → Keeps h (set_session p s' h)
set-Keeps p s s' h e v = of_Touches Any h _ (set_session-Touches Any p s s' h.drawn h tt e v)

send_error-Keeps :
    (env : Env) (code detail : String) (p : ℕ) (h : Hub) → Keeps h (send_error env code detail p h)
send_error-Keeps env code detail p h =
    of_Touches Any h _ (send_error-Touches Any env code detail p h tt)

extend-Keeps :
    (p : ℕ) (s : Session) (unix : Option ℕ) (h : Hub)
    → get p h.sessions ≡ some s
    → Keeps h (extend p s unix h)
unfolding set_expiry
extend-Keeps p s none h e = Keeps-refl h
extend-Keeps p s (some t) h e =
    set-Keeps p s (set_expiry t s) h e
      (record { same_id = refl; same_claims = refl; closed_kept = λ c e. e })

rebind-Keeps :
    (env : Env) (p : ℕ) (s : Session) (v : Verdict) (h : Hub)
    → get p h.sessions ≡ some s
    → Keeps h (rebind env p s v h)
rebind-Keeps env p s (rejected err) h e =
    send_error-Keeps env err_unauthorized (reason_text err.reason) p h
rebind-Keeps env p s (accepted c) h e = elim (Bool-cases (same_identity c s.claims)) [
  | inl id ↦ rw id (extend-Keeps p s c.expires_at h e)
  | inr other ↦ rw other (close_at-Keeps close_protocol "refresh identity mismatch" p h)
]

pub refresh-Keeps : (env : Env) (raw : String) (p : ℕ) (h : Hub) → Keeps h (refresh env raw p h)
unfolding refresh
refresh-Keeps env raw p h = elim (Option-cases (get p h.sessions)) [
  | inl e ↦ rw e (Keeps-refl h)
  | inr (s, e) ↦ elim (Bool-cases (str_eq raw "")) [
    | inl empty ↦ rw (e, empty) (send_error-Keeps env err_unauthorized "empty refresh token" p h)
    | inr given ↦ rw (e, given) (rebind-Keeps env p s (verify env.parse raw) h e)
  ]
]

on_frame-Keeps :
    (env : Env) (now p : ℕ) (e : Envelope) (raw : List ℕ) (h : Hub)
    → Keeps h (on_frame env now p e raw h)
unfolding on_frame
on_frame-Keeps env now p e raw h =
    elim (Bool-cases (str_eq e.type type_msg || str_eq e.type type_ack)) [
      | inl app ↦ rw app (route-Keeps env now raw p h)
      | inr control ↦ elim (Bool-cases (str_eq e.type type_auth_refresh)) [
        | inl auth ↦ rw (control, auth) (refresh-Keeps env (refresh_token env e) p h)
        | inr ignored ↦ rw (control, ignored) (Keeps-refl h)
      ]
    ]

dispatch-Keeps :
    (env : Env) (now p : ℕ) (raw : List ℕ) (d : Decoded) (h : Hub)
    → Keeps h (dispatch env now p raw d h).0
dispatch-Keeps env now p raw (undecodable err) h =
    close_at-Keeps close_protocol "protocol error" p h
dispatch-Keeps env now p raw (decoded e) h = on_frame-Keeps env now p e raw h

pub receive-Keeps :
    (env : Env) (now p : ℕ) (raw : List ℕ) (h : Hub) → Keeps h (receive env now p raw h).0
unfolding receive
receive-Keeps env now p raw h =
    dispatch-Keeps env now p raw (decode env.json raw env.max_message_bytes) h
