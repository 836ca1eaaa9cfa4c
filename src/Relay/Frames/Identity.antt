-- ===== src/Relay/Frames/Identity.antt =====
-- What a refresh can change.
use secure_gateway.Common.{
  ℕ, suc, ◌≡◌, refl, ◌⊎◌, inl, inr, String, str_eq, eq_iff, true, Option, none, some, List, arith,
  nat_key, Bool-cases,
}
use secure_gateway.Common.Table.{get, get-put_self}
use secure_gateway.Token.{Claims, Verdict, accepted, rejected, verify}
use secure_gateway.Relay.Protocol.{close_protocol, err_unauthorized}
use secure_gateway.Relay.Session.{Session, enqueue, close_with, set_expiry}
use secure_gateway.Relay.Hub.{Env, Hub, close_at, send_error, enqueue_at, send_encoded}
use secure_gateway.Relay.Frames.{refresh, same_identity, rebind, extend, reason_text}

-- The token that extends a session: accepted, of the session's own pair, role, account and device.
pub record Rebinds (env : Env) (raw : String) (s : Session) (unix : ℕ) : Type 0 where
  pub c : Claims
  pub verified : verify env.parse raw ≡ accepted c
  pub same_pair : c.pair_id ≡ s.claims.pair_id
  pub same_role : c.role ≡ s.claims.role
  pub same_account : c.account_id ≡ s.claims.account_id
  pub same_device : c.device_id ≡ s.claims.device_id
  pub until : c.expires_at ≡ some unix

-- An operation at a pointer that leaves the identity and the expiry of its session.
abbrev KeepsAt : ℕ → Session → Hub → Type 0
KeepsAt p s h =
    (s' : Session) × (get p h.sessions ≡ some s') × (s'.claims ≡ s.claims) × (s'.expiry ≡ s.expiry)

enqueue_at-keeps :
    (env : Env) (frame : List ℕ) (p : ℕ) (h : Hub) (s : Session)
    → get p h.sessions ≡ some s
    → KeepsAt p s (enqueue_at env frame p h).0
unfolding enqueue_at enqueue
enqueue_at-keeps env frame p h s e =
    let s' = (enqueue (env.pick h.drawn) frame s).0 in
    (s', rw e (get-put_self p s' h.sessions), ground arith, ground arith)

sent-keeps :
    (env : Env) (o : Option (List ℕ)) (p : ℕ) (h : Hub) (s : Session)
    → get p h.sessions ≡ some s
    → KeepsAt p s (send_encoded env o p h)
sent-keeps env none p h s e = (s, e, refl, refl)
sent-keeps env (some frame) p h s e =
    enqueue_at-keeps env frame p (record h { drawn = suc h.drawn }) s e

send_error-keeps :
    (env : Env) (code detail : String) (p : ℕ) (h : Hub) (s : Session)
    → get p h.sessions ≡ some s
    → KeepsAt p s (send_error env code detail p h)
unfolding send_error
send_error-keeps env code detail p h s e = sent-keeps env _ p h s e

close_at-keeps :
    (code : ℕ) (reason : String) (p : ℕ) (h : Hub) (s : Session)
    → get p h.sessions ≡ some s
    → KeepsAt p s (close_at code reason p h)
unfolding close_at close_with
close_at-keeps code reason p h s e =
    let s' = close_with code reason s in
    (s', rw e (get-put_self p s' h.sessions), ground arith, ground arith)

abbrev RefreshedAt : Env → String → ℕ → Session → Hub → Type 0
RefreshedAt env raw p s h =
    (s' : Session) × (get p h.sessions ≡ some s')
    × (s'.claims ≡ s.claims)
    × ((s'.expiry ≡ s.expiry) ⊎ Rebinds env raw s s'.expiry)

weaken :
    (env : Env) (raw : String) (p : ℕ) (s : Session) (h : Hub)
    → KeepsAt p s h
    → RefreshedAt env raw p s h
weaken env raw p s h (s', e, c, x) = (s', e, c, inl x)

extend-keeps :
    (env : Env) (raw : String) (p : ℕ) (s : Session) (h : Hub) (c : Claims) (unix : Option ℕ)
    → get p h.sessions ≡ some s
    → verify env.parse raw ≡ accepted c
    → same_identity c s.claims ≡ true
    → c.expires_at ≡ unix
    → RefreshedAt env raw p s (extend p s unix h)
unfolding set_expiry
extend-keeps env raw p s h c none e v id x = (s, e, refl, inl refl)
extend-keeps env raw p s h c (some t) e v id x = (
  set_expiry t s,
  get-put_self p (set_expiry t s) h.sessions,
  refl,
  inr (record {
    c = c;
    verified = v;
    same_pair = ground (arith, eq_iff c.pair_id s.claims.pair_id);
    same_role = ground (arith, eq_iff c.role s.claims.role);
    same_account = ground (arith, eq_iff c.account_id s.claims.account_id);
    same_device = ground (arith, eq_iff c.device_id s.claims.device_id);
    until = x;
  }),
)

rebind-keeps :
    (env : Env) (raw : String) (p : ℕ) (s : Session) (h : Hub) (v : Verdict)
    → get p h.sessions ≡ some s
    → verify env.parse raw ≡ v
    → RefreshedAt env raw p s (rebind env p s v h)
rebind-keeps env raw p s h (rejected err) e v =
    weaken env raw p s (send_error env err_unauthorized (reason_text err.reason) p h)
      (send_error-keeps env err_unauthorized (reason_text err.reason) p h s e)
rebind-keeps env raw p s h (accepted c) e v = elim (Bool-cases (same_identity c s.claims)) [
  | inl id ↦ rw id (extend-keeps env raw p s h c c.expires_at e v id refl)
  | inr other ↦ rw other (
      weaken env raw p s (close_at close_protocol "refresh identity mismatch" p h)
        (close_at-keeps close_protocol "refresh identity mismatch" p h s e))
]

-- A refresh never changes the identity of a session, and it moves the expiry only to that of a token
-- that verifies and is for the session's own pair, role, account and device.
pub refresh-identity :
    (env : Env) (raw : String) (p : ℕ) (h : Hub) (s : Session)
    → get p h.sessions ≡ some s
    → (s' : Session) × (get p (refresh env raw p h).sessions ≡ some s')
      × (s'.claims ≡ s.claims)
      × ((s'.expiry ≡ s.expiry) ⊎ Rebinds env raw s s'.expiry)
unfolding refresh
refresh-identity env raw p h s e = elim (Bool-cases (str_eq raw "")) [
  | inl empty ↦
      rw (e, empty)
        (weaken env raw p s (send_error env err_unauthorized "empty refresh token" p h)
          (send_error-keeps env err_unauthorized "empty refresh token" p h s e))
  | inr some_token ↦ rw (e, some_token) (rebind-keeps env raw p s h (verify env.parse raw) e refl)
]
