-- ===== src/Relay/Connect.antt =====
-- internal/relay/server/connect.go, and ClientIP of internal/httpsec/httpsec.go: who may connect.
pub mod Gates
pub mod Pass
use Prim.Native.String.{len, slice}
use text.Mathlib.Text.{find?, starts_with}
use secure_gateway.Common.{
  ℕ, suc, ◌+◌, ◌/◌, ◌%◌, String, str_eq, Bool, true, false, ◌&&◌, ◌||◌, not, Option, none, some,
  if◌then◌else◌, nat_eq, ltb,
}
use secure_gateway.Token.{
  Claims, Reason, missing_token, malformed, AuthError, unauthorized, Verdict, accepted, rejected,
  verify,
}
use secure_gateway.RateLimit.{BanTracker, banned, strike, Bucket, KeyedLimiter, allow}
use secure_gateway.Relay.Session.{new_session}
use secure_gateway.Relay.Hub.{Env, Hub, register}

-- What the handler reads of a request: whether the query has a key, a header (empty where it is
-- absent), and the address of the peer.
pub record Request : Type 0 where
  pub query_has : String → Bool
  pub header : String → String
  pub remote_addr : String

-- The host of net.SplitHostPort (`none` is an error), and strings.TrimSpace.
pub record NetText : Type 0 where
  pub split_host : String → Option String
  pub trim : String → String

-- `strings.Split(s, ",")[0]`.
abbrev until_comma : String → Option ℕ → String
until_comma s none = s
until_comma s (some i) = slice s 0 i

abbrev first_hop : NetText → String → String
first_hop net xff = net.trim (until_comma xff (find? xff ","))

abbrev host_or_addr : String → Option String → String
host_or_addr addr none = addr
host_or_addr addr (some host) = host

unfoldable pub client_ip : NetText → Bool → Request → String
client_ip net trust_proxy r =
    if trust_proxy
      && not (str_eq (first_hop net (r.header "X-Forwarded-For")) "")
      && not (str_eq (r.header "X-Forwarded-For") "")
    then first_hop net (r.header "X-Forwarded-For")
    else host_or_addr r.remote_addr (net.split_host r.remote_addr)

-- A token, or why there is none.
pub data Bearer : Type 0 where
  bearer : String → Bearer
  no_bearer : Reason → Bearer

abbrev pub bearer_prefix : String
bearer_prefix = "Bearer "

abbrev bearer_text : String → Bearer
bearer_text tok = if str_eq tok "" then no_bearer missing_token else bearer tok

-- A token in the query is refused.
unfoldable pub bearer_token : NetText → Request → Bearer
bearer_token net r =
    let h = r.header "Authorization" in
    if r.query_has "token" || r.query_has "access_token"
    then no_bearer malformed
    else if str_eq h ""
    then no_bearer missing_token
    else if not (starts_with h bearer_prefix)
    then no_bearer malformed
    else bearer_text (net.trim (slice h (len bearer_prefix) (len h)))

abbrev second : ℕ
second = 1000000000

-- Retry-After: whole seconds, rounded up, and at least 1.
unfoldable pub retry_after : ℕ → ℕ
retry_after retry =
    if not (nat_eq (retry % second) 0) || ltb (retry / second) 1
    then suc (retry / second)
    else retry / second

abbrev with_status : AuthError → AuthError
with_status e = if nat_eq e.http_status 0 then record e { http_status = 401 } else e

-- The answer before the upgrade, or the pointer of the new session.
pub data Answer : Type 0 where
  server_draining not_upgraded : Answer
  too_many : ℕ → Answer
  unauthenticated : AuthError → Answer
  connected : ℕ → Answer

module _ (bucket : Bucket) where
  -- `none` where a control is not configured. `next` is the pointer of the next session.
  pub record Server : Type 0 where
    pub draining : Bool
    pub bans : Option BanTracker
    pub ip_limiter : Option (KeyedLimiter bucket)
    pub trust_proxy : Bool
    pub out_queue_size : ℕ
    pub next : ℕ
    pub hub : Hub

  abbrev pub ban_of : String → ℕ → Option BanTracker → Option ℕ
  ban_of ip now none = none
  ban_of ip now (some b) = banned ip now b

  abbrev pub limited :
      String → ℕ → Option (KeyedLimiter bucket) → Option (KeyedLimiter bucket) × Bool
  limited ip now none = (none, true)
  limited ip now (some k) = let (k1, pass) = allow bucket ip now k in (some k1, pass)

  -- NewConnID is drawn, and the session is registered.
  abbrev pub admit : Env → ℕ → Claims → Server → Server × Answer
  admit env now c s =
      let sess = new_session c (env.uuid s.hub.drawn) s.out_queue_size in
      let h = record s.hub { drawn = suc s.hub.drawn } in
      (record s { next = suc s.next; hub = register env now s.next sess h }, connected s.next)

  -- `upgrades`: websocket.Accept succeeds.
  abbrev pub on_verdict : Env → ℕ → Bool → Verdict → Server → Server × Answer
  on_verdict env now upgrades (rejected e) s = (s, unauthenticated (with_status e))
  on_verdict env now upgrades (accepted c) s =
      if upgrades then admit env now c s else (s, not_upgraded)

  abbrev pub on_bearer : Env → ℕ → Bool → Bearer → Server → Server × Answer
  on_bearer env now upgrades (no_bearer reason) s = (s, unauthenticated (unauthorized reason))
  on_bearer env now upgrades (bearer raw) s = on_verdict env now upgrades (verify env.parse raw) s

  abbrev pub on_limit :
      Env
      → NetText
      → ℕ
      → Bool
      → Request
      → Server
      → Option (KeyedLimiter bucket) × Bool
      → Server × Answer
  on_limit env net now upgrades r s (k, pass) =
      let s1 = record s { ip_limiter = k } in
      if pass
      then on_bearer env now upgrades (bearer_token net r) s1
      else (s1, too_many (retry_after second))

  abbrev pub on_ban : Env → NetText → ℕ → Bool → Request → Server → Option ℕ → Server × Answer
  on_ban env net now upgrades r s (some left) = (s, too_many (retry_after left))
  on_ban env net now upgrades r s none =
      on_limit env net now upgrades r s (limited (client_ip net s.trust_proxy r) now s.ip_limiter)

  unfoldable pub handle_connect : Env → NetText → ℕ → Bool → Request → Server → Server × Answer
  handle_connect env net now upgrades r s =
      if s.draining
      then (s, server_draining)
      else on_ban env net now upgrades r s (ban_of (client_ip net s.trust_proxy r) now s.bans)

  abbrev struck : String → ℕ → Option BanTracker → Option BanTracker
  struck ip now none = none
  struck ip now (some b) = some (strike ip now b).0

  -- The hook that a session calls at a protocol violation.
  unfoldable pub on_violation : String → ℕ → Server → Server
  on_violation ip now s = record s { bans = struck ip now s.bans }
