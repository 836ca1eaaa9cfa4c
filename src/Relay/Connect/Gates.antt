-- ===== src/Relay/Connect/Gates.antt =====
-- internal/relay/server/connect.go: the order of the guards.
use secure_gateway.Common.{
  ℕ, suc, ◌≡◌, refl, ap, Bool-cases, ◌⊎◌, inl, inr, String, Bool, true, false, Option, none, some,
  if◌then◌else◌,
}
use secure_gateway.Token.{Claims, Verdict, accepted, rejected, verify}
use secure_gateway.RateLimit.{Bucket, KeyedLimiter}
use secure_gateway.Relay.Session.{new_session}
use secure_gateway.Relay.Hub.{Env, register}
use secure_gateway.Relay.Connect.{
  Request, NetText, client_ip, Bearer, bearer, no_bearer, bearer_token, Answer, server_draining,
  connected, Server, ban_of, limited, on_verdict, on_bearer, on_limit, on_ban, handle_connect,
}

abbrev pub is_connected : Answer → Bool
is_connected (connected p) = true
is_connected _ = false

module _ (bucket : Bucket) (env : Env) (net : NetText) (now : ℕ) (upgrades : Bool)
    (r : Request) where
  -- Every guard let the request pass, and its session is registered with the claims of its token.
  pub record IsAdmitted (s : Server bucket) (e : Server bucket × Answer) : Type 0 where
    pub claims : Claims
    pub raw : String
    pub serving : s.draining ≡ false
    pub unbanned : ban_of bucket (client_ip net s.trust_proxy r) now s.bans ≡ none
    pub unlimited : (limited bucket (client_ip net s.trust_proxy r) now s.ip_limiter).1 ≡ true
    pub in_header : bearer_token net r ≡ bearer raw
    pub verified : verify env.parse raw ≡ accepted claims
    pub upgraded : upgrades ≡ true
    pub answered : e.1 ≡ connected s.next
    pub registered :
        e.0.hub
        ≡ register env now s.next
            (new_session claims (env.uuid s.hub.drawn) s.out_queue_size)
            (record s.hub { drawn = suc s.hub.drawn })

  -- The hub and the bans are as they were.
  pub record IsRefused (s : Server bucket) (e : Server bucket × Answer) : Type 0 where
    pub hub_kept : e.0.hub ≡ s.hub
    pub bans_kept : e.0.bans ≡ s.bans
    pub next_kept : e.0.next ≡ s.next
    pub unconnected : is_connected e.1 ≡ false

  abbrev Gated : Server bucket → Server bucket × Answer → Type 0
  Gated s e = IsAdmitted s e ⊎ IsRefused s e

  -- The abuse controls let the request pass.
  record IsPassed (s : Server bucket) : Type 0 where
    serving : s.draining ≡ false
    unbanned : ban_of bucket (client_ip net s.trust_proxy r) now s.bans ≡ none
    unlimited : (limited bucket (client_ip net s.trust_proxy r) now s.ip_limiter).1 ≡ true

  on_verdict-Gated :
      (s : Server bucket) (k : Option (KeyedLimiter bucket)) (raw : String) (v : Verdict)
      → IsPassed s
      → bearer_token net r ≡ bearer raw
      → verify env.parse raw ≡ v
      → Gated s (on_verdict bucket env now upgrades v (record s { ip_limiter = k }))
  on_verdict-Gated s k raw (rejected e) p b h =
      inr (record { hub_kept = refl; bans_kept = refl; next_kept = refl; unconnected = refl })
  on_verdict-Gated s k raw (accepted c) p b h = elim (Bool-cases upgrades) [
    | inl up ↦ rw up (
        inl (record {
          claims = c;
          raw = raw;
          serving = p.serving;
          unbanned = p.unbanned;
          unlimited = p.unlimited;
          in_header = b;
          verified = h;
          upgraded = refl;
          answered = refl;
          registered = refl;
        }))
    | inr down ↦
        rw down
          (inr (record { hub_kept = refl; bans_kept = refl; next_kept = refl; unconnected = refl }))
  ]

  on_bearer-Gated :
      (s : Server bucket) (k : Option (KeyedLimiter bucket)) (b : Bearer)
      → IsPassed s
      → bearer_token net r ≡ b
      → Gated s (on_bearer bucket env now upgrades b (record s { ip_limiter = k }))
  on_bearer-Gated s k (no_bearer reason) p e =
      inr (record { hub_kept = refl; bans_kept = refl; next_kept = refl; unconnected = refl })
  on_bearer-Gated s k (bearer raw) p e = on_verdict-Gated s k raw (verify env.parse raw) p e refl

  on_limit-Gated :
      (s : Server bucket) (l : Option (KeyedLimiter bucket) × Bool)
      → s.draining ≡ false
      → ban_of bucket (client_ip net s.trust_proxy r) now s.bans ≡ none
      → limited bucket (client_ip net s.trust_proxy r) now s.ip_limiter ≡ l
      → Gated s (on_limit bucket env net now upgrades r s l)
  on_limit-Gated s (k, false) d b l =
      inr (record { hub_kept = refl; bans_kept = refl; next_kept = refl; unconnected = refl })
  on_limit-Gated s (k, true) d b l =
      on_bearer-Gated s k (bearer_token net r)
        (record { serving = d; unbanned = b; unlimited = ap (λ x. x.1) l }) refl

  on_ban-Gated :
      (s : Server bucket) (b : Option ℕ)
      → s.draining ≡ false
      → ban_of bucket (client_ip net s.trust_proxy r) now s.bans ≡ b
      → Gated s (on_ban bucket env net now upgrades r s b)
  on_ban-Gated s (some left) d e =
      inr (record { hub_kept = refl; bans_kept = refl; next_kept = refl; unconnected = refl })
  on_ban-Gated s none d e =
      on_limit-Gated s (limited bucket (client_ip net s.trust_proxy r) now s.ip_limiter) d e refl

  on_drain-Gated :
      (s : Server bucket) (d : Bool)
      → s.draining ≡ d
      → Gated s (
          if d
          then (s, server_draining)
          else on_ban bucket env net now upgrades r s
              (ban_of bucket (client_ip net s.trust_proxy r) now s.bans))
  on_drain-Gated s true e =
      inr (record { hub_kept = refl; bans_kept = refl; next_kept = refl; unconnected = refl })
  on_drain-Gated s false e =
      on_ban-Gated s (ban_of bucket (client_ip net s.trust_proxy r) now s.bans) e refl

-- The guards of the handler, by its own tests.
pub handled-Gated :
    (bucket : Bucket) (env : Env) (net : NetText) (now : ℕ) (upgrades : Bool) (r : Request)
    (s : Server bucket)
    → IsAdmitted bucket env net now upgrades r s (handle_connect bucket env net now upgrades r s)
      ⊎ IsRefused bucket env net now upgrades r s (handle_connect bucket env net now upgrades r s)
unfolding handle_connect
handled-Gated bucket env net now upgrades r s =
    on_drain-Gated bucket env net now upgrades r s s.draining refl
