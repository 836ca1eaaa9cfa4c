-- ===== src/Relay/Connect/Pass.antt =====
-- internal/relay/server/connect.go: what a connection that is let in has been through.
use Prim.Native.String.{len, slice}
use text.Mathlib.Text.{starts_with}
use secure_gateway.Common.{
  ℕ, suc, ◌≤◌, ◌≡◌, ◌≢◌, ◌⊎◌, refl, inl, inr, String, eq_iff, Bool, true, false, Option, none, some,
  arith, string_key, nat_eq, Option-cases, Bool-cases,
}
use secure_gateway.Common.Table.{get}
use secure_gateway.Token.{Claims, parsed}
use secure_gateway.Token.Accept.{IsComplete, verify_iff}
use secure_gateway.RateLimit.{
  BanTracker, BanEntry, Bucket, KeyedLimiter, LimiterEntry, banned, ban_left, allow,
}
use secure_gateway.Relay.Session.{new_session}
use secure_gateway.Relay.Hub.{Env, register}
use secure_gateway.Relay.Connect.{
  Request, NetText, client_ip, bearer, bearer_token, Answer, connected, Server, ban_of, limited,
  handle_connect,
}
use secure_gateway.Relay.Connect.Gates.{IsRefused, handled-Gated}

-- No ban of the address is in force: nothing counts strikes, or the tracker is off, or it has no
-- entry of the address, or one whose ban has ended.
abbrev pub IsUnbanned : String → ℕ → Option BanTracker → Type 0
IsUnbanned ip now o =
    (o ≡ none)
    ⊎ ((b : BanTracker) × (o ≡ some b)
        × ((b.threshold ≡ 0)
            ⊎ (get ip b.entries ≡ none)
            ⊎ ((e : BanEntry) × (get ip b.entries ≡ some e) × (e.banned_until ≤ now))))

ban_left-IsPast :
    (now : ℕ) (o : Option BanEntry)
    → ban_left now o ≡ none
    → (o ≡ none) ⊎ ((e : BanEntry) × (o ≡ some e) × (e.banned_until ≤ now))
ban_left-IsPast now none h = inl refl
ban_left-IsPast now (some e) h = inr (e, refl, ground arith)

tracker-IsUnbanned :
    (ip : String) (now : ℕ) (b : BanTracker)
    → banned ip now b ≡ none
    → (b.threshold ≡ 0)
      ⊎ (get ip b.entries ≡ none)
      ⊎ ((e : BanEntry) × (get ip b.entries ≡ some e) × (e.banned_until ≤ now))
unfolding banned
tracker-IsUnbanned ip now b h = elim (Bool-cases (nat_eq b.threshold 0)) [
  | inl off ↦ inl (ground arith)
  | inr on ↦ inr (ban_left-IsPast now (get ip b.entries) (ground arith))
]

ban_of-IsUnbanned :
    (bucket : Bucket) (ip : String) (now : ℕ) (o : Option BanTracker)
    → ban_of bucket ip now o ≡ none
    → IsUnbanned ip now o
ban_of-IsUnbanned bucket ip now none h = inl refl
ban_of-IsUnbanned bucket ip now (some b) h = inr (b, refl, tracker-IsUnbanned ip now b h)

-- The request carries the token in its header, behind "Bearer " and with nothing but blanks around it,
-- and none in its query.
pub record IsHeaderToken (net : NetText) (r : Request) (raw : String) : Type 0 where
  pub no_token : r.query_has "token" ≡ false
  pub no_access_token : r.query_has "access_token" ≡ false
  pub prefixed : starts_with (r.header "Authorization") "Bearer " ≡ true
  pub trimmed : raw ≡ net.trim (slice (r.header "Authorization") 7 (len (r.header "Authorization")))
  pub full : raw ≢ ""

bearer_token-IsHeaderToken :
    (net : NetText) (r : Request) (raw : String)
    → bearer_token net r ≡ bearer raw
    → IsHeaderToken net r raw
unfolding bearer_token
bearer_token-IsHeaderToken net r raw h = record {
  no_token = ground arith;
  no_access_token = ground arith;
  prefixed = ground arith;
  trimmed = ground arith;
  full = ground (
    arith,
    eq_iff (net.trim (slice (r.header "Authorization") 7 (len (r.header "Authorization")))) "",
  );
}

-- Where no proxy is trusted, the address is the host of the peer, or the peer's address as it is
-- where it cannot be split.
abbrev pub IsClient : NetText → Bool → Request → String → Type 0
IsClient net trust r ip =
    (trust ≡ true)
    ⊎ ((host : String) × (net.split_host r.remote_addr ≡ some host) × (ip ≡ host))
    ⊎ ((net.split_host r.remote_addr ≡ none) × (ip ≡ r.remote_addr))

client_ip-IsClient :
    (net : NetText) (trust : Bool) (r : Request) → IsClient net trust r (client_ip net trust r)
unfolding client_ip
client_ip-IsClient net true r = inl refl
client_ip-IsClient net false r = inr (elim (Option-cases (net.split_host r.remote_addr)) [
  | inl e ↦ inr (e, rw e refl)
  | inr (host, e) ↦ inl (host, e, rw e refl)
])

module _ (bucket : Bucket) where
  open bucket use {Lim, new_lim, allow_lim}

  -- Nothing limits the address, or its bucket, a new one where it has none, has let the request pass.
  abbrev pub IsWithin : String → ℕ → Option (KeyedLimiter bucket) → Type 0
  IsWithin ip now o =
      (o ≡ none)
      ⊎ ((k : KeyedLimiter bucket) × (o ≡ some k)
          × ((k.limit ≡ 0)
              ⊎ (k.burst ≡ 0)
              ⊎ ((get ip k.buckets ≡ none) × ((allow_lim now (new_lim k.limit k.burst)).1 ≡ true))
              ⊎ ((e : LimiterEntry bucket) × (get ip k.buckets ≡ some e)
                  × ((allow_lim now e.lim).1 ≡ true))))

  limited-IsWithin :
      (ip : String) (now : ℕ) (o : Option (KeyedLimiter bucket))
      → (limited bucket ip now o).1 ≡ true
      → IsWithin ip now o
  unfolding allow
  limited-IsWithin ip now none h = inl refl
  limited-IsWithin ip now (some k) h = inr (
    k,
    refl,
    elim (Bool-cases (nat_eq k.limit 0)) [
      | inl off ↦ inl (ground arith)
      | inr on ↦ inr (elim (Bool-cases (nat_eq k.burst 0)) [
        | inl flat ↦ inl (ground arith)
        | inr some_burst ↦ inr (elim (Option-cases (get ip k.buckets)) [
          | inl e ↦ inl (e, ground (arith, e))
          | inr (x, e) ↦ inr (x, e, ground (arith, e))
        ])
      ])
    ],
  )

  -- A session is registered, with the claims of the token.
  pub record IsConnected (env : Env) (net : NetText) (now : ℕ) (upgrades : Bool) (r : Request)
      (s : Server bucket) (e : Server bucket × Answer) : Type 0 where
    pub claims : Claims
    pub raw : String
    pub address : String
    pub serving : s.draining ≡ false
    pub client : IsClient net s.trust_proxy r address
    pub unbanned : IsUnbanned address now s.bans
    pub within : IsWithin address now s.ip_limiter
    pub in_header : IsHeaderToken net r raw
    pub verified : env.parse raw ≡ parsed true claims
    pub complete : IsComplete claims
    pub upgraded : upgrades ≡ true
    pub answered : e.1 ≡ connected s.next
    pub registered :
        e.0.hub
        ≡ register env now s.next
            (new_session claims (env.uuid s.hub.drawn) s.out_queue_size)
            (record s.hub { drawn = suc s.hub.drawn })

-- A connection attempt is either let in or refused. It is let in only if the server is not draining; no
-- ban of the client's address is in force, and the limiter has let the address pass; the token stands
-- in the header and none in the query; the parser accepts its signature and it has every claim that is
-- needed; and the upgrade succeeds. Then the session that is registered has exactly the claims of that
-- token. A refused attempt leaves the hub and the bans as they were. Where no proxy is trusted, the
-- address is that of the peer.
pub connect-Gated :
    (bucket : Bucket) (env : Env) (net : NetText) (now : ℕ) (upgrades : Bool) (r : Request)
    (s : Server bucket)
    → IsConnected bucket env net now upgrades r s (handle_connect bucket env net now upgrades r s)
      ⊎ IsRefused bucket env net now upgrades r s (handle_connect bucket env net now upgrades r s)
connect-Gated bucket env net now upgrades r s =
    elim (handled-Gated bucket env net now upgrades r s) [
      | inr refused ↦ inr refused
      | inl a ↦
          let (full, good, complete) = (verify_iff env.parse a.raw a.claims).0 a.verified in
          inl (record {
            claims = a.claims;
            raw = a.raw;
            address = client_ip net s.trust_proxy r;
            serving = a.serving;
            client = client_ip-IsClient net s.trust_proxy r;
            unbanned =
                ban_of-IsUnbanned bucket (client_ip net s.trust_proxy r) now s.bans a.unbanned;
            within =
                limited-IsWithin bucket (client_ip net s.trust_proxy r) now s.ip_limiter
                  a.unlimited;
            in_header = bearer_token-IsHeaderToken net r a.raw a.in_header;
            verified = good;
            complete = complete;
            upgraded = a.upgraded;
            answered = a.answered;
            registered = a.registered;
          })
    ]
