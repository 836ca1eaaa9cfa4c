-- ===== src/Tests/Connect.antt =====
-- Connection attempts to a relay.
use secure_gateway.Common.{
  ℕ, zero, suc, ◌≡◌, ◌⊎◌, refl, String, str_eq, true, false, Option, none, some, List, [], ◌∷◌,
  if◌then◌else◌,
}
use secure_gateway.Token.{missing_token, malformed, unauthorized}
use secure_gateway.RateLimit.{Bucket, new_ban_tracker}
use secure_gateway.Relay.Connect.{
  Request, NetText, Server, Answer, connected, too_many, unauthenticated, server_draining,
  client_ip, retry_after, handle_connect, on_violation,
}
use secure_gateway.AuthService.Limits.{
  Reply, handled, rate_limited, RateLimiters, new_rate_limiters, limit, bearer,
}
use secure_gateway.Relay.Connect.Gates.{IsRefused}
use secure_gateway.Relay.Connect.Pass.{IsConnected, connect-Gated}
use secure_gateway.Tests.Hub.{relay_env, empty_hub}

-- A bucket that holds as many tokens as its burst and never fills up.
abbrev leaky : Bucket
leaky = record {
  Lim = ℕ;
  new_lim = λ rate burst. burst;
  allow_lim = λ now left. elim left [ zero ↦ (zero, false) | suc n ↦ (n, true) ];
}

abbrev net : NetText
net = record {
  split_host = λ addr. if str_eq addr "1.2.3.4:5" then some "1.2.3.4" else none;
  trim = λ s. s;
}

abbrev request : String → Request
request authorization = record {
  query_has = λ key. false;
  header = λ key.
      if str_eq key "Authorization"
      then authorization
      else if str_eq key "X-Forwarded-For"
      then "9.9.9.9,1.2.3.4"
      else "";
  remote_addr = "1.2.3.4:5";
}

abbrev server : Server leaky
server = record {
  draining = false;
  bans = some (new_ban_tracker 2 100 2500000000);
  ip_limiter = some (record { limit = 1; burst = 1; buckets = [] });
  trust_proxy = false;
  out_queue_size = 4;
  next = 1;
  hub = empty_hub;
}

abbrev try : Request → Server leaky → Server leaky × Answer
try r s = handle_connect leaky relay_env net 50 true r s

-- The header of a proxy is read only where it is trusted. A token in the query is refused though the
-- header has one too. The bucket has one token. Two violations are a ban of two and a half seconds,
-- which the header rounds up.
runs :
    (client_ip net false (request "") ≡ "1.2.3.4")
    × (client_ip net true (request "") ≡ "9.9.9.9")
    × ((try (request "Bearer tok") server).1 ≡ connected 1)
    × ((try (request "") server).1 ≡ unauthenticated (unauthorized missing_token))
    × ((try (record (request "Bearer tok") { query_has = λ key. str_eq key "token" }) server).1
        ≡ unauthenticated (unauthorized malformed))
    × ((try (request "Bearer tok") (try (request "") server).0).1 ≡ too_many 1)
    × ((try
          (request "Bearer tok")
          (on_violation leaky "1.2.3.4" 50 (on_violation leaky "1.2.3.4" 50 server))).1
        ≡ too_many 3)
unfolding handle_connect client_ip retry_after on_violation
    secure_gateway.Relay.Connect.bearer_token secure_gateway.RateLimit.banned
    secure_gateway.RateLimit.strike secure_gateway.RateLimit.strike_entry
    secure_gateway.RateLimit.allow secure_gateway.Common.Table.get secure_gateway.Common.Table.put
    secure_gateway.Token.verify secure_gateway.Token.validate_custom_claims
runs = (refl, refl, refl, refl, refl, refl, refl)

abbrev limiters : RateLimiters leaky
limiters = new_rate_limiters leaky (record {
  rate_limit_enabled = true;
  trust_proxy = false;
  ip_per_min = 10;
  ip_burst = 2;
  account_per_min = 1;
  account_burst = 1;
})

-- The handler counts its calls.
abbrev call : String → RateLimiters leaky → ℕ → RateLimiters leaky × (ℕ × Reply ℕ)
call authorization rl n = limit leaky (λ m. (suc m, m)) net str_eq 50 (request authorization) rl n

-- An account of burst 1 has one call, an address of burst 2 has two.
limited_runs :
    ((call "Bearer acct.s" limiters 0).1 ≡ (1, handled 0))
    × ((call "Bearer acct.s" (call "Bearer acct.s" limiters 0).0 1).1 ≡ (1, rate_limited "account"))
    × ((call "" (call "" limiters 0).0 1).1 ≡ (2, handled 1))
    × ((call "" (call "" (call "" limiters 0).0 1).0 2).1 ≡ (2, rate_limited "ip"))
unfolding limit bearer new_rate_limiters client_ip secure_gateway.AuthService.Credentials.owner_of
    secure_gateway.RateLimit.allow secure_gateway.Common.Table.get secure_gateway.Common.Table.put
limited_runs = (refl, refl, refl, refl)

connect-Gated_example :
    IsConnected leaky relay_env net 50 true
      (request "Bearer tok")
      server
      (try (request "Bearer tok") server)
    ⊎ IsRefused leaky relay_env net 50 true
        (request "Bearer tok")
        server
        (try (request "Bearer tok") server)
connect-Gated_example = connect-Gated leaky relay_env net 50 true (request "Bearer tok") server
