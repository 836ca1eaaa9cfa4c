-- ===== src/AuthService/Limits.antt =====
-- internal/authservice/ratelimit.go, and bearer of internal/authservice/auth.go: the limits before a
-- handler.
use Prim.Native.String.{len, slice}
use secure_gateway.Common.{
  ℕ, ◌≡◌, refl, String, Bool, true, false, ◌&&◌, Option, none, some, [], arith, ltb, if◌then◌else◌,
}
use secure_gateway.RateLimit.{Bucket, KeyedLimiter, allow, sweep_limiter}
use secure_gateway.Relay.Connect.{Request, NetText, client_ip, bearer_prefix}
use secure_gateway.AuthService.Credentials.{owner_of}

-- The bearer secret of a header, "" where there is none; `equal_fold` is strings.EqualFold.
unfoldable pub bearer : NetText → (String → String → Bool) → Request → String
bearer net equal_fold r =
    let h = r.header "Authorization" in
    if ltb (len bearer_prefix) (len h) && equal_fold (slice h 0 (len bearer_prefix)) bearer_prefix
    then net.trim (slice h (len bearer_prefix) (len h))
    else ""

-- `none` stands for "".
abbrev pub account_from_bearer : String → Option String
account_from_bearer secret = owner_of secret

-- What a limited endpoint answers: 429 with the kind of the limit, or what its handler answers.
pub data Reply {ℓ} (A : Type ℓ) : Type ℓ where
  rate_limited : String → Reply A
  handled : A → Reply A

module _ (bucket : Bucket) where
  -- A rate per minute, 0 for any that is not positive.
  abbrev pub new_keyed_limiter : ℕ → ℕ → KeyedLimiter bucket
  new_keyed_limiter per_minute burst = record { limit = per_minute; burst = burst; buckets = [] }

  -- `none` where rate limiting is disabled.
  pub record RateLimiters : Type 0 where
    pub ip : Option (KeyedLimiter bucket)
    pub account : Option (KeyedLimiter bucket)
    pub trust_proxy : Bool

  pub record LimitConfig : Type 0 where
    pub rate_limit_enabled : Bool
    pub trust_proxy : Bool
    pub ip_per_min : ℕ
    pub ip_burst : ℕ
    pub account_per_min : ℕ
    pub account_burst : ℕ

  unfoldable pub new_rate_limiters : LimitConfig → RateLimiters
  new_rate_limiters cfg =
      if cfg.rate_limit_enabled
      then record {
        ip = some (new_keyed_limiter cfg.ip_per_min cfg.ip_burst);
        account = some (new_keyed_limiter cfg.account_per_min cfg.account_burst);
        trust_proxy = cfg.trust_proxy;
      }
      else record { ip = none; account = none; trust_proxy = cfg.trust_proxy }

  -- Allow of a limiter that may be nil: a nil limiter allows.
  abbrev pub allow_if_set :
      String → ℕ → Option (KeyedLimiter bucket) → Option (KeyedLimiter bucket) × Bool
  allow_if_set key now none = (none, true)
  allow_if_set key now (some k) = let (k1, pass) = allow bucket key now k in (some k1, pass)

  abbrev pub allow_account :
      ℕ → Option String → Option (KeyedLimiter bucket) → Option (KeyedLimiter bucket) × Bool
  allow_account now none k = (k, true)
  allow_account now (some account) k = allow_if_set account now k

  abbrev sweep_if_set : ℕ → Option (KeyedLimiter bucket) → Option (KeyedLimiter bucket)
  sweep_if_set now none = none
  sweep_if_set now (some k) = some (sweep_limiter bucket 600000000000 now k)

  -- One tick of the sweeper.
  unfoldable pub sweep_limiters : ℕ → RateLimiters → RateLimiters
  sweep_limiters now rl = record rl {
    ip = sweep_if_set now rl.ip;
    account = sweep_if_set now rl.account;
  }

  module _ {ℓ κ} {W : Type ℓ} {A : Type κ} (next : W → W × A) where
    abbrev serve : RateLimiters → W → RateLimiters × (W × Reply A)
    serve rl w = let (w1, a) = next w in (rl, (w1, handled a))

    abbrev if_account :
        RateLimiters → W → Option (KeyedLimiter bucket) × Bool → RateLimiters × (W × Reply A)
    if_account rl w (k, pass) =
        if pass
        then serve (record rl { account = k }) w
        else (record rl { account = k }, (w, rate_limited "account"))

    abbrev if_ip :
        ℕ
        → Option String
        → RateLimiters
        → W
        → KeyedLimiter bucket × Bool
        → RateLimiters × (W × Reply A)
    if_ip now account rl w (k, pass) =
        if pass
        then if_account (record rl { ip = some k }) w (allow_account now account rl.account)
        else (record rl { ip = some k }, (w, rate_limited "ip"))

    abbrev if_limited :
        ℕ
        → String
        → Option String
        → RateLimiters
        → W
        → Option (KeyedLimiter bucket)
        → RateLimiters × (W × Reply A)
    if_limited now address account rl w none = serve rl w
    if_limited now address account rl w (some k) =
        if_ip now account rl w (allow bucket address now k)

    unfoldable pub limit :
        NetText
        → (String → String → Bool)
        → ℕ
        → Request
        → RateLimiters
        → W
        → RateLimiters × (W × Reply A)
    limit net equal_fold now r rl w =
        if_limited now (client_ip net rl.trust_proxy r)
          (account_from_bearer (bearer net equal_fold r)) rl w rl.ip

    abbrev Spares : W → RateLimiters × (W × Reply A) → Type (ℓ ⊔ κ)
    Spares w r = (kind : String) → r.1.1 ≡ rate_limited kind → r.1.0 ≡ w

    serve-Spares : (rl : RateLimiters) (w : W) → Spares w (serve rl w)
    serve-Spares rl w kind h = ground (arith, h)

    if_account-Spares :
        (rl : RateLimiters) (w : W) (r : Option (KeyedLimiter bucket) × Bool)
        → Spares w (if_account rl w r)
    if_account-Spares rl w (k, true) = serve-Spares (record rl { account = k }) w
    if_account-Spares rl w (k, false) = λ kind h. refl

    if_ip-Spares :
        (now : ℕ) (account : Option String) (rl : RateLimiters) (w : W)
        (r : KeyedLimiter bucket × Bool)
        → Spares w (if_ip now account rl w r)
    if_ip-Spares now account rl w (k, true) =
        if_account-Spares (record rl { ip = some k }) w (allow_account now account rl.account)
    if_ip-Spares now account rl w (k, false) = λ kind h. refl

    if_limited-Spares :
        (now : ℕ) (address : String) (account : Option String) (rl : RateLimiters) (w : W)
        (o : Option (KeyedLimiter bucket))
        → Spares w (if_limited now address account rl w o)
    if_limited-Spares now address account rl w none = serve-Spares rl w
    if_limited-Spares now address account rl w (some k) =
        if_ip-Spares now account rl w (allow bucket address now k)

    -- A request over a limit leaves the service as it was.
    limit-spares :
        (net : NetText) (equal_fold : String → String → Bool) (now : ℕ) (r : Request)
        (rl : RateLimiters) (w : W) (kind : String)
        → (limit net equal_fold now r rl w).1.1 ≡ rate_limited kind
        → (limit net equal_fold now r rl w).1.0 ≡ w
    unfolding limit
    limit-spares net equal_fold now r rl w kind h =
        if_limited-Spares now (client_ip net rl.trust_proxy r)
          (account_from_bearer (bearer net equal_fold r)) rl w rl.ip kind h
