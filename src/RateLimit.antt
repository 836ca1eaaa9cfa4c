-- ===== src/RateLimit.antt =====
-- internal/ratelimit/ratelimit.go: the strike and ban tracker, and the keyed limiter. Times are
-- nanoseconds since Go's zero time and durations are not negative, so that the truncated
-- `now - start` answers `now.Sub(start) > window` also where `start` is ahead of `now`.
pub mod Window
pub mod Sweep
use secure_gateway.Common.{
  ℕ, suc, ◌+◌, ◌-◌, ◌≤◌, String, Bool, true, false, ◌&&◌, ◌||◌, Option, none, some, List, [], ◌∷◌,
  if◌then◌else◌, leb, ltb, nat_eq, string_key, count,
}
use secure_gateway.Common.Table.{Table, get, put, values, discard}

pub record BanEntry : Type 0 where
  pub strikes : ℕ
  pub window_start : ℕ
  pub banned_until : ℕ

-- A threshold of 0 stands for any that is not positive.
pub record BanTracker : Type 0 where
  pub threshold : ℕ
  pub strike_window : ℕ
  pub ban_window : ℕ
  pub entries : Table String BanEntry

abbrev pub new_ban_tracker : ℕ → ℕ → ℕ → BanTracker
new_ban_tracker threshold strike_window ban_window = record {
  threshold = threshold;
  strike_window = strike_window;
  ban_window = ban_window;
  entries = [];
}

abbrev pub bans_disabled : BanTracker → Bool
bans_disabled b = nat_eq b.threshold 0

abbrev pub entry_or_new : ℕ → Option BanEntry → BanEntry
entry_or_new now none = record { strikes = 0; window_start = now; banned_until = 0 }
entry_or_new now (some e) = e

-- A stale strike window starts anew.
abbrev pub restart : ℕ → ℕ → BanEntry → BanEntry
restart window now e =
    if ltb e.banned_until now && ltb window (now - e.window_start)
    then record e { strikes = 0; window_start = now }
    else e

-- One more strike, which bans at the threshold.
abbrev pub score : ℕ → ℕ → ℕ → BanEntry → BanEntry × Bool
score threshold ban_window now e =
    if leb threshold (suc e.strikes)
    then (record { strikes = 0; window_start = now; banned_until = now + ban_window }, true)
    else (record e { strikes = suc e.strikes }, false)

unfoldable pub strike_entry : BanTracker → ℕ → Option BanEntry → BanEntry × Bool
strike_entry b now old =
    score b.threshold b.ban_window now (restart b.strike_window now (entry_or_new now old))

unfoldable pub strike : String → ℕ → BanTracker → BanTracker × Bool
strike key now b =
    if bans_disabled b
    then (b, false)
    else let (e, banned) = strike_entry b now (get key b.entries) in
      (record b { entries = put key e b.entries }, banned)

-- `none` is "not banned", `some d` the time left.
abbrev pub ban_left : ℕ → Option BanEntry → Option ℕ
ban_left now none = none
ban_left now (some e) = if ltb now e.banned_until then some (e.banned_until - now) else none

unfoldable pub banned : String → ℕ → BanTracker → Option ℕ
banned key now b = if bans_disabled b then none else ban_left now (get key b.entries)

unfoldable pub active_bans : ℕ → BanTracker → ℕ
active_bans now b =
    if bans_disabled b then 0 else count (λ e. ltb now e.banned_until) (values b.entries)

-- Swept: neither banned nor within its strike window.
abbrev pub is_stale : ℕ → ℕ → BanEntry → Bool
is_stale window now e = if ltb now e.banned_until then false else ltb window (now - e.window_start)

unfoldable pub sweep : ℕ → BanTracker → BanTracker
sweep now b =
    if bans_disabled b
    then b
    else record b { entries = discard (is_stale b.strike_window now) b.entries }

-- The keyed limiter. The token bucket of golang.org/x/time/rate is a parameter: its state, a new
-- bucket for a rate and a burst, and one Allow at an instant.
pub record Bucket : Type 1 where
  pub Lim : Type 0
  pub new_lim : ℕ → ℕ → Lim
  pub allow_lim : ℕ → Lim → Lim × Bool

module _ (bucket : Bucket) where
  open bucket use {Lim, new_lim, allow_lim}

  pub record LimiterEntry : Type 0 where
    pub lim : Lim
    pub seen : ℕ

  -- `limit` is the sustained rate in some fixed unit; 0 stands for any that is not positive.
  pub record KeyedLimiter : Type 0 where
    pub limit : ℕ
    pub burst : ℕ
    pub buckets : Table String LimiterEntry

  abbrev pub limiter_disabled : KeyedLimiter → Bool
  limiter_disabled k = nat_eq k.limit 0 || nat_eq k.burst 0

  abbrev pub bucket_or_new : KeyedLimiter → Option LimiterEntry → Lim
  bucket_or_new k none = new_lim k.limit k.burst
  bucket_or_new k (some e) = e.lim

  unfoldable pub allow : String → ℕ → KeyedLimiter → KeyedLimiter × Bool
  allow key now k =
      if limiter_disabled k
      then (k, true)
      else let (lim, pass) = allow_lim now (bucket_or_new k (get key k.buckets)) in
        (record k { buckets = put key (record { lim = lim; seen = now }) k.buckets }, pass)

  unfoldable pub sweep_limiter : ℕ → ℕ → KeyedLimiter → KeyedLimiter
  sweep_limiter idle now k = record k { buckets = discard (λ e. ltb e.seen (now - idle)) k.buckets }
