-- ===== src/E2ee/Guard.antt =====
-- internal/e2ee/e2ee.go: timestamps, and the replay guard of a session.
use secure_gateway.Common.{
  ℕ, String, Bool, true, false, ◌&&◌, ◌||◌, not, Option, none, some, [], ltb, if◌then◌else◌,
}
use secure_gateway.Common.{string_key}
use secure_gateway.Common.Words.{Int64, two_63, behind}
use secure_gateway.Common.Table.{Table, get, put, discard}

abbrev pub default_replay_window_millis : ℕ
default_replay_window_millis = 300000

pub record ReplayGuard : Type 0 where
  pub window : ℕ
  pub last_ts : Int64
  pub seen : Table String Int64
  pub primed : Bool

-- The zero of `last_ts` is the integer 0.
abbrev pub new_replay_guard : ℕ → ReplayGuard
new_replay_guard window = record { window = window; last_ts = two_63; seen = []; primed = false }

pub data Refusal : Type 0 where
  stale replay : Refusal

abbrev pub floor : ReplayGuard → Int64
floor g = behind g.last_ts g.window

abbrev pub is_stale : ReplayGuard → Int64 → Bool
is_stale g ts = g.primed && ltb ts (floor g)

-- The guard once it has taken an envelope in.
unfoldable pub admit : ReplayGuard → String → Int64 → ReplayGuard
admit g id ts =
    let last = if not g.primed || ltb g.last_ts ts then ts else g.last_ts in
    record g {
      last_ts = last;
      seen = discard (λ v. ltb v (behind last g.window)) (put id ts g.seen);
      primed = true;
    }

abbrev if_unseen : ReplayGuard → String → Int64 → Option Int64 → ReplayGuard × Option Refusal
if_unseen g id ts none = (admit g id ts, none)
if_unseen g id ts (some v) = (g, some replay)

-- The guard after the call, and the error.
unfoldable pub check : ReplayGuard → String → Int64 → ReplayGuard × Option Refusal
check g id ts = if is_stale g ts then (g, some stale) else if_unseen g id ts (get id g.seen)
