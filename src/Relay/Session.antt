-- ===== src/Relay/Session.antt =====
-- internal/relay/session/session.go: one client connection. The socket is outside: what the write
-- pump takes off `out` is what the client is sent.
use secure_gateway.Common.{
  ℕ, ◌+◌, String, Bool, true, false, ◌&&◌, Option, none, some, List, [], ◌∷◌, ◌++◌, nat_eq, ltb,
  leb, length, if◌then◌else◌,
}
use secure_gateway.Token.{Claims}
use secure_gateway.Backplane.{BackplaneError, not_slot_owner, unavailable}
use secure_gateway.Relay.Protocol.{close_superseded, close_token_expired, close_protocol}

-- `closed` is what closeOnce has run with; `cancelled` is the context, which also ends when the
-- read pump returns. An `expiry` of 0 is "none"; `refreshed` is the channel of one place.
pub record Session : Type 0 where
  pub id : String
  pub claims : Claims
  pub out_queue_size : ℕ
  pub out : List (List ℕ)
  pub cancelled : Bool
  pub closed : Option (ℕ × String)
  pub expiry : ℕ
  pub refreshed : Bool
  pub renewer : Bool

abbrev unix_of : Option ℕ → ℕ
unix_of none = 0
unix_of (some t) = t

unfoldable pub new_session : Claims → String → ℕ → Session
new_session claims conn_id out_queue_size = record {
  id = conn_id;
  claims = claims;
  out_queue_size = if nat_eq out_queue_size 0 then 64 else out_queue_size;
  out = [];
  cancelled = false;
  closed = none;
  expiry = unix_of claims.expires_at;
  refreshed = false;
  renewer = false;
}

unfoldable pub set_expiry : ℕ → Session → Session
set_expiry unix s = record s { expiry = unix; refreshed = true }

-- With room in the queue and a cancelled context both cases of the `select` are ready, and the
-- scheduler picks one.
unfoldable pub enqueue : Bool → List ℕ → Session → Session × Bool
enqueue pick frame s =
    if ltb (length s.out) s.out_queue_size
    then (if s.cancelled && pick
        then (s, false)
        else (record s { out = s.out ++ frame ∷ [] }, true))
    else (s, false)

abbrev close_first : ℕ → String → Option (ℕ × String) → Session → Session
close_first code reason none s = record s { cancelled = true; closed = some (code, reason) }
close_first code reason (some first) s = s

unfoldable pub close_with : ℕ → String → Session → Session
close_with code reason s = close_first code reason s.closed s

-- The frame has been taken off the queue, and a failed write closes.
abbrev pub written_or_closed : Bool → Session → Session
written_or_closed written s = if written then s else close_with close_protocol "write error" s

abbrev pub take_next : Bool → Bool → List (List ℕ) → Session → Session
take_next pick written [] s = s
take_next pick written (frame ∷ rest) s =
    if s.cancelled && pick then s else written_or_closed written (record s { out = rest })

-- One turn of the write pump, which takes the oldest frame. With a cancelled context and a frame that
-- waits both cases of the `select` are ready, and `pick` says that the scheduler takes the context. A
-- pump that has returned is not told apart from one that the scheduler does not let run.
unfoldable pub write_next : Bool → Bool → Session → Session
write_next pick written s = take_next pick written s.out s

-- The end of Serve: the read pump has returned.
unfoldable pub unwind : Session → Session
unwind s = record s { cancelled = true }

abbrev renewed : Option BackplaneError → Session → Session
renewed none s = s
renewed (some not_slot_owner) s = close_with close_superseded "slot lost" s
renewed (some unavailable) s = s

-- `renew` with what RenewSlot answers.
unfoldable pub renew : Option BackplaneError → Session → Session
renew answer s = if s.renewer then renewed answer s else s

-- The monitor's loop: its counter of missed pongs, and whether it still runs.
pub record Monitor : Type 0 where
  pub session : Session
  pub missed : ℕ
  pub running : Bool

-- What the monitor's `select` takes: a tick with its pong (and the renewal's answer) or without, the
-- signal of a refresh, or the expiry timer at a unix time.
pub data Tick : Type 0 where
  pong : Option BackplaneError → Tick
  silence refresh_signal : Tick
  timer : ℕ → Tick

abbrev tick : Tick → Monitor → Monitor
tick (pong answer) m = record m { session = renew answer m.session; missed = 0 }
tick silence m =
    if leb 1 m.missed
    then record m {
      session = close_with 1001 "heartbeat timeout" m.session;
      missed = m.missed + 1;
      running = false;
    }
    else record m { missed = m.missed + 1 }
tick refresh_signal m = record m { session = record m.session { refreshed = false } }
tick (timer now) m =
    if leb m.session.expiry now && ltb 0 m.session.expiry
    then record m {
      session = close_with close_token_expired "token expired" m.session;
      running = false;
    }
    else m

-- One turn of the loop. A cancelled context is ready beside the case `t`, and `pick` says that the
-- scheduler takes the context, which ends the loop.
unfoldable pub monitor_step : Bool → Tick → Monitor → Monitor
monitor_step pick t m =
    if m.running
    then (if m.session.cancelled && pick then record m { running = false } else tick t m)
    else m
