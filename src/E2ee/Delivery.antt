-- ===== src/E2ee/Delivery.antt =====
-- internal/e2ee/e2ee.go: a session delivers an envelope at most once.
use secure_gateway.Common.{
  ◌<◌, ◌≡◌, refl, String, arith, Option, none, some, List, [], ◌∷◌, All, ap, subst, sym,
}
use secure_gateway.Common.Words.{Int64, two_64}
use secure_gateway.E2ee.Guard.{
  ReplayGuard, new_replay_guard, check, default_replay_window_millis, Refusal,
}
use secure_gateway.E2ee.Session.{
  Bytes, Crypto, Session, new_session, open_wire, deliver, guarded, decipher, Result, ok, fail,
  Error, refused,
}
use secure_gateway.E2ee.Always.{new_session-holds}
use secure_gateway.E2ee.Once.{
  IsSound, IsSpent, check-IsSound, check-IsSpent, check-spends, check-refuses,
}

-- What arrives: the id, the timestamp and the payload of an envelope.
abbrev pub Arrival : Type 0
Arrival = String × Int64 × Bytes

-- A call of Open for each arrival, in order.
unfoldable pub open_all : Crypto → Session → List Arrival → Session
open_all c s [] = s
open_all c s ((id, ts, wire) ∷ rest) = open_all c (open_wire c s id ts wire).0 rest

abbrev pub HasInt64 : Arrival → Type 0
HasInt64 (id, ts, wire) = ts < two_64

pub guarded-recv :
    (s : Session) (plaintext : Bytes) (c : ReplayGuard × Option Refusal)
    → (guarded s plaintext c).0.recv ≡ c.0
guarded-recv s plaintext (g, none) = refl
guarded-recv s plaintext (g, some r) = refl

-- A property of the guard that no check breaks holds after a delivery.
deliver-keeps :
    (P : ReplayGuard → Type 0) (s : Session) (id : String) (ts : Int64) (r : Result Bytes)
    → (P s.recv → P (check s.recv id ts).0)
    → P s.recv
    → P (deliver s id ts r).0.recv
deliver-keeps P s id ts (ok plaintext) k h =
    subst P (sym (guarded-recv s plaintext (check s.recv id ts))) (k h)
deliver-keeps P s id ts (fail e) k h = h

open_all-keeps :
    (P : ReplayGuard → Type 0) (c : Crypto) (s : Session) (arrivals : List Arrival)
    → ((g : ReplayGuard) (id : String) (ts : Int64) → ts < two_64 → P g → P (check g id ts).0)
    → All HasInt64 arrivals
    → P s.recv
    → P (open_all c s arrivals).recv
unfolding open_all open_wire
open_all-keeps P c s [] k a h = h
open_all-keeps P c s ((id, ts, wire) ∷ rest) k a h =
    open_all-keeps P c (open_wire c s id ts wire).0 rest k a.1
      (deliver-keeps P s id ts (decipher c s.recv_key id ts wire) (k s.recv id ts a.0) h)

pub guarded-ok :
    (s t : Session) (p plaintext : Bytes) (c : ReplayGuard × Option Refusal)
    → guarded s p c ≡ (t, ok plaintext)
    → (c.1 ≡ none) × (c.0 ≡ t.recv)
guarded-ok s t p plaintext (g, none) h = (refl, ap (λ x. x.0.recv) h)
guarded-ok s t p plaintext (g, some r) h = cc

-- A delivery that succeeds leaves its envelope spent.
deliver-spends :
    (s t : Session) (id : String) (ts : Int64) (r : Result Bytes) (plaintext : Bytes)
    → IsSound s.recv
    → deliver s id ts r ≡ (t, ok plaintext)
    → IsSpent id ts t.recv
deliver-spends s t id ts (ok p) plaintext d h =
    let (fits, same) = guarded-ok s t p plaintext (check s.recv id ts) h in
    subst (IsSpent id ts) same (check-spends s.recv id ts d fits)
deliver-spends s t id ts (fail e) plaintext d h = cc

deliver-refused :
    (s : Session) (id : String) (ts : Int64) (r : Result Bytes)
    → IsSpent id ts s.recv
    → (e : Error) × ((deliver s id ts r).1 ≡ fail e)
deliver-refused s id ts (ok p) h =
    let (r, refuses) = check-refuses s.recv id ts h in (refused r, rw refuses refl)
deliver-refused s id ts (fail e) h = (e, refl)

abbrev HasNewGuard : Session → Type 0
HasNewGuard s = s.recv ≡ new_replay_guard default_replay_window_millis

open_all-IsSound :
    (c : Crypto) (s : Session) (arrivals : List Arrival)
    → IsSound s.recv
    → All HasInt64 arrivals
    → IsSound (open_all c s arrivals).recv
open_all-IsSound c s arrivals h a = open_all-keeps IsSound c s arrivals check-IsSound a h

open_all-IsSpent :
    (c : Crypto) (s : Session) (arrivals : List Arrival) (id : String) (ts : Int64)
    → IsSound s.recv
    → IsSpent id ts s.recv
    → All HasInt64 arrivals
    → IsSpent id ts (open_all c s arrivals).recv
open_all-IsSpent c s arrivals id ts h p a =
    (open_all-keeps (λ g. IsSound g × IsSpent id ts g) c s arrivals
      (λ g other now k q.
        (check-IsSound g other now k q.0, check-IsSpent g id other ts now q.0 k q.1))
      a (h, p)).1

new-IsSound : IsSound (new_replay_guard default_replay_window_millis)
new-IsSound = record { window-le = omega arith; last-lt = omega arith; distinct = tt }

-- What a session has delivered, it does not deliver again: from a new session, after any calls of
-- Open, an Open that succeeds, and any further calls, an Open with the same id and timestamp is an
-- error, whatever payload it is given. Timestamps are int64 values, with wrap-around.
pub open_once :
    (c : Crypto) (id_priv peer_id_pub eph_priv peer_eph_pub : Bytes) (my_role : String)
    (s t : Session) (before after : List Arrival) (id : String) (ts : Int64)
    (wire again plaintext : Bytes)
    → new_session c id_priv peer_id_pub eph_priv peer_eph_pub my_role ≡ ok s
    → All HasInt64 before
    → ts < two_64
    → open_wire c (open_all c s before) id ts wire ≡ (t, ok plaintext)
    → All HasInt64 after
    → (e : Error) × ((open_wire c (open_all c t after) id ts again).1 ≡ fail e)
unfolding open_wire
open_once c id_priv peer_id_pub eph_priv peer_eph_pub my_role s t before after id ts wire again
      plaintext new hb ht got ha =
    let r = decipher c (open_all c s before).recv_key id ts wire in
    let sound =
      open_all-IsSound c s before
        (subst IsSound
          (sym (
            new_session-holds HasNewGuard c id_priv peer_id_pub eph_priv peer_eph_pub my_role s
              (λ is_mobile k l hk hl. refl) new))
          new-IsSound)
        hb in
    let later =
      subst (λ u. IsSound u.0.recv) got
        (deliver-keeps IsSound (open_all c s before) id ts r
          (check-IsSound (open_all c s before).recv id ts ht) sound) in
    let spent = deliver-spends (open_all c s before) t id ts r plaintext sound got in
    deliver-refused (open_all c t after) id ts
      (decipher c (open_all c t after).recv_key id ts again)
      (open_all-IsSpent c t after id ts later spent ha)
