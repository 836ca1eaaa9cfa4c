-- ===== src/Backplane.antt =====
-- internal/backplane/backplane.go and internal/backplane/memory/memory.go: the slot registry, the
-- routing and the revocation channel of one process. Each method runs under a mutex and is one step;
-- `now` is what the clock gives it. A Go channel is its queue, oldest first, and a send that would
-- block is dropped, as the `select` with a default does. The instance that reads a channel takes
-- from its head.
pub mod Slots
use secure_gateway.Common.{
  ℕ, suc, ◌+◌, ◌≡◌, refl, ◌↔◌, String, str_eq, eq_iff, Bool, true, false, ◌&&◌, not, Option, none,
  some, List, [], ◌∷◌, ◌++◌, arith, if◌then◌else◌, ltb, leb, nat_eq, length, Key, string_key, map,
}
use secure_gateway.Common.Table.{Table, get, put, remove}

pub record SlotKey : Type 0 where
  pub pair_id : String
  pub role : String

abbrev pub same_slot : SlotKey → SlotKey → Bool
same_slot a b = str_eq a.pair_id b.pair_id && str_eq a.role b.role

pub same_slot_iff : (a b : SlotKey) → (same_slot a b ≡ true) ↔ (a ≡ b)
same_slot_iff a b = ground (arith, eq_iff a.pair_id b.pair_id, eq_iff a.role b.role)

instance abbrev pub slot_key : Key SlotKey
slot_key = record { same = same_slot; same_iff = same_slot_iff }

-- An empty `evicted_conn_id` is "the slot was free".
pub record ClaimResult : Type 0 where
  pub won : Bool
  pub evicted_conn_id : String
  pub evicted_on_this_instance : Bool

pub record RoutedFrame : Type 0 where
  pub pair_id : String
  pub to_role : String
  pub from_conn : String
  pub payload : List ℕ

pub record RevocationEvent : Type 0 where
  pub pair_id : String
  pub account_id : String

pub record Entry : Type 0 where
  pub conn_id : String
  pub instance_id : String
  pub expires_at : ℕ

-- `revs` holds the revocation channels by an identity that `next_rev` hands out.
pub record Backplane : Type 0 where
  pub ttl : ℕ
  pub qsize : ℕ
  pub slots : Table SlotKey Entry
  pub frames : Table String (List RoutedFrame)
  pub evictions : Table String (List SlotKey)
  pub revs : List (ℕ × List RevocationEvent)
  pub next_rev : ℕ

unfoldable pub new_backplane : ℕ → ℕ → Backplane
new_backplane ttl qsize = record {
  ttl = ttl;
  qsize = if nat_eq qsize 0 then 256 else qsize;
  slots = [];
  frames = [];
  evictions = [];
  revs = [];
  next_rev = 0;
}

-- A send that does not block.
abbrev pub send {ℓ} : {A : Type ℓ} → ℕ → A → List A → List A
send qsize x q = if ltb (length q) qsize then q ++ x ∷ [] else q

abbrev send_to {ℓ} :
    {A : Type ℓ} → ℕ → String → A → Option (List A) → Table String (List A) → Table String (List A)
send_to qsize name x none m = m
send_to qsize name x (some q) m = put name (send qsize x q) m

unfoldable pub notify_eviction : String → SlotKey → Backplane → Backplane
notify_eviction name key b = record b {
  evictions = send_to b.qsize name key (get name b.evictions) b.evictions;
}

-- Whom a claim displaces: a live holder with another connection.
abbrev pub displaced : ℕ → String → Option Entry → Option Entry
displaced now conn none = none
displaced now conn (some cur) =
    if ltb now cur.expires_at && not (str_eq cur.conn_id conn) then some cur else none

abbrev store_claim : ℕ → SlotKey → String → String → Backplane → Backplane
store_claim now key conn name b = record b {
  slots = put key (record { conn_id = conn; instance_id = name; expires_at = now + b.ttl }) b.slots;
}

abbrev claim_result : String → Option Entry → ClaimResult
claim_result name none = record {
  won = true;
  evicted_conn_id = "";
  evicted_on_this_instance = false;
}
claim_result name (some cur) = record {
  won = true;
  evicted_conn_id = cur.conn_id;
  evicted_on_this_instance = str_eq cur.instance_id name;
}

abbrev notify_displaced : String → SlotKey → Option Entry → Backplane → Backplane
notify_displaced name key none b = b
notify_displaced name key (some cur) b =
    if str_eq cur.instance_id name then b else notify_eviction cur.instance_id key b

unfoldable pub claim_slot : ℕ → SlotKey → String → String → Backplane → Backplane × ClaimResult
claim_slot now key conn name b =
    let old = displaced now conn (get key b.slots) in
    (store_claim now key conn name (notify_displaced name key old b), claim_result name old)

pub data BackplaneError : Type 0 where
  not_slot_owner unavailable : BackplaneError

abbrev renew_entry :
    ℕ → SlotKey → String → Option Entry → Backplane → Backplane × Option BackplaneError
renew_entry now key conn none b = (b, some not_slot_owner)
renew_entry now key conn (some cur) b =
    if str_eq cur.conn_id conn
    then (record b { slots = put key (record cur { expires_at = now + b.ttl }) b.slots }, none)
    else (b, some not_slot_owner)

unfoldable pub renew_slot : ℕ → SlotKey → String → Backplane → Backplane × Option BackplaneError
renew_slot now key conn b = renew_entry now key conn (get key b.slots) b

abbrev pub owned_by : String → Option Entry → Bool
owned_by conn none = false
owned_by conn (some cur) = str_eq cur.conn_id conn

unfoldable pub release_slot : SlotKey → String → Backplane → Backplane
release_slot key conn b =
    if owned_by conn (get key b.slots) then record b { slots = remove key b.slots } else b

abbrev pub live_instance : ℕ → Option Entry → String
live_instance now none = ""
live_instance now (some cur) = if ltb now cur.expires_at then cur.instance_id else ""

-- The empty text is "the slot is free".
unfoldable pub lookup_instance : ℕ → SlotKey → Backplane → String
lookup_instance now key b = live_instance now (get key b.slots)

unfoldable pub publish : String → RoutedFrame → Backplane → Backplane
publish name f b = record b { frames = send_to b.qsize name f (get name b.frames) b.frames }

-- A new channel takes the place of an older one of the same instance.
unfoldable pub subscribe_frames : String → Backplane → Backplane
subscribe_frames name b = record b { frames = put name [] b.frames }

-- What the goroutine of the subscription does when its context ends.
unfoldable pub unsubscribe_frames : String → Backplane → Backplane
unsubscribe_frames name b = record b { frames = remove name b.frames }

unfoldable pub subscribe_evictions : String → Backplane → Backplane
subscribe_evictions name b = record b { evictions = put name [] b.evictions }

unfoldable pub unsubscribe_evictions : String → Backplane → Backplane
unsubscribe_evictions name b = record b { evictions = remove name b.evictions }

-- The second result is the channel.
unfoldable pub subscribe_revocations : Backplane → Backplane × ℕ
subscribe_revocations b =
    (record b { revs = b.revs ++ (b.next_rev, []) ∷ []; next_rev = suc b.next_rev }, b.next_rev)

abbrev drop_channel : ℕ → List (ℕ × List RevocationEvent) → List (ℕ × List RevocationEvent)
drop_channel ch [] = []
drop_channel ch ((c, q) ∷ cs) = if nat_eq c ch then cs else (c, q) ∷ drop_channel ch cs

unfoldable pub unsubscribe_revocations : ℕ → Backplane → Backplane
unsubscribe_revocations ch b = record b { revs = drop_channel ch b.revs }

abbrev pub send_all :
    ℕ → RevocationEvent → List (ℕ × List RevocationEvent) → List (ℕ × List RevocationEvent)
send_all qsize ev [] = []
send_all qsize ev ((c, q) ∷ cs) = (c, send qsize ev q) ∷ send_all qsize ev cs

unfoldable pub publish_revocation : RevocationEvent → Backplane → Backplane
publish_revocation ev b = record b { revs = send_all b.qsize ev b.revs }
