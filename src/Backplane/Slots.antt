-- ===== src/Backplane/Slots.antt =====
-- Who holds a slot: the registry against its contract, and what a claim does to the old holder.
use secure_gateway.Common.{
  ℕ, ◌+◌, ◌<◌, ◌≡◌, ◌≢◌, refl, ap, ◌∙◌, fun_ext, String, str_eq, eq_iff, Bool, false, ◌&&◌, Option,
  none, some, List, [], ◌∷◌, ◌++◌, arith, if◌then◌else◌, length, same, same_refl, Option-cases, inl,
  inr, string_key,
}
use secure_gateway.Common.Table.{get, put, get-put, get-put_self, get-remove}
use secure_gateway.Backplane.{
  SlotKey, slot_key, same_slot_iff, Entry, Backplane, not_slot_owner, claim_slot, renew_slot,
  release_slot, lookup_instance, notify_eviction,
}

abbrev pub conn_of : Option Entry → Option String
conn_of none = none
conn_of (some e) = some e.conn_id

-- The connection that the registry has for a slot, expired or not.
abbrev pub holder : Backplane → SlotKey → Option String
holder b key = conn_of (get key b.slots)

pub data SlotOp : Type 0 where
  claims : ℕ → SlotKey → String → String → SlotOp
  renews : ℕ → SlotKey → String → SlotOp
  releases : SlotKey → String → SlotOp

unfoldable pub apply : SlotOp → Backplane → Backplane
apply (claims now key conn name) b = (claim_slot now key conn name b).0
apply (renews now key conn) b = (renew_slot now key conn b).0
apply (releases key conn) b = release_slot key conn b

unfoldable pub run : List SlotOp → Backplane → Backplane
run [] b = b
run (o ∷ os) b = run os (apply o b)

abbrev pub is_conn : String → Option String → Bool
is_conn conn none = false
is_conn conn (some c) = str_eq c conn

-- The contract: the newest claim holds the slot, only the holder can free it, and a renewal moves nothing.
abbrev pub hold : SlotOp → (SlotKey → Option String) → SlotKey → Option String
hold (claims now key conn name) f j = if same key j then some conn else f j
hold (renews now key conn) f j = f j
hold (releases key conn) f j = if same key j && is_conn conn (f key) then none else f j

abbrev pub held : List SlotOp → (SlotKey → Option String) → SlotKey → Option String
held [] f = f
held (o ∷ os) f = held os (hold o f)

claim_slots :
    (now : ℕ) (key : SlotKey) (conn name : String) (b : Backplane)
    → (claim_slot now key conn name b).0.slots
      ≡ put key (record { conn_id = conn; instance_id = name; expires_at = now + b.ttl }) b.slots
unfolding claim_slot notify_eviction
claim_slots now key conn name b = ground arith

pub holder-claim :
    (now : ℕ) (key : SlotKey) (conn name : String) (b : Backplane) (j : SlotKey)
    → holder (claim_slot now key conn name b).0 j ≡ (if same key j then some conn else holder b j)
holder-claim now key conn name b j = rw (claim_slots now key conn name b, get-put) (ground arith)

holder-renew :
    (now : ℕ) (key : SlotKey) (conn : String) (b : Backplane) (j : SlotKey)
    → holder (renew_slot now key conn b).0 j ≡ holder b j
unfolding renew_slot
holder-renew now key conn b j = elim (Option-cases (get key b.slots)) [
  | inl e ↦ rw e
  | inr (cur, e) ↦ rw e (
      ground (
        arith,
        eq_iff cur.conn_id conn,
        same_slot_iff key j,
        get-put key j (record cur { expires_at = now + b.ttl }) b.slots,
      ))
]

holder-release :
    (key : SlotKey) (conn : String) (b : Backplane) (j : SlotKey)
    → holder (release_slot key conn b) j
      ≡ (if same key j && is_conn conn (holder b key) then none else holder b j)
unfolding release_slot
holder-release key conn b j = ground (arith, get-remove key j b.slots)

apply-hold : (o : SlotOp) (b : Backplane) → holder (apply o b) ≡ hold o (holder b)
unfolding apply
apply-hold (claims now key conn name) b = fun_ext (holder-claim now key conn name b)
apply-hold (renews now key conn) b = fun_ext (holder-renew now key conn b)
apply-hold (releases key conn) b = fun_ext (holder-release key conn b)

-- The registry implements the contract: after any sequence of claims, renewals and releases, at any
-- instants, each slot is held by the connection that the contract says, or by none.
pub holder-run : (os : List SlotOp) (b : Backplane) → holder (run os b) ≡ held os (holder b)
unfolding run
holder-run [] b = refl
holder-run (o ∷ os) b = holder-run os (apply o b) ∙ ap (held os) (apply-hold o b)

-- Renewals and releases by connections other than the winner.
abbrev pub ByOthers : String → List SlotOp → Type 0
ByOthers winner [] = Unit {0}
ByOthers winner (claims now key conn name ∷ os) = ⊥
ByOthers winner (renews now key conn ∷ os) = (conn ≢ winner) × ByOthers winner os
ByOthers winner (releases key conn ∷ os) = (conn ≢ winner) × ByOthers winner os

held-ByOthers :
    (os : List SlotOp) (winner : String) (key : SlotKey) (f : SlotKey → Option String)
    → f key ≡ some winner
    → ByOthers winner os
    → held os f key ≡ some winner
held-ByOthers [] winner key f h o = h
held-ByOthers (claims now k conn name ∷ os) winner key f h o = absurd o
held-ByOthers (renews now k conn ∷ os) winner key f h o = held-ByOthers os winner key f h o.1
held-ByOthers (releases k conn ∷ os) winner key f h o =
    held-ByOthers os winner key (hold (releases k conn) f)
      (ground (arith, same_slot_iff k key, eq_iff winner conn, o.0)) o.1

pub renew_refused :
    (now : ℕ) (key : SlotKey) (conn winner : String) (b : Backplane)
    → holder b key ≡ some winner
    → conn ≢ winner
    → renew_slot now key conn b ≡ (b, some not_slot_owner)
unfolding renew_slot
renew_refused now key conn winner b h n = elim (Option-cases (get key b.slots)) [
  | inl e ↦ rw e
  | inr (cur, e) ↦ rw e (ground (arith, eq_iff cur.conn_id conn, e))
]

-- After a claim by `winner`, whatever superseded connections renew and release, the winner still
-- holds the slot, and any other connection's next renewal is refused with ErrNotSlotOwner and
-- changes nothing.
pub winner_keeps_slot :
    (now later : ℕ) (key : SlotKey) (winner name old : String) (os : List SlotOp) (b : Backplane)
    → ByOthers winner os
    → old ≢ winner
    → let c = run (claims now key winner name ∷ os) b in
      (holder c key ≡ some winner) × (renew_slot later key old c ≡ (c, some not_slot_owner))
winner_keeps_slot now later key winner name old os b others n =
    let h : holder (run (claims now key winner name ∷ os) b) key ≡ some winner =
      ap (λ f. f key) (holder-run (claims now key winner name ∷ os) b)
      ∙ held-ByOthers os winner key _ (rw (same_refl key)) others in
    (h, renew_refused later key old winner _ h n)

-- A claim on a slot that a live connection of another instance holds returns that connection, and
-- the key is queued once for that instance, if it listens and has room; afterwards the slot routes
-- to the claimer until its lifetime ends.
pub claim_displaces :
    (now later : ℕ) (key : SlotKey) (conn name : String) (b : Backplane) (cur : Entry)
    (q : List SlotKey)
    → get key b.slots ≡ some cur
    → now < cur.expires_at
    → cur.conn_id ≢ conn
    → cur.instance_id ≢ name
    → get cur.instance_id b.evictions ≡ some q
    → length q < b.qsize
    → later < now + b.ttl
    → let (c, r) = claim_slot now key conn name b in
      (r.evicted_conn_id ≡ cur.conn_id)
      × (r.evicted_on_this_instance ≡ false)
      × (get cur.instance_id c.evictions ≡ some (q ++ key ∷ []))
      × (lookup_instance later key c ≡ name)
unfolding claim_slot notify_eviction lookup_instance
claim_displaces now later key conn name b cur q hs live nc ni he room ttl = rw hs (
    ground (
      arith,
      he,
      eq_iff cur.conn_id conn,
      eq_iff cur.instance_id name,
      get-put_self cur.instance_id (q ++ key ∷ []) b.evictions,
      get-put_self key (record { conn_id = conn; instance_id = name; expires_at = now + b.ttl })
          b.slots,
    ))
