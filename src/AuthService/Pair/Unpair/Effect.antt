-- ===== src/AuthService/Pair/Unpair/Effect.antt =====
-- An unpairing reaches the phone's credential and the live connections of the pair.
use secure_gateway.Common.{
  ℕ, ◌<◌, ◌≡◌, ◌≢◌, ◌⊎◌, ◌∙◌, ap, sym, subst, inl, inr, String, true, Option, none, some, List, [],
  ◌∷◌, ◌++◌, arith, string_key, nat_key, nat_eq, if◌then◌else◌, length, Bool-cases, Option-cases,
}
use secure_gateway.Common.Table.{get, put, get-put_self}
use secure_gateway.AuthStore.{Pairing, PairCredential, pairing_revoked}
use secure_gateway.AuthStore.State.{Store}
use secure_gateway.AuthStore.Tokens.{revoke_pair_credential}
use secure_gateway.Backplane.{
  Backplane, SlotKey, slot_key, RevocationEvent, send_all, publish_revocation,
}
use secure_gateway.Relay.Session.{Session}
use secure_gateway.Relay.Hub.{Hub, revoke}
use secure_gateway.Relay.Hub.Scope.{revoke-closes}
use secure_gateway.AuthService.{Env, World, going, publish_event, publish_on}
use secure_gateway.AuthService.Pair.Unpair.{handle_unpair}
use secure_gateway.AuthService.Pair.Unpair.Cut.{
  Unpairable, unpair-steps, revoke_credential-pairings,
}

-- What waits in a revocation channel.
abbrev pub queue_of : ℕ → List (ℕ × List RevocationEvent) → Option (List RevocationEvent)
queue_of ch [] = none
queue_of ch ((c, q) ∷ cs) = if nat_eq c ch then some q else queue_of ch cs

queue_of-send_all :
    (n ch : ℕ) (ev : RevocationEvent) (q : List RevocationEvent)
    (cs : List (ℕ × List RevocationEvent))
    → queue_of ch cs ≡ some q
    → length q < n
    → queue_of ch (send_all n ev cs) ≡ some (q ++ ev ∷ [])
queue_of-send_all n ch ev q [] h room = absurd (ground arith)
queue_of-send_all n ch ev q ((c, x) ∷ cs) h room = ground (arith, queue_of-send_all n ch ev q cs)

-- The credential of a pair, if there is one, is revoked.
abbrev pub IsCutOff : String → Store → Type 0
IsCutOff pair s =
    (get pair s.pair_credentials ≡ none)
    ⊎ ((c : PairCredential) × (get pair s.pair_credentials ≡ some c) × (c.revoked_at ≢ 0))

revoke_credential-IsCutOff :
    (pair : String) (now : ℕ) (s : Store)
    → 0 < now
    → IsCutOff pair (revoke_pair_credential pair now s)
unfolding revoke_pair_credential
revoke_credential-IsCutOff pair now s positive = elim (Option-cases (get pair s.pair_credentials)) [
  | inl e ↦ inl (ground (arith, e))
  | inr (c, e) ↦ elim (Bool-cases (nat_eq c.revoked_at 0)) [
    | inl live ↦ inr (
      record c { revoked_at = now },
      ground (arith, e, live, get-put_self pair (record c { revoked_at = now }) s.pair_credentials),
      ground arith,
    )
    | inr dead ↦ inr (c, ground (arith, e, dead), ground arith)
  ]
]

-- An unpairing that succeeds is by a caller who may (of the pairing's account, and on a phone with that
-- pair's own credential). Afterwards the pairing is revoked, and the phone's credential, if there is
-- one, is revoked. Every revocation channel with room gets one event at its end, and a hub that takes
-- this event closes each open session of the pair that it has indexed, with 4004 "revoked". It is
-- supposed that the instant is positive and that the pairings stand under their own ids.
pub unpair-ends :
    (env : Env) (now : ℕ) (secret pair : String) (w w' : World) (b : Backplane) (ch : ℕ)
    (q : List RevocationEvent) (g : Hub) (k : SlotKey) (j : ℕ) (t : Session)
    → ((id : String) (p : Pairing) → get id w.store.pairings ≡ some p → p.pair_id ≡ id)
    → 0 < now
    → handle_unpair env now secret (some pair) w ≡ going w'
    → w.bp ≡ some b
    → queue_of ch b.revs ≡ some q
    → length q < b.qsize
    → get k g.local ≡ some j
    → get j g.sessions ≡ some t
    → t.claims.pair_id ≡ pair
    → t.closed ≡ none
    → (u : Unpairable env now secret pair w.store) × (get pair w'.store.pairings
        ≡ some (record u.p { status = pairing_revoked }))
      × IsCutOff pair w'.store
      × (c : Backplane) × (w'.bp ≡ some c)
      × (ev : RevocationEvent) × (queue_of ch c.revs ≡ some (q ++ ev ∷ []))
      × (get j (revoke ev g).sessions
          ≡ some (record t { cancelled = true; closed = some (4004, "revoked") }))
unfolding publish_event publish_revocation
unpair-ends env now secret pair w w' b ch q g k j t keyed positive h on listens room at there own
      live =
    let (full, u, e) = unpair-steps env now secret pair w w' keyed h in
    let ev : RevocationEvent = record { pair_id = pair; account_id = "" } in
    let s : Store = record w.store {
      pairings = put pair (record u.p { status = pairing_revoked }) w.store.pairings;
    } in
    (
      u,
      ap (λ v. get pair v.store.pairings) e
          ∙ ap (get pair) (revoke_credential-pairings pair now s)
          ∙ get-put_self pair (record u.p { status = pairing_revoked }) w.store.pairings,
      subst (λ v. IsCutOff pair v.store) (sym e) (revoke_credential-IsCutOff pair now s positive),
      publish_revocation ev b,
      ap (λ v. v.bp) e ∙ ap (publish_on ev) on,
      ev,
      queue_of-send_all b.qsize ch ev q b.revs listens room,
      elim (revoke-closes ev g k j t at there (inl (full, own))) [
        | inl (o, closed) ↦ closed
        | inr (first, shut, kept) ↦ absurd (ground (arith, live, shut))
      ],
    )
