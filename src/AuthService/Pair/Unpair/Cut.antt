-- ===== src/AuthService/Pair/Unpair/Cut.antt =====
-- What an unpairing leaves behind.
use secure_gateway.Common.{
  ◌∙◌, ap, ℕ, ◌+◌, ◌≡◌, ◌≢◌, refl, sym, String, str_eq, eq_iff, true, not, Option, none, some,
  arith, string_key, count,
}
use secure_gateway.Common.Table.{get, put, get-put_self, values}
use secure_gateway.AuthStore.{Pairing, pairing_active, pairing_revoked}
use secure_gateway.AuthStore.State.{Store, Outcome, ok, fail}
use secure_gateway.AuthStore.Pairings.{set_pairing_status, active_pair_count, active_for_license}
use secure_gateway.AuthStore.Pairings.Count.{count-revoke}
use secure_gateway.AuthStore.Tokens.{revoke_pair_credential}
use secure_gateway.AuthService.{Env, World, Flow, going, ◌>>=◌, with_store, publish_event}
use secure_gateway.AuthService.Credentials.{Caller, authenticate_account_or_pair}
use secure_gateway.AuthService.Issue.{TokenReq, TokenResp, handle_issue_token}
use secure_gateway.AuthService.Issue.Entitled.{issue_sound}
use secure_gateway.AuthService.Ends.{need-going, require-going, going-injective}
use secure_gateway.AuthService.Pair.{stored}
use secure_gateway.AuthService.Pair.Unpair.{handle_unpair, own_pair, pairing_of}

-- What a caller must be to unpair: of the pairing's account, and with the pair's own credential where
-- it is a phone.
pub record Unpairable (env : Env) (now : ℕ) (secret pair : String) (s : Store) : Type 0 where
  pub caller : Caller
  pub p : Pairing
  pub authenticated : authenticate_account_or_pair env now secret s ≡ some caller
  pub own : own_pair pair caller.credential ≡ true
  pub there : get pair s.pairings ≡ some p
  pub owned : p.account_id ≡ caller.account_id

stored-going {ℓ κ} :
    {A : Type ℓ} {B : Type κ} (w : World) (o : Outcome A) (f : A → Flow B) {b : B}
    → (stored w o >>= f) ≡ going b
    → (a : A) × (o ≡ ok a) × (f a ≡ going b)
stored-going w (fail e) f h = cc
stored-going w (ok a) f h = (a, refl, h)

pairing_of-some :
    (account : String) (o : Option Pairing) (p : Pairing)
    → pairing_of account o ≡ some p
    → (o ≡ some p) × (p.account_id ≡ account)
pairing_of-some account none p h = absurd (ground arith)
pairing_of-some account (some q) p h =
    let mine : str_eq q.account_id account ≡ true = ground arith in
    let is_it : q ≡ p = ground arith in
    (ap some is_it, sym (ap (λ x. x.account_id) is_it) ∙ (eq_iff q.account_id account).0 mine)

status-ok :
    (id : String) (p : Pairing) (s s' : Store)
    → get id s.pairings ≡ some p
    → set_pairing_status id pairing_revoked s ≡ ok s'
    → s' ≡ record s { pairings = put id (record p { status = pairing_revoked }) s.pairings }
unfolding set_pairing_status
status-ok id p s s' there h = ground arith

-- An unpairing that succeeds names a pair, is by a caller who may, and ends in this world.
pub unpair-steps :
    (env : Env) (now : ℕ) (secret pair : String) (w w' : World)
    → ((id : String) (p : Pairing) → get id w.store.pairings ≡ some p → p.pair_id ≡ id)
    → handle_unpair env now secret (some pair) w ≡ going w'
    → (pair ≢ "")
      × (t : Unpairable env now secret pair w.store) × (w'
          ≡ publish_event
              (record { pair_id = pair; account_id = "" })
              (with_store w (
                revoke_pair_credential pair now (record w.store {
                  pairings = put pair (record t.p { status = pairing_revoked }) w.store.pairings;
                }))))
unfolding handle_unpair
unpair-steps env now secret pair w w' keyed h =
    let (caller, a, h1) =
      need-going w (authenticate_account_or_pair env now secret w.store) 401 "unauthorized" _ h in
    let (named, h2) = require-going w (not (str_eq pair "")) 400 "bad_request" _ h1 in
    let (own, h3) =
      require-going w (own_pair pair caller.credential) 404 "pairing_not_found" _ h2 in
    let (p, found, h4) =
      need-going w (pairing_of caller.account_id (get pair w.store.pairings)) 404
        "pairing_not_found" _ h3 in
    let (there, owned) = pairing_of-some caller.account_id (get pair w.store.pairings) p found in
    let id : p.pair_id ≡ pair = keyed pair p there in
    let (s, set, h5) = stored-going w (set_pairing_status p.pair_id pairing_revoked w.store) _ h4 in
    let is_s =
      status-ok pair p w.store s there
        (ap (λ i. set_pairing_status i pairing_revoked w.store) (sym id) ∙ set) in
    (
      ground (arith, eq_iff pair ""),
      record { caller = caller; p = p; authenticated = a; own = own; there = there; owned = owned },
      sym (going-injective h5)
          ∙ ap
              (λ i.
                publish_event (record { pair_id = i; account_id = "" })
                  (with_store w (revoke_pair_credential i now s)))
              id
          ∙ ap
              (λ x.
                publish_event (record { pair_id = pair; account_id = "" })
                  (with_store w (revoke_pair_credential pair now x)))
              is_s,
    )

pub revoke_credential-pairings :
    (pair : String) (now : ℕ) (s : Store)
    → (revoke_pair_credential pair now s).pairings ≡ s.pairings
unfolding revoke_pair_credential
revoke_credential-pairings pair now s = ground arith

unpair-pairings :
    (env : Env) (now : ℕ) (secret pair : String) (w w' : World)
    → ((id : String) (p : Pairing) → get id w.store.pairings ≡ some p → p.pair_id ≡ id)
    → handle_unpair env now secret (some pair) w ≡ going w'
    → (p : Pairing) × (get pair w.store.pairings ≡ some p)
      × (w'.store.pairings ≡ put pair (record p { status = pairing_revoked }) w.store.pairings)
unfolding publish_event
unpair-pairings env now secret pair w w' keyed h =
    let (full, t, e) = unpair-steps env now secret pair w w' keyed h in
    (
      t.p,
      t.there,
      ap (λ v. v.store.pairings) e
          ∙ revoke_credential-pairings pair now (record w.store {
            pairings = put pair (record t.p { status = pairing_revoked }) w.store.pairings;
          }),
    )

-- Once a pair has been unpaired, no caller is issued a token for it in the world that the unpairing
-- leaves, at whatever instant. It is supposed that the pairings stand under their own ids.
pub unpair-cuts :
    (env : Env) (now later : ℕ) (secret other pair : String) (req : TokenReq) (w w' : World)
    (r : World × TokenResp)
    → ((id : String) (p : Pairing) → get id w.store.pairings ≡ some p → p.pair_id ≡ id)
    → handle_unpair env now secret (some pair) w ≡ going w'
    → req.pair_id ≡ pair
    → ¬ (handle_issue_token env later other (some req) w' ≡ going r)
unpair-cuts env now later secret other pair req w w' r keyed h same issued =
    let (p, there, e) = unpair-pairings env now secret pair w w' keyed h in
    let (t, c, signed, certified) = issue_sound env later other req w' r issued in
    let at : get req.pair_id w'.store.pairings ≡ some (record p { status = pairing_revoked }) =
      ap (λ i. get i w'.store.pairings) same
      ∙ ap (get pair) e
      ∙ get-put_self pair (record p { status = pairing_revoked }) w.store.pairings in
    ground (arith, sym at ∙ t.pairing_there, t.pairing_live)

-- Unpairing an active pairing frees exactly one slot of its license. It is supposed that the
-- pairings stand under their own ids.
pub unpair-frees :
    (env : Env) (now : ℕ) (secret pair : String) (p : Pairing) (w w' : World)
    → ((id : String) (p : Pairing) → get id w.store.pairings ≡ some p → p.pair_id ≡ id)
    → get pair w.store.pairings ≡ some p
    → p.status ≡ pairing_active
    → handle_unpair env now secret (some pair) w ≡ going w'
    → active_pair_count p.license_id w'.store + 1 ≡ active_pair_count p.license_id w.store
unfolding active_pair_count
unpair-frees env now secret pair p w w' keyed there live h =
    let (q, at, e) = unpair-pairings env now secret pair w w' keyed h in
    let is_p : q ≡ p = ground (arith, sym at ∙ there) in
    let next =
      e ∙ ap (λ x. put pair (record x { status = pairing_revoked }) w.store.pairings) is_p in
    let mine : active_for_license p.license_id p ≡ true =
      ground (arith, eq_iff p.license_id p.license_id) in
    ap (λ m. count (active_for_license p.license_id) (values m) + 1) next
    ∙ (rw mine at (count-revoke p pair p.license_id w.store.pairings there))
