-- ===== src/AuthService/Pair/Complete/Once.antt =====
-- A pairing token completes one pairing.
use secure_gateway.Common.{
  ◌∙◌, ap, ℕ, ◌<◌, ◌≡◌, refl, sym, String, str_eq, true, ◌&&◌, not, Option, none, some, List, arith,
  string_key,
}
use secure_gateway.Common.Table.{get, put, get-put_self}
use secure_gateway.AuthStore.{
  License, Pairing, Device, PairingToken, conflict, not_found, capacity_exceeded,
}
use secure_gateway.AuthStore.State.{Store, Outcome, ok, fail}
use secure_gateway.AuthStore.Devices.{upsert_device}
use secure_gateway.AuthStore.Tokens.{consume_pairing_token}
use secure_gateway.AuthStore.Tokens.Rows.{consume_pairing-ok}
use secure_gateway.AuthStore.Tokens.Later.{Later, Later-IsConsumed}
use secure_gateway.AuthService.{Env, World, done, going, draw, with_store, license_issuable}
use secure_gateway.AuthService.Ends.{need-going, require-going, going-injective, flow-going}
use secure_gateway.AuthService.Pair.{
  capacity_available, gate_unless, is_some, active_pairing_for_desktop,
}
use secure_gateway.AuthService.Pair.Complete.{
  CompleteReq, CompleteResp, handle_complete_pairing, resolve_mobile, bind_pairing,
  grant_credential, consumed, pair_id_for, token_if, usable_key, desktop_if,
}
use secure_gateway.AuthService.Pair.Complete.Tokens.{bind-Same, grant-tokens, upsert-tokens}

consumed-going : (w : World) (o : Outcome Store) (s : Store) → consumed w o ≡ going s → o ≡ ok s
consumed-going w (ok t) s h = ap ok (going-injective h)
consumed-going w (fail conflict) s h = cc
consumed-going w (fail not_found) s h = cc
consumed-going w (fail capacity_exceeded) s h = cc

token_if-some :
    (now : ℕ) (o : Option PairingToken) (pt : PairingToken) → token_if now o ≡ some pt → o ≡ some pt
token_if-some now none pt h = absurd (ground arith)
token_if-some now (some q) pt h = ground arith

-- The steps of a completion that have to do with its token.
record Completed (env : Env) (now : ℕ) (req : CompleteReq) (w : World) (r : World × CompleteResp)
    : Type 0 where
  pt : PairingToken
  lic : License
  key : List ℕ
  q : World × Device
  desktop : Device
  old : Option Pairing
  pair_id : String
  n : ℕ
  s : Store
  w4 : World
  active : token_if now (get (env.hash req.pairing_token) w.store.pairing_tokens) ≡ some pt
  resolved : resolve_mobile env now pt.account_id req.mobile_device_id key w ≡ going q
  used : consume_pairing_token pt.id pair_id now q.0.store ≡ ok s
  bound :
      bind_pairing now pt lic q.1 desktop pair_id n old
        (with_store (draw q.0) (upsert_device (record q.1 { public_key = some key }) s))
      ≡ going w4
  granted : grant_credential env now pt lic q.1 desktop pair_id w4 ≡ r

completion_steps :
    (env : Env) (now : ℕ) (req : CompleteReq) (w : World) (r : World × CompleteResp)
    → handle_complete_pairing env now (some req) w ≡ going r
    → Completed env now req w r
unfolding handle_complete_pairing
completion_steps env now req w r h =
    let (formed, h1) =
      require-going w (not (str_eq req.pairing_token "") && not (str_eq req.mobile_public_key ""))
        400 "bad_request" _ h in
    let (pt, active, h2) =
      need-going w (token_if now (get (env.hash req.pairing_token) w.store.pairing_tokens)) 401
        "pairing_token_invalid" _ h1 in
    let (lic, licensed, h3) =
      need-going w (get pt.license_id w.store.licenses) 403 "license_invalid" _ h2 in
    let (good, h4) =
      require-going w (license_issuable env now lic w.store) 403 "license_invalid" _ h3 in
    let (key, usable, h5) =
      need-going w (usable_key (env.decode64 req.mobile_public_key)) 400 "bad_public_key" _ h4 in
    let (q, resolved, h6) =
      flow-going (resolve_mobile env now pt.account_id req.mobile_device_id key w) _ h5 in
    let (desktop, known, h7) =
      need-going q.0 (desktop_if (get pt.desktop_device_id q.0.store.devices)) 403
        "desktop_unavailable" _ h6 in
    let old = active_pairing_for_desktop lic.id pt.desktop_device_id q.0.store in
    let pair_id = pair_id_for env q.0 old in
    let (n, gated, h8) =
      flow-going (gate_unless (draw q.0) (is_some old) (capacity_available lic q.0.store)) _ h7 in
    let (s, used, h9) =
      flow-going (consumed (draw q.0) (consume_pairing_token pt.id pair_id now q.0.store)) _ h8 in
    let (w4, bound, h10) =
      flow-going
        (bind_pairing now pt lic q.1 desktop pair_id n old
          (with_store (draw q.0) (upsert_device (record q.1 { public_key = some key }) s)))
        _ h9 in
    record {
      pt = pt;
      lic = lic;
      key = key;
      q = q;
      desktop = desktop;
      old = old;
      pair_id = pair_id;
      n = n;
      s = s;
      w4 = w4;
      active = active;
      resolved = resolved;
      used = consumed-going (draw q.0) (consume_pairing_token pt.id pair_id now q.0.store) s used;
      bound = bound;
      granted = going-injective h10;
    }

-- The row of the token after a completion: consumed at its instant.
spent_row :
    (env : Env) (now : ℕ) (req : CompleteReq) (w : World) (r : World × CompleteResp)
    → ((pt : PairingToken)
        → get (env.hash req.pairing_token) w.store.pairing_tokens ≡ some pt
        → pt.id ≡ env.hash req.pairing_token)
    → handle_complete_pairing env now (some req) w ≡ going r
    → (pt : PairingToken) × (get (env.hash req.pairing_token) r.0.store.pairing_tokens ≡ some pt)
      × (pt.consumed_at ≡ now)
spent_row env now req w r keyed h =
    let t = completion_steps env now req w r h in
    let there =
      token_if-some now (get (env.hash req.pairing_token) w.store.pairing_tokens) t.pt t.active in
    let mobile : Device = record t.q.1 { public_key = some t.key } in
    let w3 : World = with_store (draw t.q.0) (upsert_device mobile t.s) in
    let (row, found, zero, next) =
      consume_pairing-ok t.pt.id t.pair_id now t.q.0.store t.s t.used in
    let spent : PairingToken = record row { consumed_at = now; result_pair_id = t.pair_id } in
    let after : r.0.store.pairing_tokens ≡ put t.pt.id spent t.q.0.store.pairing_tokens =
      sym (ap (λ (x : World × CompleteResp). x.0.store.pairing_tokens) t.granted)
      ∙ grant-tokens env now t.pt t.lic t.q.1 t.desktop t.pair_id t.w4
      ∙ bind-Same now t.pt t.lic t.q.1 t.desktop t.pair_id t.n t.old w3 t.w4 t.bound
      ∙ upsert-tokens mobile t.s
      ∙ ap (λ x. x.pairing_tokens) next in
    (
      spent,
      ap (get (env.hash req.pairing_token)) after
          ∙ ap (λ i. get i (put t.pt.id spent t.q.0.store.pairing_tokens)) (sym (keyed t.pt there))
          ∙ get-put_self t.pt.id spent t.q.0.store.pairing_tokens,
      refl,
    )

-- A pairing token completes at most one pairing. After a completion at a positive instant, any request
-- with a token of the same hash, and with a key, is refused with 401 at whatever instant and in every
-- later world, and changes nothing there: whatever refresh and pairing tokens have been written,
-- consumed and revoked in between, in any order, where a new refresh token has an id that is not in
-- use, and whatever else has been written. It is supposed that the row of the token stands under its
-- own id.
pub complete_once :
    (env : Env) (now later : ℕ) (req again : CompleteReq) (w v : World) (r : World × CompleteResp)
    → ((pt : PairingToken)
        → get (env.hash req.pairing_token) w.store.pairing_tokens ≡ some pt
        → pt.id ≡ env.hash req.pairing_token)
    → 0 < now
    → handle_complete_pairing env now (some req) w ≡ going r
    → Later r.0.store v.store
    → env.hash again.pairing_token ≡ env.hash req.pairing_token
    → (not (str_eq again.pairing_token "") && not (str_eq again.mobile_public_key "")) ≡ true
    → handle_complete_pairing env later (some again) v ≡ done v 401 "pairing_token_invalid"
unfolding handle_complete_pairing
complete_once env now later req again w v r keyed positive h l same formed =
    let (row, found, stamp) = spent_row env now req w r keyed h in
    let (pt, there, spent) =
      Later-IsConsumed (env.hash req.pairing_token) r.0.store l
        (row, found, ground (arith, stamp)) in
    let dead : token_if later (get (env.hash again.pairing_token) v.store.pairing_tokens) ≡ none =
      ap (λ i. token_if later (get i v.store.pairing_tokens)) same
      ∙ ap (token_if later) there
      ∙ ground (arith, spent) in
    rw (formed, dead) refl
