-- ===== src/AuthService/Pair/Complete/Capacity.antt =====
-- No completion takes more pair slots than the license has.
use secure_gateway.Common.{◌∙◌, ap, ℕ, ◌≡◌, str_eq, ◌&&◌, not, Option, some, string_key}
use secure_gateway.Common.Table.{get}
use secure_gateway.AuthStore.{Device}
use secure_gateway.AuthStore.Devices.{upsert_device}
use secure_gateway.AuthStore.Tokens.{consume_pairing_token}
use secure_gateway.AuthService.{Env, World, draw, with_store, license_issuable}
use secure_gateway.AuthService.Ends.{Ends, Ends-bind, Ends-need, Ends-require}
use secure_gateway.AuthService.Pair.{
  capacity_available, gate_unless, is_some, active_pairing_for_desktop,
}
use secure_gateway.AuthService.Pair.Complete.{
  token_if, usable_key, desktop_if, CompleteReq, CompleteResp, handle_complete_pairing,
  resolve_mobile, bind_pairing, grant_credential, consumed, pair_id_for,
}
use secure_gateway.AuthStore.Pairings.Limits.{
  WithinCapacity, SameGates, SameGates-within, SameGates-trans, upsert-gates,
}
use secure_gateway.AuthService.Pair.Complete.Gates.{
  Capped, Gated, resolve-gates, bind-Capped, gate_unless-Gated, consumed-gates, Gated-same,
  grant-gates,
}

-- Whatever a completion request does, also where it fails half-way: if every license had at most as
-- many active pairings as its subscription allows, it still has.
pub complete-Capped :
    (env : Env) (now : ℕ) (body : Option CompleteReq) (w : World)
    → WithinCapacity w.store
    → Ends
        (λ v. WithinCapacity v.store)
        (λ (r : World × CompleteResp). WithinCapacity r.0.store)
        (handle_complete_pairing env now body w)
unfolding handle_complete_pairing bind_pairing grant_credential
complete-Capped env now body w h =
    let Q = λ (r : World × CompleteResp). WithinCapacity r.0.store in
    Ends-need Capped Q w body 400 "bad_request" _ h λ req _.
      Ends-require Capped Q w
        (not (str_eq req.pairing_token "") && not (str_eq req.mobile_public_key "")) 400
        "bad_request" _ h
        λ _.
          Ends-need Capped Q w
            (token_if now (get (env.hash req.pairing_token) w.store.pairing_tokens)) 401
            "pairing_token_invalid" _ h
            λ pt _.
              Ends-need Capped Q w (get pt.license_id w.store.licenses) 403 "license_invalid" _ h
                λ lic there.
                  Ends-require Capped Q w (license_issuable env now lic w.store) 403
                    "license_invalid" _ h
                    λ _.
                      Ends-need Capped Q w (usable_key (env.decode64 req.mobile_public_key)) 400
                        "bad_public_key" _ h
                        λ key _.
                          Ends-bind Capped Q (λ (r : World × Device). SameGates w.store r.0.store)
                            (resolve_mobile env now pt.account_id req.mobile_device_id key w) _
                            (resolve-gates env now pt.account_id req.mobile_device_id key w h)
                            λ r _ g.
                              let h1 = SameGates-within g h in
                              Ends-need Capped Q r.0
                                (desktop_if (get pt.desktop_device_id r.0.store.devices)) 403
                                "desktop_unavailable" _ h1
                                λ desktop _.
                                  let old =
                                    active_pairing_for_desktop lic.id pt.desktop_device_id
                                      r.0.store in
                                  let pair_id = pair_id_for env r.0 old in
                                  let id : lic.id ≡ pt.license_id =
                                    h.keyed pt.license_id lic there in
                                  let there1 : get lic.id r.0.store.licenses ≡ some lic =
                                    ap (λ i. get i r.0.store.licenses) id
                                    ∙ ap (get pt.license_id) g.same_licenses
                                    ∙ there in
                                  Ends-bind Capped Q (λ n. Gated lic n old r.0.store)
                                    (gate_unless (draw r.0) (is_some old)
                                      (capacity_available lic r.0.store))
                                    _ (gate_unless-Gated lic old (draw r.0) h1 there1)
                                    λ n _ gated.
                                      Ends-bind Capped Q (SameGates r.0.store)
                                        (consumed (draw r.0)
                                          (consume_pairing_token pt.id pair_id now r.0.store))
                                        _ (consumed-gates pt.id pair_id now (draw r.0) h1)
                                        λ s _ g2.
                                          let mobile : Device = record r.1 {
                                            public_key = some key;
                                          } in
                                          let g3 = SameGates-trans g2 (upsert-gates mobile s) in
                                          let w3 = with_store (draw r.0) (upsert_device mobile s) in
                                          Ends-bind Capped Q Capped
                                            (bind_pairing now pt lic mobile desktop pair_id n old
                                              w3)
                                            _
                                            (bind-Capped now pt lic mobile desktop pair_id n old w3
                                              (SameGates-within g3 h1)
                                              (Gated-same lic n old g3 gated))
                                            λ w4 _ h4. record {
                                              leaves =
                                                  SameGates-within
                                                    (grant-gates env now pt lic mobile desktop
                                                      pair_id w4)
                                                    h4;
                                            }
