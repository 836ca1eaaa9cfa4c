-- ===== src/AuthService/Issue/Rotation.antt =====
-- Refresh tokens are good for one use, and a second use cuts the device off.
use secure_gateway.Common.{
  ◌∙◌, ap, ℕ, ◌<◌, ◌≡◌, ◌≢◌, sym, String, str_eq, eq_iff, true, false, not, Option, none, some,
  arith, string_key,
}
use secure_gateway.Common.Table.{Table, get, put, get-put, get-put_self}
use secure_gateway.Token.{Claims}
use secure_gateway.AuthStore.{
  Device, License, Pairing, pairing_active, RefreshToken, refresh_token_active, is_zero,
}
use secure_gateway.AuthStore.State.{Store, Outcome, ok, fail}
use secure_gateway.AuthStore.Tokens.{consume_refresh_token, put_refresh_token}
use secure_gateway.AuthStore.Tokens.Rows.{consume-ok, revoke_by_device-inactive}
use secure_gateway.AuthStore.Tokens.Later.{Later, Later-IsRevoked}
use secure_gateway.AuthService.{
  Env, World, done, going, pairing_issuable, pairing_has_device, draw, with_store, new_id,
  publish_event,
}
use secure_gateway.AuthService.Issue.{
  TokenResp, handle_refresh_token, issue_token_pair, mint, refresh_row, after_reuse, active_pairing,
  consumed, revoked_world,
}
use secure_gateway.AuthService.Issue.Entitled.{
  IsMember, IsMember_iff, IsIssuable, pairing_issuable-some, Certifies, minted,
}
use secure_gateway.AuthService.Ends.{going-injective, need-going, require-going}

-- What a refresh rests on: a row that is active, of a pairing and a device that still belong together.
pub record Renewable (env : Env) (now : ℕ) (secret : String) (s : Store) : Type 0 where
  pub rt : RefreshToken
  pub p : Pairing
  pub d : Device
  pub lic : License
  pub row_there : get (env.hash secret) s.refresh_tokens ≡ some rt
  pub row_active : refresh_token_active rt now ≡ true
  pub pairing_there : get rt.pair_id s.pairings ≡ some p
  pub pairing_live : p.status ≡ pairing_active
  pub device_there : get rt.device_id s.devices ≡ some d
  pub device_owned : d.account_id ≡ rt.account_id
  pub member : IsMember p d
  pub license_there : get p.license_id s.licenses ≡ some lic
  pub license_good : IsIssuable env now lic s

active_pairing-some :
    (o : Option Pairing) (p : Pairing)
    → active_pairing o ≡ some p
    → (o ≡ some p) × (p.status ≡ pairing_active)
active_pairing-some none p h = absurd (ground arith)
active_pairing-some (some q) p h = ground arith

consumed-some {ℓ} : {A : Type ℓ} (o : Outcome A) {a : A} → consumed o ≡ some a → o ≡ ok a
consumed-some (ok a) h = ground arith
consumed-some (fail e) h = cc

refresh_steps :
    (env : Env) (now : ℕ) (secret : String) (w : World) {r : World × TokenResp}
    → handle_refresh_token env now (some secret) w ≡ going r
    → (secret ≢ "")
      × (t : Renewable env now secret w.store) × (s : Store) × (consume_refresh_token t.rt.id now
            w.store
          ≡ ok s)
      × (issue_token_pair env now t.rt.account_id t.p t.d t.lic (with_store w s) ≡ going r)
unfolding handle_refresh_token
refresh_steps env now secret w h =
    let (full, h1) = require-going w (not (str_eq secret "")) 400 "bad_request" _ h in
    let (rt, there, h2) =
      need-going w (get (env.hash secret) w.store.refresh_tokens) 401 "refresh_invalid" _ h1 in
    let (live, h3) =
      require-going (after_reuse now rt w) (refresh_token_active rt now) 401 "refresh_invalid" _
        h2 in
    let (p, paired, h4) =
      need-going (revoked_world now rt.id w) (active_pairing (get rt.pair_id w.store.pairings)) 403
        "pairing_invalid" _ h3 in
    let (d, known, h5) =
      need-going w (get rt.device_id w.store.devices) 403 "device_invalid" _ h4 in
    let (mine, h6) =
      require-going w (str_eq d.account_id rt.account_id) 403 "device_invalid" _ h5 in
    let (member, h7) =
      require-going (revoked_world now rt.id w) (pairing_has_device p d) 403 "device_not_in_pairing"
        _ h6 in
    let (lic, good, h8) =
      need-going (revoked_world now rt.id w) (pairing_issuable env now p w.store) 403
        "license_invalid" _ h7 in
    let (s, used, h9) =
      need-going w (consumed (consume_refresh_token rt.id now w.store)) 401 "refresh_invalid" _
        h8 in
    let pair = active_pairing-some (get rt.pair_id w.store.pairings) p paired in
    let licensed = pairing_issuable-some env now p w.store lic good in
    (
      ground (arith, eq_iff secret ""),
      record {
        rt = rt;
        p = p;
        d = d;
        lic = lic;
        row_there = there;
        row_active = live;
        pairing_there = pair.0;
        pairing_live = pair.1;
        device_there = known;
        device_owned = (eq_iff d.account_id rt.account_id).0 mine;
        member = (IsMember_iff p d).0 member;
        license_there = licensed.0;
        license_good = licensed.1;
      },
      s,
      consumed-some (consume_refresh_token rt.id now w.store) used,
      h9,
    )

-- A refresh succeeds only on an active row whose pairing is active, whose device is the account's
-- and a current member of the pairing, and whose license is issuable now; the new token's claims are
-- theirs.
pub refresh_sound :
    (env : Env) (now : ℕ) (secret : String) (w : World) (r : World × TokenResp)
    → handle_refresh_token env now (some secret) w ≡ going r
    → (t : Renewable env now secret w.store) × (c : Claims) × (env.sign c ≡ some r.1.token)
      × Certifies c env now t.rt.account_id t.p t.d t.lic
refresh_sound env now secret w r h =
    let (full, t, s, used, h1) = refresh_steps env now secret w h in
    let (c, signed, certified) = minted env now t.rt.account_id t.p t.d t.lic (with_store w s) h1 in
    (t, c, signed, certified)

issue_token_pair-rows :
    (env : Env) (now : ℕ) (account : String) (p : Pairing) (d : Device) (lic : License) (w : World)
    {r : World × TokenResp}
    → issue_token_pair env now account p d lic w ≡ going r
    → r.0.store.refresh_tokens
      ≡ put
          (env.hash (new_id env "rt" (draw w)))
          (refresh_row env now account p d (draw w))
          w.store.refresh_tokens
unfolding issue_token_pair put_refresh_token refresh_row
issue_token_pair-rows env now account p d lic w h =
    let (jwt, signed, h1) =
      need-going (draw w) (mint env now (env.rand w.drawn) account p d lic) 500 "sign_error" _ h in
    sym (ap (λ r. r.0.store.refresh_tokens) (going-injective h1))

stamped :
    (h id new : String) (now : ℕ) (rt r' row : RefreshToken) (m m1 m2 : Table String RefreshToken)
    → id ≡ h
    → get h m ≡ some rt
    → get id m ≡ some r'
    → m1 ≡ put id (record r' { revoked_at = now }) m
    → m2 ≡ put new row m1
    → new ≢ h
    → get h m2 ≡ some (record rt { revoked_at = now })
stamped h id new now rt r' row m m1 m2 e there read first second ne =
    ground
      (arith, eq_iff new h, get-put new h row m1, get-put_self h (record r' { revoked_at = now }) m)

-- The row of a secret after a refresh with it is stamped.
row_after :
    (env : Env) (now : ℕ) (secret : String) (w : World) {r : World × TokenResp}
    → ((rt : RefreshToken)
        → get (env.hash secret) w.store.refresh_tokens ≡ some rt
        → rt.id ≡ env.hash secret)
    → env.hash (new_id env "rt" (draw w)) ≢ env.hash secret
    → handle_refresh_token env now (some secret) w ≡ going r
    → (rt : RefreshToken) × (get (env.hash secret) w.store.refresh_tokens ≡ some rt)
      × (get (env.hash secret) r.0.store.refresh_tokens ≡ some (record rt { revoked_at = now }))
unfolding new_id refresh_row refresh_steps
row_after env now secret w {r} keyed fresh h =
    let (full, t, s, used, h1) = refresh_steps env now secret w h in
    let (old, read, zero, next) = consume-ok t.rt.id now w.store s used in
    let rows = issue_token_pair-rows env now t.rt.account_id t.p t.d t.lic (with_store w s) h1 in
    (
      t.rt,
      t.row_there,
      stamped (env.hash secret) t.rt.id (env.hash (new_id env "rt" (draw w))) now t.rt old _
          w.store.refresh_tokens s.refresh_tokens r.0.store.refresh_tokens (keyed t.rt t.row_there)
          t.row_there read (ap (λ s. s.refresh_tokens) next) rows fresh,
    )

-- A secret whose row is revoked is refused with 401, and the world left behind is that of the reuse
-- response.
refused_when_revoked :
    (env : Env) (now : ℕ) (secret : String) (w : World) (rt : RefreshToken)
    → secret ≢ ""
    → get (env.hash secret) w.store.refresh_tokens ≡ some rt
    → rt.revoked_at ≢ 0
    → handle_refresh_token env now (some secret) w
      ≡ done (after_reuse now rt w) 401 "refresh_invalid"
unfolding handle_refresh_token
refused_when_revoked env now secret w rt full there revoked =
    let named : str_eq secret "" ≡ false = ground (arith, eq_iff secret "") in
    let dead : refresh_token_active rt now ≡ false = ground arith in rw (named, there) (rw dead)

reuse_revokes :
    (now : ℕ) (rt : RefreshToken) (w : World) (id : String) (row : RefreshToken) (t : ℕ)
    → 0 < now
    → rt.revoked_at ≢ 0
    → get id (after_reuse now rt w).store.refresh_tokens ≡ some row
    → row.device_id ≡ rt.device_id
    → refresh_token_active row t ≡ false
unfolding after_reuse publish_event
reuse_revokes now rt w id row t p revoked h e =
    let dead : is_zero rt.revoked_at ≡ false = ground arith in
    revoke_by_device-inactive rt.device_id now t w.store id row p (rw dead at h) e

-- A refresh secret works once. After a refresh with it at a positive instant, the same secret is
-- refused with 401 at whatever instant and in every later world: whatever refresh and pairing tokens
-- have been written, consumed and revoked in between, in any order, where a new refresh token has an
-- id that is not in use, and whatever else has been written. It is supposed that the row stands under
-- its own id and that the hash of the new secret is not that of the old one.
pub refresh_once :
    (env : Env) (now later : ℕ) (secret : String) (w v : World) (r : World × TokenResp)
    → ((rt : RefreshToken)
        → get (env.hash secret) w.store.refresh_tokens ≡ some rt
        → rt.id ≡ env.hash secret)
    → env.hash (new_id env "rt" (draw w)) ≢ env.hash secret
    → 0 < now
    → handle_refresh_token env now (some secret) w ≡ going r
    → Later r.0.store v.store
    → (w' : World) × (handle_refresh_token env later (some secret) v
        ≡ done w' 401 "refresh_invalid")
refresh_once env now later secret w v r keyed fresh p h l =
    let (rt, there, after) = row_after env now secret w keyed fresh h in
    let full = (refresh_steps env now secret w h).0 in
    let (used, at, revoked) =
      Later-IsRevoked (env.hash secret) r.0.store l
        (record rt { revoked_at = now }, after, ground arith) in
    (after_reuse later used v, refused_when_revoked env later secret v used full at revoked)

-- When a refresh secret that was used at a positive instant is refused at another positive instant,
-- the device of its row has no active refresh token in the world that the refusal leaves, whatever
-- the instant asked about. It is supposed that the row stands under its own id and that the hash of
-- the new secret is not that of the old one.
pub reuse-revokes_device :
    (env : Env) (now later t : ℕ) (secret id : String) (w w' : World) (r : World × TokenResp)
    (rt row : RefreshToken)
    → ((rt : RefreshToken)
        → get (env.hash secret) w.store.refresh_tokens ≡ some rt
        → rt.id ≡ env.hash secret)
    → env.hash (new_id env "rt" (draw w)) ≢ env.hash secret
    → 0 < now
    → 0 < later
    → handle_refresh_token env now (some secret) w ≡ going r
    → handle_refresh_token env later (some secret) r.0 ≡ done w' 401 "refresh_invalid"
    → get (env.hash secret) w.store.refresh_tokens ≡ some rt
    → get id w'.store.refresh_tokens ≡ some row
    → row.device_id ≡ rt.device_id
    → refresh_token_active row t ≡ false
reuse-revokes_device env now later t secret id w w' r rt row keyed fresh p q h again row_of found
      mine =
    let (rt0, there, after) = row_after env now secret w keyed fresh h in
    let used : RefreshToken = record rt0 { revoked_at = now } in
    let full = (refresh_steps env now secret w h).0 in
    let refused = refused_when_revoked env later secret r.0 used full after (ground arith) in
    let left : w' ≡ after_reuse later used r.0 =
      ap (λ f. elim f [ done v status code ↦ v | going x ↦ r.0 ]) (sym again ∙ refused) in
    let is_rt : rt ≡ rt0 = ground (arith, sym row_of ∙ there) in
    reuse_revokes later used r.0 id row t q (ground arith)
      (ap (λ v. get id v.store.refresh_tokens) (sym left) ∙ found)
      (mine ∙ ap (λ x. x.device_id) is_rt)
